-- ===== src/Command/Complete/Finds.antt =====
-- Nothing is left out: every entry at the position is among the matched strings.
use qr_wireguard_ui.Base.{
  ℕ, true, false, ◌&&◌, ◌≡◌, ◌⊎◌, inl, inr, refl, sym, Option, none, some, List, [], ◌∷◌, ◌++◌,
  arith, Bool, get_elem?, if◌then◌else◌, Bool-cases,
}
use mathlib.Core.Path.{subst}
use qr_wireguard_ui.Text.{CString, str_eq}
use qr_wireguard_ui.Text.Laws.{str_eq_iff}
use qr_wireguard_ui.Command.{Desc, CmdElement}
use qr_wireguard_ui.Command.Spec.{AnySlot}
use qr_wireguard_ui.Command.Execute.{CmdVector}
use qr_wireguard_ui.Command.Complete.{
  cmd_entry_function, cmd_unique_string, match_descs, match_slots,
}

-- One of the tokens is the string; one of the strings is.
abbrev pub HasToken : CString → List Desc → Type 0
HasToken str [] = ⊥
HasToken str (desc ∷ rest) = (desc.cmd ≡ str) ⊎ HasToken str rest

abbrev pub HasString : CString → List CString → Type 0
HasString str [] = ⊥
HasString str (x ∷ rest) = (x ≡ str) ⊎ HasString str rest

HasString-append :
    (str s : CString) (xs : List CString) → HasString str xs → HasString str (xs ++ (s ∷ []))
HasString-append str s [] h = absurd h
HasString-append str s (x ∷ xs) (inl same) = inl same
HasString-append str s (x ∷ xs) (inr h) = inr (HasString-append str s xs h)

HasString-last : (str : CString) (xs : List CString) → HasString str (xs ++ (str ∷ []))
HasString-last str [] = inl refl
HasString-last str (x ∷ xs) = inr (HasString-last str xs)

not_unique-HasString :
    (str : CString) (xs : List CString) → cmd_unique_string xs str ≡ false → HasString str xs
unfolding cmd_unique_string
not_unique-HasString str [] h = absurd (ground arith)
not_unique-HasString str (x ∷ xs) h = elim (Bool-cases (str_eq x str)) [
  | inl same ↦ inl ((str_eq_iff x str).0 same)
  | inr other ↦ inr (not_unique-HasString str xs (ground (arith, h, other)))
]

module _ (src : Option CString) (str : CString) where
  kept :
      (d : CString) (xs : List CString) (b : Bool)
      → HasString str xs
      → HasString str (if b then xs ++ (d ∷ []) else xs)
  kept d xs true h = HasString-append str d xs h
  kept d xs false h = h

  found :
      (xs : List CString) (b c : Bool)
      → b ≡ true
      → cmd_unique_string xs str ≡ c
      → HasString str (if b && c then xs ++ (str ∷ []) else xs)
  found xs true true e u = HasString-last str xs
  found xs true false e u = not_unique-HasString str xs u
  found xs false c e u = absurd (ground arith)

  match_descs-keeps :
      (ds : List Desc) (xs : List CString)
      → HasString str xs
      → HasString str (match_descs src ds xs)
  unfolding match_descs
  match_descs-keeps [] xs h = h
  match_descs-keeps (d ∷ ds) xs h = match_descs-keeps ds _ (kept d.cmd xs _ h)

  match_descs-finds :
      (ds : List Desc) (xs : List CString)
      → HasToken str ds
      → cmd_entry_function src str ≡ true
      → HasString str (match_descs src ds xs)
  unfolding match_descs
  match_descs-finds [] xs h e = absurd h
  match_descs-finds (d ∷ ds) xs (inl same) e = match_descs-keeps ds _ (
      subst
        (λ t.
          HasString str
            (if cmd_entry_function src t && cmd_unique_string xs t then xs ++ (t ∷ []) else xs))
        (sym same) (found xs (cmd_entry_function src str) _ e refl))
  match_descs-finds (d ∷ ds) xs (inr h) e = match_descs-finds ds _ h e

  kept_at :
      (o : Option (List Desc)) (xs : List CString)
      → HasString str xs
      → HasString str (elim o [ none ↦ xs | some descvec ↦ match_descs src descvec xs ])
  kept_at none xs h = h
  kept_at (some ds) xs h = match_descs-keeps ds xs h

  found_at :
      (o : Option (List Desc)) (ds : List Desc) (xs : List CString)
      → o ≡ some ds
      → HasToken str ds
      → cmd_entry_function src str ≡ true
      → HasString str (elim o [ none ↦ xs | some descvec ↦ match_descs src descvec xs ])
  found_at o ds xs at has entry = rw at (match_descs-finds ds xs has entry)

  module _ {F : Type 0} (index : ℕ) where
    match_slots-keeps :
        (v : CmdVector F) (xs : List CString)
        → HasString str xs
        → HasString str (match_slots src index v xs)
    unfolding match_slots
    match_slots-keeps [] xs h = h
    match_slots-keeps (none ∷ v) xs h = match_slots-keeps v xs h
    match_slots-keeps (some e ∷ v) xs h =
        match_slots-keeps v _ (kept_at (get_elem? e.strvec index) xs h)

    pub match_slots-finds :
        (v : CmdVector F) (xs : List CString) (e : CmdElement F) (ds : List Desc)
        → AnySlot (λ x. x ≡ e) v
        → get_elem? e.strvec index ≡ some ds
        → HasToken str ds
        → cmd_entry_function src str ≡ true
        → HasString str (match_slots src index v xs)
    unfolding match_slots
    match_slots-finds [] xs e ds a at has entry = absurd a
    match_slots-finds (none ∷ v) xs e ds a at has entry = match_slots-finds v xs e ds a at has entry
    match_slots-finds (some x ∷ v) xs e ds (inl same) at has entry = match_slots-keeps v _ (
        found_at (get_elem? x.strvec index) ds xs
          (subst (λ (y : CmdElement F). get_elem? y.strvec index ≡ some ds) (sym same) at) has
          entry)
    match_slots-finds (some x ∷ v) xs e ds (inr a) at has entry =
        match_slots-finds v _ e ds a at has entry
