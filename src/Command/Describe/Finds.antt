-- ===== src/Command/Describe/Finds.antt =====
-- No token is left out of a description.
use qr_wireguard_ui.Base.{
  ℕ, Bool, true, false, not, ◌&&◌, ◌≡◌, inl, inr, refl, sym, ap, ◌∙◌, Option, none, some, List, [],
  ◌∷◌, ◌++◌, ◌==◌, arith, length, get_elem?, if◌then◌else◌, Bool-cases,
}
use mathlib.Core.Option
use mathlib.Core.Path.{subst}
use qr_wireguard_ui.Text.{CString, str_eq}
use qr_wireguard_ui.Text.Laws.{str_eq_iff}
use qr_wireguard_ui.Command.{Desc, CmdElement}
use qr_wireguard_ui.Command.Spec.{AnySlot}
use qr_wireguard_ui.Command.Execute.{CmdVector}
use qr_wireguard_ui.Command.Complete.Finds.{HasToken}
use qr_wireguard_ui.Command.Describe.{
  cmd_entry_function_desc, desc_unique_string, desc_cr, set_cr, describe_descs, describe_end,
  describe_slot, describe_slots,
}

HasToken-append :
    (str : CString) (d : Desc) (xs : List Desc) → HasToken str xs → HasToken str (xs ++ (d ∷ []))
HasToken-append str d [] h = absurd h
HasToken-append str d (x ∷ xs) (inl same) = inl same
HasToken-append str d (x ∷ xs) (inr h) = inr (HasToken-append str d xs h)

HasToken-last : (d : Desc) (xs : List Desc) → HasToken d.cmd (xs ++ (d ∷ []))
HasToken-last d [] = inl refl
HasToken-last d (x ∷ xs) = inr (HasToken-last d xs)

listed-HasToken :
    (str : CString) (xs : List Desc) → desc_unique_string xs str ≡ true → HasToken str xs
unfolding desc_unique_string
listed-HasToken str [] h = absurd (ground arith)
listed-HasToken str (x ∷ xs) h = elim (Bool-cases (str_eq x.cmd str)) [
  | inl same ↦ inl ((str_eq_iff x.cmd str).0 same)
  | inr other ↦ inr (listed-HasToken str xs (ground (arith, h, other)))
]

set_cr-HasToken : (xs : List Desc) → HasToken desc_cr.cmd (set_cr xs)
unfolding set_cr
set_cr-HasToken xs = elim (Bool-cases (desc_unique_string xs desc_cr.cmd)) [
  | inl there ↦ rw there (listed-HasToken desc_cr.cmd xs there)
  | inr new ↦ rw new (HasToken-last desc_cr xs)
]

module _ (src : Option CString) (str : CString) where
  kept :
      (d : Desc) (xs : List Desc) (b : Bool)
      → HasToken str xs
      → HasToken str (if b then xs ++ (d ∷ []) else xs)
  kept d xs true h = HasToken-append str d xs h
  kept d xs false h = h

  set_cr-keeps : (xs : List Desc) → HasToken str xs → HasToken str (set_cr xs)
  unfolding set_cr
  set_cr-keeps xs h = elim (Bool-cases (desc_unique_string xs desc_cr.cmd)) [
    | inl there ↦ rw there h
    | inr new ↦ rw new (HasToken-append str desc_cr xs h)
  ]

  found :
      (d : Desc) (xs : List Desc) (b c : Bool)
      → b ≡ true
      → desc_unique_string xs d.cmd ≡ c
      → HasToken d.cmd (if b && not c then xs ++ (d ∷ []) else xs)
  found d xs true false e u = HasToken-last d xs
  found d xs true true e u = listed-HasToken d.cmd xs u
  found d xs false c e u = absurd (ground arith)

  descs-keeps : (ds xs : List Desc) → HasToken str xs → HasToken str (describe_descs src ds xs)
  unfolding describe_descs
  descs-keeps [] xs h = h
  descs-keeps (d ∷ ds) xs h = descs-keeps ds _ (kept d xs _ h)

  descs-finds :
      (ds xs : List Desc)
      → HasToken str ds
      → cmd_entry_function_desc src str ≡ true
      → HasToken str (describe_descs src ds xs)
  unfolding describe_descs
  descs-finds [] xs h e = absurd h
  descs-finds (d ∷ ds) xs (inl same) e = descs-keeps ds _ (
      subst
        (λ t. HasToken t (
          if cmd_entry_function_desc src d.cmd && not (desc_unique_string xs d.cmd)
          then xs ++ (d ∷ [])
          else xs))
        same (found d xs _ _ (ap (cmd_entry_function_desc src) same ∙ e) refl))
  descs-finds (d ∷ ds) xs (inr h) e = descs-finds ds _ h e

  module _ (index : ℕ) where
    end-keeps :
        (src' : Option CString) (max : ℕ) (xs ds : List Desc)
        → describe_end src' index max xs ≡ some ds
        → HasToken str xs
        → HasToken str ds
    unfolding describe_end
    end-keeps (some word) max xs ds e h = subst (HasToken str) (ground (arith, e)) h
    end-keeps none max xs ds e h = elim (Bool-cases (index == max)) [
      | inl at ↦ subst (HasToken str) (ground (arith, e, at)) (set_cr-keeps xs h)
      | inr past ↦ absurd (ground (arith, e, past))
    ]

    slot-keeps :
        (max : ℕ) (o : Option (List Desc)) (xs ds : List Desc)
        → (elim o as (λ x. Option (List Desc)) [
          | none ↦ describe_end src index max xs
          | some descvec ↦ some (describe_descs src descvec xs)
        ])
          ≡ some ds
        → HasToken str xs
        → HasToken str ds
    slot-keeps max none xs ds e h = end-keeps src max xs ds e h
    slot-keeps max (some descvec) xs ds e h =
        subst (HasToken str) (ground (arith, e)) (descs-keeps descvec xs h)

bind_some :
    (o : Option (List Desc)) (f : List Desc → Option (List Desc)) (r : List Desc)
    → Option.bind o f ≡ some r
    → (xs : List Desc) × (o ≡ some xs) × (f xs ≡ some r)
unfolding Option.bind
bind_some none f r h = absurd (ground arith)
bind_some (some xs) f r h = (xs, refl, h)

module _ {F : Type 0} (src : Option CString) (str : CString) (index : ℕ) where
  slots-keeps :
      (v : CmdVector F) (xs ds : List Desc)
      → describe_slots src index v xs ≡ some ds
      → HasToken str xs
      → HasToken str ds
  unfolding describe_slots describe_slot
  slots-keeps [] xs ds e h = subst (HasToken str) (ground (arith, e)) h
  slots-keeps (none ∷ v) xs ds e h = slots-keeps v xs ds e h
  slots-keeps (some x ∷ v) xs ds e h =
      let (xs', here, rest) = bind_some _ (describe_slots src index v) ds e in
      slots-keeps v xs' ds rest
        (slot-keeps src str index (length x.strvec) (get_elem? x.strvec index) xs xs' here h)

  -- What an element has to be described by puts its token among the described ones.
  abbrev Puts : CmdElement F → Type 0
  Puts e =
      (xs xs' : List Desc)
      → (elim (get_elem? e.strvec index) as (λ x. Option (List Desc)) [
        | none ↦ describe_end src index (length e.strvec) xs
        | some descvec ↦ some (describe_descs src descvec xs)
      ])
        ≡ some xs'
      → HasToken str xs'

  slots-finds :
      (v : CmdVector F) (xs ds : List Desc) (e : CmdElement F)
      → describe_slots src index v xs ≡ some ds
      → AnySlot (λ x. x ≡ e) v
      → Puts e
      → HasToken str ds
  unfolding describe_slots describe_slot
  slots-finds [] xs ds e h a p = absurd a
  slots-finds (none ∷ v) xs ds e h a p = slots-finds v xs ds e h a p
  slots-finds (some x ∷ v) xs ds e h (inl same) p =
      let (xs', here, rest) = bind_some _ (describe_slots src index v) ds h in
      slots-keeps v xs' ds rest (subst Puts (sym same) p xs xs' here)
  slots-finds (some x ∷ v) xs ds e h (inr a) p =
      let (xs', here, rest) = bind_some _ (describe_slots src index v) ds h in
      slots-finds v xs' ds e rest a p

  at_position-finds :
      (e : CmdElement F) (o : Option (List Desc)) (tokens xs xs' : List Desc)
      → o ≡ some tokens
      → HasToken str tokens
      → cmd_entry_function_desc src str ≡ true
      → (elim o as (λ x. Option (List Desc)) [
        | none ↦ describe_end src index (length e.strvec) xs
        | some descvec ↦ some (describe_descs src descvec xs)
      ])
        ≡ some xs'
      → HasToken str xs'
  at_position-finds e none tokens xs xs' at has entry h = absurd (ground arith)
  at_position-finds e (some descvec) tokens xs xs' at has entry h =
      subst (HasToken str) (ground (arith, h))
        (descs-finds src str descvec xs (subst (HasToken str) (ground (arith, at)) has) entry)

  -- Every token at the position that goes with what is typed is described.
  pub describe_slots-finds :
      (v : CmdVector F) (ds : List Desc) (e : CmdElement F) (tokens : List Desc)
      → describe_slots src index v [] ≡ some ds
      → AnySlot (λ x. x ≡ e) v
      → get_elem? e.strvec index ≡ some tokens
      → HasToken str tokens
      → cmd_entry_function_desc src str ≡ true
      → HasToken str ds
  describe_slots-finds v ds e tokens h a at has entry =
      slots-finds v [] ds e h a
        (λ xs xs' here. at_position-finds e _ tokens xs xs' at has entry here)

get_elem?-length : (strvec : List (List Desc)) → get_elem? strvec (length strvec) ≡ none
get_elem?-length [] = refl
get_elem?-length (ds ∷ strvec) = get_elem?-length strvec

set_cr_end :
    (index : ℕ) (xs xs' : List Desc)
    → describe_end none index index xs ≡ some xs'
    → HasToken desc_cr.cmd xs'
unfolding describe_end
set_cr_end index xs xs' h = subst (HasToken desc_cr.cmd) (ground (arith, h)) (set_cr-HasToken xs)

module _ {F : Type 0} (index : ℕ) where
  at_end-finds :
      (e : CmdElement F) (o : Option (List Desc)) (xs xs' : List Desc)
      → o ≡ none
      → length e.strvec ≡ index
      → (elim o as (λ x. Option (List Desc)) [
        | none ↦ describe_end none index (length e.strvec) xs
        | some descvec ↦ some (describe_descs none descvec xs)
      ])
        ≡ some xs'
      → HasToken desc_cr.cmd xs'
  at_end-finds e none xs xs' at whole h =
      set_cr_end index xs xs' (subst (λ n. describe_end none index n xs ≡ some xs') whole h)
  at_end-finds e (some descvec) xs xs' at whole h = absurd (ground arith)

  -- Where nothing is typed behind the last word of an element, the end of the line is described.
  pub describe_slots-ends :
      (v : CmdVector F) (ds : List Desc) (e : CmdElement F)
      → describe_slots none index v [] ≡ some ds
      → AnySlot (λ x. x ≡ e) v
      → length e.strvec ≡ index
      → HasToken desc_cr.cmd ds
  describe_slots-ends v ds e h a whole =
      slots-finds none desc_cr.cmd index v [] ds e h a (λ xs xs' here.
        at_end-finds e _ xs xs'
          (subst (λ n. get_elem? e.strvec n ≡ none) whole (get_elem?-length e.strvec)) whole here)
