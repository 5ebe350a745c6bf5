-- ===== src/Command/Spec.antt =====
-- What a command promises about the words that call it, with no vectors and no match types: the
-- words a token takes, the words a command takes, and the elements of a command vector.
use qr_wireguard_ui.Base.{
  ℕ, Bool, true, false, not, ◌&&◌, ◌||◌, ◌≡◌, ◌⊎◌, inl, inr, refl, Option, none, some, List, [],
  ◌∷◌, ◌++◌, arith, length, get_elem?,
}
use qr_wireguard_ui.Text.{CString, str_eq, starts_with}
use qr_wireguard_ui.Match.{MatchType, no_match, exact_match}
use qr_wireguard_ui.Match.Ipv4.{cmd_ipv4_match}
use qr_wireguard_ui.Match.Ipv4Prefix.{cmd_ipv4_prefix_match}
use qr_wireguard_ui.Match.Ipv6.{cmd_ipv6_match}
use qr_wireguard_ui.Match.Range.{cmd_range_match}
use qr_wireguard_ui.Command.{Desc, CmdElement, cmd_vararg}
use qr_wireguard_ui.Command.Filter.{
  Kind, vararg, range, ipv6, ipv6_prefix, ipv4, ipv4_prefix, extend, literal, kind,
}

-- The words that a test takes at a token, and what a literal token takes.
abbrev pub Accepts : Type 0
Accepts = CString → CString → Bool

-- One of the tokens takes the word.
unfoldable pub accepts_any : Accepts → CString → List Desc → Bool
accepts_any accepts word [] = false
accepts_any accepts word (desc ∷ rest) = accepts word desc.cmd || accepts_any accepts word rest

-- The words are taken, in order, by the first positions of the command.
abbrev pub AcceptsAll : Accepts → List CString → List (List Desc) → Type 0
AcceptsAll accepts [] strvec = Unit
AcceptsAll accepts (word ∷ words) [] = ⊥
AcceptsAll accepts (word ∷ words) (descvec ∷ strvec) =
    (accepts_any accepts word descvec ≡ true) × AcceptsAll accepts words strvec

-- A variable argument list among the tokens of a position.
unfoldable pub has_vararg : List Desc → Bool
has_vararg [] = false
has_vararg (desc ∷ rest) = cmd_vararg desc.cmd || has_vararg rest

-- A variable argument list is the only token of its position.
unfoldable pub vararg_alone : List Desc → Bool
unfolding has_vararg
vararg_alone (desc ∷ []) = true
vararg_alone descvec = not (has_vararg descvec)

unfoldable pub all_alone : List (List Desc) → Bool
unfolding vararg_alone
all_alone [] = true
all_alone (descvec ∷ strvec) = vararg_alone descvec && all_alone strvec

module _ {F : Type 0} where
  -- Every element of the command vector satisfies `P`; some element does.
  abbrev pub Slots : (CmdElement F → Type 0) → List (Option (CmdElement F)) → Type 0
  Slots P [] = Unit
  Slots P (none ∷ v) = Slots P v
  Slots P (some e ∷ v) = P e × Slots P v

  abbrev pub AnySlot : (CmdElement F → Type 0) → List (Option (CmdElement F)) → Type 0
  AnySlot P [] = ⊥
  AnySlot P (none ∷ v) = AnySlot P v
  AnySlot P (some e ∷ v) = P e ⊎ AnySlot P v

  -- The position `index` of the element holds a variable argument list.
  abbrev pub VarargAt : ℕ → CmdElement F → Type 0
  VarargAt index e =
      (descvec : List Desc) × (get_elem? e.strvec index ≡ some descvec)
      × (has_vararg descvec ≡ true)

  pub Slots-map :
      (P Q : CmdElement F → Type 0)
      → ((e : CmdElement F) → P e → Q e)
      → (v : List (Option (CmdElement F))) → Slots P v
      → Slots Q v
  Slots-map P Q f [] s = tt
  Slots-map P Q f (none ∷ v) s = Slots-map P Q f v s
  Slots-map P Q f (some e ∷ v) s = (f e s.0, Slots-map P Q f v s.1)

module _ {F : Type 0} where
  pub Slots-and :
      (P Q : CmdElement F → Type 0) (v : List (Option (CmdElement F)))
      → Slots P v
      → Slots Q v
      → Slots (λ e. P e × Q e) v
  Slots-and P Q [] s t = tt
  Slots-and P Q (none ∷ v) s t = Slots-and P Q v s t
  Slots-and P Q (some e ∷ v) s t = ((s.0, t.0), Slots-and P Q v s.1 t.1)

  -- Every element of a vector is in it.
  pub Slots-self : (v : List (Option (CmdElement F))) → Slots (λ e. AnySlot (λ x. x ≡ e) v) v
  Slots-self [] = tt
  Slots-self (none ∷ v) = Slots-self v
  Slots-self (some e ∷ v) = (
    inl refl,
    Slots-map (λ y. AnySlot (λ x. x ≡ y) v) (λ y. AnySlot (λ x. x ≡ y) (some e ∷ v)) (λ y k. inr k)
        v (Slots-self v),
  )

pub AcceptsAll-concat :
    (accepts : Accepts) (words : List CString) (strvec : List (List Desc)) (word : CString)
    (descvec : List Desc)
    → AcceptsAll accepts words strvec
    → get_elem? strvec (length words) ≡ some descvec
    → accepts_any accepts word descvec ≡ true
    → AcceptsAll accepts (words ++ (word ∷ [])) strvec
AcceptsAll-concat accepts [] [] word descvec a at h = absurd (ground arith)
AcceptsAll-concat accepts [] (d ∷ strvec) word descvec a at h = (ground arith, tt)
AcceptsAll-concat accepts (w ∷ words) [] word descvec a at h = a
AcceptsAll-concat accepts (w ∷ words) (d ∷ strvec) word descvec a at h =
    (a.0, AcceptsAll-concat accepts words strvec word descvec a.1 at h)

abbrev pub is_no_match : MatchType → Bool
is_no_match no_match = true
is_no_match _ = false

abbrev pub is_exact_match : MatchType → Bool
is_exact_match exact_match = true
is_exact_match _ = false

-- What a word needs at a token of a kind, for completion and for the exact reading of a file.
unfoldable pub takes_completion : Kind → Accepts
takes_completion vararg word str = true
takes_completion range word str = cmd_range_match str (some word)
takes_completion ipv6 word str = not (is_no_match (cmd_ipv6_match (some word)))
takes_completion ipv6_prefix word str = false
takes_completion ipv4 word str = not (is_no_match (cmd_ipv4_match (some word)))
takes_completion ipv4_prefix word str = not (is_no_match (cmd_ipv4_prefix_match (some word)))
takes_completion extend word str = true
takes_completion literal word str = starts_with word str

unfoldable pub takes_string : Kind → Accepts
takes_string vararg word str = true
takes_string range word str = cmd_range_match str (some word)
takes_string ipv6 word str = is_exact_match (cmd_ipv6_match (some word))
takes_string ipv6_prefix word str = false
takes_string ipv4 word str = is_exact_match (cmd_ipv4_match (some word))
takes_string ipv4_prefix word str = is_exact_match (cmd_ipv4_prefix_match (some word))
takes_string extend word str = true
takes_string literal word str = str_eq word str

unfoldable pub accepts_completion : Accepts
unfolding takes_completion
accepts_completion word str = takes_completion (kind str) word str

unfoldable pub accepts_string : Accepts
unfolding takes_string
accepts_string word str = takes_string (kind str) word str

-- One of the tokens at position `index` of the element takes the word.
abbrev pub TakesAt : {F : Type 0} → Accepts → CString → ℕ → CmdElement F → Type 0
TakesAt accepts word index e =
    (descvec : List Desc) × (get_elem? e.strvec index ≡ some descvec)
    × (accepts_any accepts word descvec ≡ true)
