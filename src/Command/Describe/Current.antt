-- ===== src/Command/Describe/Current.antt =====
-- An element with a token for which the current word may stand is filtered in by the word.
use qr_wireguard_ui.Base.{
  ℕ, ◌+◌, ◌≤◌, Bool, true, false, ◌||◌, ◌≡◌, ◌≢◌, ◌⊎◌, inl, inr, refl, sym, ap, ◌∙◌, Option, none,
  some, List, [], ◌∷◌, ◌==◌, arith, get_elem?, if◌then◌else◌, Bool-cases, Option-cases,
}
use mathlib.Core.Path.{subst}
use qr_wireguard_ui.Text.{CString, codes}
use qr_wireguard_ui.Match.{MatchType, no_match, raise_to}
use qr_wireguard_ui.Command.{
  Desc, CmdElement, cmd_vararg, cmd_range, cmd_ipv6, cmd_ipv6_prefix, cmd_ipv4, cmd_ipv4_prefix,
  cmd_option, cmd_variable,
}
use qr_wireguard_ui.Command.Spec.{AnySlot}
use qr_wireguard_ui.Command.Filter.{
  kind, raise_if, take_completion, token_by_completion, filter_descs, filter_slot, filter_slots,
  cmd_filter_by_completion,
}
use qr_wireguard_ui.Command.Execute.{CmdVector}
use qr_wireguard_ui.Command.Describe.{cmd_entry_function_desc, filter_current}
use qr_wireguard_ui.Command.Complete.Finds.{HasToken}
use qr_wireguard_ui.Command.Describe.Entry.{MayStand, MayStand-entry_desc, ne-str_eq}

abbrev IsSome : Option MatchType → Type 0
IsSome o = (m : MatchType) × (o ≡ some m)

raise_if-IsSome : (b : Bool) (t m : MatchType) → b ≡ true → IsSome (raise_if b t m)
raise_if-IsSome b t m h = rw h (raise_to t m, refl)

literal-IsSome : (b : Bool) (x : MatchType) → b ≡ true → IsSome (if b then some x else none)
literal-IsSome b x h = rw h (x, refl)

module _ (word : CString) (m : MatchType) (str : CString) where
  token-IsSome :
      cmd_entry_function_desc (some word) str ≡ true
      → cmd_ipv6_prefix str ≡ false
      → IsSome (token_by_completion word m str)
  unfolding cmd_entry_function_desc token_by_completion kind take_completion
  token-IsSome h six = elim (Bool-cases (cmd_vararg str)) [
    | inl a ↦ rw a (_, refl)
    | inr a ↦ elim (Bool-cases (cmd_range str)) [
      | inl b ↦ rw (a, b) (raise_if-IsSome _ _ m (rw (a, b) at h))
      | inr b ↦ elim (Bool-cases (cmd_ipv6 str)) [
        | inl c ↦ rw (a, b, c) (raise_if-IsSome _ _ m (rw (a, b, c) at h))
        | inr c ↦ elim (Bool-cases (cmd_ipv4 str)) [
          | inl d ↦ rw (a, b, c, six, d) (raise_if-IsSome _ _ m (rw (a, b, c, d) at h))
          | inr d ↦ elim (Bool-cases (cmd_ipv4_prefix str)) [
            | inl e ↦ rw (a, b, c, six, d, e) (raise_if-IsSome _ _ m (rw (a, b, c, d, e) at h))
            | inr e ↦ elim (Bool-cases (cmd_option str || cmd_variable str)) [
              | inl f ↦ rw (a, b, c, six, d, e, f) (_, refl)
              | inr f ↦ rw (a, b, c, six, d, e, f) (literal-IsSome _ _ (rw (a, b, c, d, e, f) at h))
            ]
          ]
        ]
      ]
    ]
  ]

module _ (word str : CString) (stands : MayStand (some word) str)
    (plain : cmd_ipv6_prefix str ≡ false) where
  counts_up :
      (ds : List Desc) (m : MatchType) (n : ℕ)
      → n ≤ (filter_descs (token_by_completion word) ds m n).1
  unfolding filter_descs
  counts_up [] m n = omega arith
  counts_up (d ∷ ds) m n = elim (Option-cases (token_by_completion word m d.cmd)) [
    | inl missed ↦ rw (missed, filter_descs) (counts_up ds m n)
    | inr (m', kept) ↦ rw (kept, filter_descs) (omega (arith, counts_up ds m' (n + 1)))
  ]

  descs_count :
      (ds : List Desc) (m : MatchType) (n : ℕ)
      → HasToken str ds
      → (filter_descs (token_by_completion word) ds m n).1 == 0 ≡ false
  unfolding filter_descs
  descs_count [] m n h = absurd h
  descs_count (d ∷ ds) m n (inl same) =
      let (m', kept) = token-IsSome word m str (MayStand-entry_desc (some word) str stands) plain in
      let here : token_by_completion word m d.cmd ≡ some m' =
        ap (token_by_completion word m) same ∙ kept in
      rw (here, filter_descs) (ground (arith, counts_up ds m' (n + 1)))
  descs_count (d ∷ ds) m n (inr later) = elim (Option-cases (token_by_completion word m d.cmd)) [
    | inl missed ↦ rw (missed, filter_descs) (descs_count ds m n later)
    | inr (m', kept) ↦ rw (kept, filter_descs) (descs_count ds m' (n + 1) later)
  ]

  module _ {F : Type 0} (index : ℕ) (e : CmdElement F) (ds : List Desc)
      (at : get_elem? e.strvec index ≡ some ds) (has : HasToken str ds) where
    slot_stays :
        (m : MatchType) → (filter_slot (token_by_completion word) index (some e) m).1 ≡ some e
    unfolding filter_slot
    slot_stays m = rw (at, filter_slot) (rw (descs_count ds m 0 has) refl)

    behind_slot :
        (slot : Option (CmdElement F)) (u : CmdVector F)
        → AnySlot (λ x. x ≡ e) u
        → AnySlot (λ x. x ≡ e) (slot ∷ u)
    behind_slot none u h = h
    behind_slot (some x) u h = inr h

    at_slot :
        (slot : Option (CmdElement F)) (u : CmdVector F)
        → slot ≡ some e
        → AnySlot (λ x. x ≡ e) (slot ∷ u)
    at_slot slot u same = subst (λ o. AnySlot (λ x. x ≡ e) (o ∷ u)) (sym same) (inl refl)

    stays_in :
        (v : CmdVector F) (m : MatchType)
        → AnySlot (λ x. x ≡ e) v
        → AnySlot (λ x. x ≡ e) (filter_slots (token_by_completion word) index v m).1
    unfolding filter_slots
    stays_in [] m here = absurd here
    stays_in (none ∷ v) m here = stays_in v m here
    stays_in (some x ∷ v) m (inl same) =
        let turn = filter_slot (token_by_completion word) index (some x) m in
        at_slot turn.1 (filter_slots (token_by_completion word) index v turn.0).1 (
          ap (λ y. (filter_slot (token_by_completion word) index (some y) m).1) same ∙ slot_stays m)
    stays_in (some x ∷ v) m (inr here) =
        let turn = filter_slot (token_by_completion word) index (some x) m in
        behind_slot turn.1 (filter_slots (token_by_completion word) index v turn.0).1
          (stays_in v turn.0 here)

-- An element with a token at the position for which what is typed may stand is left by the filter,
-- unless a word is typed and the token is that of an IPv6 prefix.
pub filter_current-MayStand :
    {F : Type 0} (src : Option CString) (index : ℕ) (v : CmdVector F) (e : CmdElement F)
    (ds : List Desc) (str : CString)
    → AnySlot (λ x. x ≡ e) v
    → get_elem? e.strvec index ≡ some ds
    → HasToken str ds
    → MayStand src str
    → (src ≡ none) ⊎ (str ≢ codes "X:X::X:X/M")
    → AnySlot (λ x. x ≡ e) (filter_current src v index)
unfolding filter_current cmd_filter_by_completion cmd_ipv6_prefix
filter_current-MayStand none index v e ds str here at has stands p = here
filter_current-MayStand (some word) index v e ds str here at has stands (inl untyped) =
    absurd (ground (arith, untyped))
filter_current-MayStand (some word) index v e ds str here at has stands (inr other) =
    stays_in word str stands (ne-str_eq str _ other) index e ds at has v no_match here
