-- ===== src/Command/Filter/Loop.antt =====
-- The loop of the filters: what is left in the vector was there, and takes the word at the
-- position; and a final `vararg_match` comes from an element that is left.
use qr_wireguard_ui.Base.{
  ℕ, ◌+◌, ◌≤◌, ◌<◌, Bool, true, false, ◌≡◌, ◌⊎◌, inl, inr, refl, Option, none, some, List, [], ◌∷◌,
  arith, get_elem?, if◌then◌else◌, ◌==◌, Option-cases, sym,
}
use mathlib.Core.Path.{subst}
use mathlib.Core.Option.{some-injective}
use qr_wireguard_ui.Text.{CString}
use qr_wireguard_ui.Match.{MatchType, rank}
use qr_wireguard_ui.Command.{Desc, CmdElement}
use qr_wireguard_ui.Command.Spec.{
  Accepts, accepts_any, has_vararg, Slots, AnySlot, VarargAt, TakesAt,
}
use qr_wireguard_ui.Command.Filter.{filter_descs, filter_slot, filter_slots}
use qr_wireguard_ui.Command.Filter.Sound.{TokenLaws}

module _ (token : CString → MatchType → CString → Option MatchType) (accepts : Accepts)
    (laws : TokenLaws token accepts) (word : CString) where
  descs_grow : (ds : List Desc) (m : MatchType) (n : ℕ) → n ≤ (filter_descs (token word) ds m n).1
  unfolding filter_descs
  descs_grow [] m n = omega arith
  descs_grow (d ∷ ds) m n = elim (Option-cases (token word m d.cmd)) [
    | inl skip ↦ ground (arith, descs_grow ds m n, skip)
    | inr (m', hit) ↦ ground (arith, descs_grow ds m' (n + 1), hit)
  ]

  descs_take :
      (ds : List Desc) (m : MatchType) (n : ℕ)
      → n < (filter_descs (token word) ds m n).1
      → accepts_any accepts word ds ≡ true
  unfolding filter_descs accepts_any
  descs_take [] m n h = absurd (omega arith)
  descs_take (d ∷ ds) m n h = elim (Option-cases (token word m d.cmd)) [
    | inl skip ↦ ground (arith, descs_take ds m n, skip)
    | inr (m', hit) ↦ ground (arith, laws.takes word m d.cmd m' hit)
  ]

  descs_vararg :
      (ds : List Desc) (m : MatchType) (n : ℕ)
      → rank (filter_descs (token word) ds m n).0 ≡ 7
      → (rank m ≡ 7) ⊎ ((has_vararg ds ≡ true) × (n < (filter_descs (token word) ds m n).1))
  unfolding filter_descs has_vararg
  descs_vararg [] m n h = inl h
  descs_vararg (d ∷ ds) m n h = elim (Option-cases (token word m d.cmd)) [
    | inl skip ↦ ground (arith, descs_vararg ds m n, skip)
    | inr (m', hit) ↦ ground (
      arith,
      descs_vararg ds m' (n + 1),
      descs_grow ds m' (n + 1),
      hit,
      laws.vararg word m d.cmd m' hit,
    )
  ]

  module _ {F : Type 0} (P : CmdElement F → Type 0) (index : ℕ) where
    abbrev Left : Option (CmdElement F) → Type 0
    Left none = Unit
    Left (some e) = P e × (TakesAt accepts word index e)

    Left-if :
        (e : CmdElement F) (ds : List Desc) (m : MatchType) (none_left : Bool)
        → P e
        → get_elem? e.strvec index ≡ some ds
        → ((filter_descs (token word) ds m 0).1 == 0) ≡ none_left
        → Left (if none_left then none else some e)
    Left-if e ds m true p at z = tt
    Left-if e ds m false p at z = (p, (ds, at, descs_take ds m 0 (ground arith)))

    slot-Left :
        (e : CmdElement F) (m : MatchType) (at_index : Option (List Desc))
        → P e
        → get_elem? e.strvec index ≡ at_index
        → Left (filter_slot (token word) index (some e) m).1
    unfolding filter_slot
    slot-Left e m none p at = rw (at, filter_slot) tt
    slot-Left e m (some ds) p at = rw (at, filter_slot) (Left-if e ds m _ p at refl)

    pub filter_slots-left :
        (v : List (Option (CmdElement F))) (m : MatchType)
        → Slots P v
        → Slots (λ e. P e × (TakesAt accepts word index e)) (filter_slots (token word) index v m).1
    unfolding filter_slots
    filter_slots-left [] m s = tt
    filter_slots-left (none ∷ v) m s = filter_slots-left v m s
    filter_slots-left (some e ∷ v) m s =
        Left-cons (filter_slot (token word) index (some e) m).1 _ (slot-Left e m _ s.0 refl)
          (filter_slots-left v (filter_slot (token word) index (some e) m).0 s.1)
      where
        Left-cons :
            (slot : Option (CmdElement F)) (r : List (Option (CmdElement F)))
            → Left slot
            → Slots (λ e. P e × (TakesAt accepts word index e)) r
            → Slots (λ e. P e × (TakesAt accepts word index e)) (slot ∷ r)
        Left-cons none r l k = k
        Left-cons (some x) r l k = (l, k)

  module _ {F : Type 0} (index : ℕ) where
    slot_vararg :
        (e : CmdElement F) (m : MatchType) (at_index : Option (List Desc))
        → get_elem? e.strvec index ≡ at_index
        → rank (filter_slot (token word) index (some e) m).0 ≡ 7
        → (rank m ≡ 7)
          ⊎ ((filter_slot (token word) index (some e) m).1 ≡ some e) × (VarargAt index e)
    unfolding filter_slot
    slot_vararg e m none at h = inl (rw (at, filter_slot) at h)
    slot_vararg e m (some ds) at h = elim (descs_vararg ds m 0 (rw (at, filter_slot) at h)) [
      | inl before ↦ inl before
      | inr (vararg, taken) ↦ inr (rw (at, filter_slot) (ground arith), (ds, at, vararg))
    ]

    pub filter_slots-vararg :
        (v : List (Option (CmdElement F))) (m : MatchType)
        → rank (filter_slots (token word) index v m).0 ≡ 7
        → (rank m ≡ 7) ⊎ AnySlot (VarargAt index) (filter_slots (token word) index v m).1
    unfolding filter_slots
    filter_slots-vararg [] m h = inl h
    filter_slots-vararg (none ∷ v) m h = filter_slots-vararg v m h
    filter_slots-vararg (some e ∷ v) m h =
        elim (filter_slots-vararg v (filter_slot (token word) index (some e) m).0 h) [
          | inl before ↦ elim (slot_vararg e m _ refl before) [
            | inl first ↦ inl first
            | inr (kept, vararg) ↦ inr (Any-here _ e _ kept vararg)
          ]
          | inr later ↦ inr (Any-later (filter_slot (token word) index (some e) m).1 _ later)
        ]
      where
        Any-here :
            (slot : Option (CmdElement F)) (x : CmdElement F) (r : List (Option (CmdElement F)))
            → slot ≡ some x
            → VarargAt index x
            → AnySlot (VarargAt index) (slot ∷ r)
        Any-here none x r e k = absurd (ground arith)
        Any-here (some y) x r e k = inl (subst (VarargAt index) (sym (some-injective y x e)) k)

        Any-later :
            (slot : Option (CmdElement F)) (r : List (Option (CmdElement F)))
            → AnySlot (VarargAt index) r
            → AnySlot (VarargAt index) (slot ∷ r)
        Any-later none r k = k
        Any-later (some y) r k = inr k
