-- ===== src/Command/Spelled/Filtered.antt =====
-- One word of a spelled line, through the loops of the filter: the filter finds an exact match.
use qr_wireguard_ui.Base.{
  ℕ, ◌+◌, ◌≤◌, Bool, true, false, ◌≡◌, inl, inr, refl, ap, ◌∙◌, Option, none, some, List, [], ◌∷◌,
  ◌==◌, arith, get_elem?, if◌then◌else◌, Bool-cases, Option-cases,
}
use mathlib.Core.Path.{ap₂}
use qr_wireguard_ui.Text.{CString}
use qr_wireguard_ui.Match.{MatchType, exact_match, no_match}
use qr_wireguard_ui.Command.{Desc, CmdElement, cmd_vararg}
use qr_wireguard_ui.Command.Spec.{AnySlot}
use qr_wireguard_ui.Command.Filter.{filter_descs, filter_slot, filter_slots}
use qr_wireguard_ui.Command.Ambiguous.{is_cmd_ambiguous, went_on}
use qr_wireguard_ui.Command.Spelled.{is_spelled, any_spelled, spelled_at, SpelledLaws}
use qr_wireguard_ui.Command.Spelled.Kept.{
  keep, keep_all, IsLong, IsLongSlot, AllLong, slots_ambiguous,
}

module _ (token : CString → MatchType → CString → Option MatchType) (laws : SpelledLaws token)
    (word : CString) (plain : cmd_vararg word ≡ false) where
  -- From an exact match the loop over the tokens keeps the match.
  descs_stay :
      (ds : List Desc) (n : ℕ)
      → ((filter_descs (token word) ds exact_match n).0 ≡ exact_match)
        × (n ≤ (filter_descs (token word) ds exact_match n).1)
  unfolding filter_descs
  descs_stay [] n = (refl, omega arith)
  descs_stay (d ∷ ds) n = elim (laws.stays word d.cmd) [
    | inl missed ↦ rw (missed, filter_descs) (descs_stay ds n)
    | inr kept ↦
        rw (kept, filter_descs)
          ((descs_stay ds (n + 1)).0, omega (arith, (descs_stay ds (n + 1)).1))
  ]

  descs_exact :
      (ds : List Desc) (m : MatchType) (n : ℕ)
      → any_spelled word ds ≡ true
      → ((filter_descs (token word) ds m n).0 ≡ exact_match)
        × ((filter_descs (token word) ds m n).1 == 0) ≡ false
  unfolding filter_descs any_spelled
  descs_exact [] m n h = absurd (ground arith)
  descs_exact (d ∷ ds) m n h = elim (Bool-cases (is_spelled word d.cmd)) [
    | inl here ↦
        let (same, more) = descs_stay ds (n + 1) in
        rw (laws.exact word m d.cmd plain here, filter_descs) (same, ground (arith, more))
    | inr later ↦
        let there : any_spelled word ds ≡ true = ground arith in
        elim (Option-cases (token word m d.cmd)) [
          | inl missed ↦ rw (missed, filter_descs) (descs_exact ds m n there)
          | inr (m', kept) ↦ rw (kept, filter_descs) (descs_exact ds m' (n + 1) there)
        ]
  ]

module _ (token : CString → MatchType → CString → Option MatchType) (laws : SpelledLaws token)
    (word : CString) (plain : cmd_vararg word ≡ false) {F : Type 0} (index : ℕ) where
  abbrev lit : CmdElement F → Bool
  lit e = spelled_at word index e

  slot_stays :
      (slot : Option (CmdElement F))
      → (filter_slot (token word) index slot exact_match).0 ≡ exact_match
  unfolding filter_slot
  slot_stays none = refl
  slot_stays (some e) = elim (Option-cases (get_elem? e.strvec index)) [
    | inl gone ↦ rw (gone, filter_slot) refl
    | inr (ds, here) ↦ rw (here, filter_slot) (descs_stay token laws word plain ds 0).0
  ]

  slot_exact :
      (e : CmdElement F) (m : MatchType)
      → lit e ≡ true
      → (filter_slot (token word) index (some e) m).0 ≡ exact_match
  unfolding filter_slot spelled_at
  slot_exact e m h = elim (Option-cases (get_elem? e.strvec index)) [
    | inl gone ↦ absurd (ground (arith, rw (gone, spelled_at) at h))
    | inr (ds, here) ↦
        rw (here, filter_slot)
          (descs_exact token laws word plain ds m 0 (rw (here, spelled_at) at h)).0
  ]

  dropped-keep :
      (e : CmdElement F) (b : Bool)
      → (lit e ≡ true → b ≡ false)
      → keep lit (if b then none else some e) ≡ keep lit (some e)
  dropped-keep e false h = refl
  dropped-keep e true h = elim (Bool-cases (lit e)) [
    | inl has ↦ absurd (ground (arith, h has))
    | inr lacks ↦ rw lacks refl
  ]

  slot-keep :
      (slot : Option (CmdElement F)) (m : MatchType)
      → keep lit (filter_slot (token word) index slot m).1 ≡ keep lit slot
  unfolding filter_slot spelled_at
  slot-keep none m = refl
  slot-keep (some e) m = elim (Option-cases (get_elem? e.strvec index)) [
    | inl gone ↦ rw (gone, filter_slot, spelled_at) refl
    | inr (ds, here) ↦
        rw (here, filter_slot)
          (dropped-keep e ((filter_descs (token word) ds m 0).1 == 0)
            (λ has. (descs_exact token laws word plain ds m 0 (rw (here, spelled_at) at has)).1))
  ]

  some-IsLong :
      (e : CmdElement F) (b : Bool) → IsLong index e → IsLongSlot index (if b then none else some e)
  some-IsLong e true l = tt
  some-IsLong e false l = l

  slot-IsLong :
      (slot : Option (CmdElement F)) (m : MatchType)
      → IsLongSlot index (filter_slot (token word) index slot m).1
  unfolding filter_slot
  slot-IsLong none m = tt
  slot-IsLong (some e) m = elim (Option-cases (get_elem? e.strvec index)) [
    | inl gone ↦ rw (gone, filter_slot) tt
    | inr (ds, here) ↦
        rw (here, filter_slot)
          (some-IsLong e ((filter_descs (token word) ds m 0).1 == 0) (ds, here))
  ]

  slots_stay :
      (v : List (Option (CmdElement F)))
      → (filter_slots (token word) index v exact_match).0 ≡ exact_match
  unfolding filter_slots
  slots_stay [] = refl
  slots_stay (slot ∷ v) =
      ap (λ m. (filter_slots (token word) index v m).0) (slot_stays slot) ∙ slots_stay v

  slots_exact :
      (v : List (Option (CmdElement F))) (m : MatchType)
      → AnySlot (λ e. lit e ≡ true) v
      → (filter_slots (token word) index v m).0 ≡ exact_match
  unfolding filter_slots
  slots_exact [] m h = absurd h
  slots_exact (none ∷ v) m h = slots_exact v m h
  slots_exact (some e ∷ v) m (inl h) =
      ap (λ x. (filter_slots (token word) index v x).0) (slot_exact e m h) ∙ slots_stay v
  slots_exact (some e ∷ v) m (inr h) = slots_exact v (filter_slot (token word) index (some e) m).0 h

  slots-keep_all :
      (v : List (Option (CmdElement F))) (m : MatchType)
      → keep_all lit (filter_slots (token word) index v m).1 ≡ keep_all lit v
  unfolding filter_slots
  slots-keep_all [] m = refl
  slots-keep_all (slot ∷ v) m =
      ap₂ ◌∷◌ (slot-keep slot m) (slots-keep_all v (filter_slot (token word) index slot m).0)

  slots-AllLong :
      (v : List (Option (CmdElement F))) (m : MatchType)
      → AllLong index (filter_slots (token word) index v m).1
  unfolding filter_slots
  slots-AllLong [] m = tt
  slots-AllLong (slot ∷ v) m =
      (slot-IsLong slot m, slots-AllLong v (filter_slot (token word) index slot m).0)

-- One word that some element has as a keyword at its position: the filter and the ambiguity test
-- together leave exactly the elements that have it there.
module _ (token : CString → MatchType → CString → Option MatchType) (laws : SpelledLaws token)
    (word : CString) (plain : cmd_vararg word ≡ false) {F : Type 0} (index : ℕ)
    (v : List (Option (CmdElement F)))
    (some_spelled : AnySlot (λ e. spelled_at word index e ≡ true) v) where
  pub filtered-exact : (filter_slots (token word) index v no_match).0 ≡ exact_match
  filtered-exact = slots_exact token laws word plain index v no_match some_spelled

  pub filtered-keep_all :
      is_cmd_ambiguous word (filter_slots (token word) index v no_match).1 index exact_match
      ≡ some (went_on (keep_all (λ e. spelled_at word index e) v))
  unfolding is_cmd_ambiguous
  filtered-keep_all =
      slots_ambiguous word index (filter_slots (token word) index v no_match).1
        (slots-AllLong token laws word plain index v no_match)
      ∙ ap (λ u. some (went_on u)) (slots-keep_all token laws word plain index v no_match)
