-- ===== src/Command/Spelled/Kept.antt =====
-- is_cmd_ambiguous on an exact match keeps the elements that have the word as a keyword.
use qr_wireguard_ui.Base.{
  ℕ, ◌+◌, ◌≤◌, Bool, true, false, not, ◌≡◌, inl, inr, refl, ap, Option, none, some, List, [], ◌∷◌,
  ◌==◌, arith, get_elem?, if◌then◌else◌, Bool-cases,
}
use qr_wireguard_ui.Text.{CString}
use qr_wireguard_ui.Match.{exact_match}
use qr_wireguard_ui.Command.{Desc, CmdElement}
use qr_wireguard_ui.Command.Ambiguous.{
  skip, hit, token_turn, descs_turn, slot_turn, slots_turn, went_on,
}
use qr_wireguard_ui.Command.Spelled.{is_spelled, any_spelled, spelled_at}

module _ {F : Type 0} where
  abbrev pub keep : (CmdElement F → Bool) → Option (CmdElement F) → Option (CmdElement F)
  keep p none = none
  keep p (some e) = if p e then some e else none

  -- The vector with the elements that pass a test.
  abbrev pub keep_all :
      (CmdElement F → Bool) → List (Option (CmdElement F)) → List (Option (CmdElement F))
  keep_all p [] = []
  keep_all p (slot ∷ v) = keep p slot ∷ keep_all p v

  -- The position is inside the element.
  abbrev pub IsLong : ℕ → CmdElement F → Type 0
  IsLong index e = (ds : List Desc) × (get_elem? e.strvec index ≡ some ds)

module _ {F : Type 0} where
  abbrev pub IsLongSlot : ℕ → Option (CmdElement F) → Type 0
  IsLongSlot index none = Unit
  IsLongSlot index (some e) = IsLong index e

  abbrev pub AllLong : ℕ → List (Option (CmdElement F)) → Type 0
  AllLong index [] = Unit
  AllLong index (slot ∷ v) = IsLongSlot index slot × AllLong index v

token_ambiguous :
    (word str : CString)
    → token_turn exact_match word none str ≡ (if is_spelled word str then hit none else skip)
unfolding token_turn is_spelled
token_ambiguous word str = refl

abbrev Counted : CString → List Desc → ℕ → Type 0
Counted word ds n =
    (match : ℕ) × (descs_turn exact_match word ds none n ≡ went_on (none, match))
    × (n ≤ match)
    × ((match == n) ≡ not (any_spelled word ds))

descs_ambiguous : (word : CString) (ds : List Desc) (n : ℕ) → Counted word ds n
unfolding descs_turn any_spelled
descs_ambiguous word [] n = (n, refl, omega arith, ground arith)
descs_ambiguous word (d ∷ ds) n = elim (Bool-cases (is_spelled word d.cmd)) [
  | inl here ↦
      let (match, turns, more, _) = descs_ambiguous word ds (n + 1) in
      (
        match,
        rw (token_ambiguous word d.cmd, descs_turn) (rw here turns),
        omega (arith, more),
        rw here (ground (arith, more)),
      )
  | inr not_here ↦
      let (match, turns, more, tells) = descs_ambiguous word ds n in
      (
        match,
        rw (token_ambiguous word d.cmd, descs_turn) (rw not_here turns),
        more,
        rw not_here tells,
      )
]

module _ (word : CString) {F : Type 0} (index : ℕ) where
  slot_ambiguous :
      (slot : Option (CmdElement F))
      → IsLongSlot index slot
      → slot_turn exact_match word index slot none
        ≡ some (went_on (none, keep (λ e. spelled_at word index e) slot))
  unfolding slot_turn spelled_at
  slot_ambiguous none l = refl
  slot_ambiguous (some e) (ds, here) =
      let (match, turns, more, tells) = descs_ambiguous word ds 0 in
      rw (here, slot_turn, spelled_at, turns)
        (ap (λ s. some (went_on (none, s))) (tested (match == 0) (any_spelled word ds) e tells))
    where
      tested :
          (b c : Bool) (e : CmdElement F)
          → b ≡ not c
          → (if b then none else some e) ≡ (if c then some e else none)
      tested b true e h = rw h refl
      tested b false e h = rw h refl

  pub slots_ambiguous :
      (v : List (Option (CmdElement F)))
      → AllLong index v
      → slots_turn exact_match word index v none
        ≡ some (went_on (keep_all (λ e. spelled_at word index e) v))
  unfolding slots_turn
  slots_ambiguous [] l = refl
  slots_ambiguous (slot ∷ v) l =
      rw (slot_ambiguous slot l.0, slots_turn, slots_ambiguous v l.1) refl
