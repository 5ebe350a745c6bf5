-- ===== src/Command/Ambiguous/Sound.antt =====
-- `is_cmd_ambiguous` stays inside the elements' vectors, and only takes elements out.
use qr_wireguard_ui.Base.{
  ℕ, Bool, true, false, ◌≡◌, Option, none, some, List, [], ◌∷◌, get_elem?, if◌then◌else◌, ◌==◌,
}
use qr_wireguard_ui.Text.{CString}
use qr_wireguard_ui.Match.{MatchType}
use qr_wireguard_ui.Command.{Desc, CmdElement}
use qr_wireguard_ui.Command.Spec.{Slots}
use qr_wireguard_ui.Command.Ambiguous.{
  Ended, returned, went_on, descs_turn, slot_turn, cons_slot, slots_turn, is_cmd_ambiguous,
}

module _ {F : Type 0} (P : CmdElement F → Type 0) (index : ℕ) where
  abbrev pub OnSlot : Option (CmdElement F) → Type 0
  OnSlot none = Unit
  OnSlot (some e) = P e

  -- How a call ends: not out of bounds, and with elements that satisfy `P`.
  abbrev pub Within : Option (Ended (List (Option (CmdElement F)))) → Type 0
  Within none = ⊥
  Within (some (returned ret)) = Unit
  Within (some (went_on v)) = Slots P v

  abbrev pub SlotWithin : Option (Ended (Option CString × Option (CmdElement F))) → Type 0
  SlotWithin none = ⊥
  SlotWithin (some (returned ret)) = Unit
  SlotWithin (some (went_on r)) = OnSlot r.1

  -- The position exists in every element that satisfies `P`.
  module _
      (reach : (e : CmdElement F) → P e → (ds : List Desc) × (get_elem? e.strvec index ≡ some ds))
      (type : MatchType) (command : CString) where
    OnSlot-if : (e : CmdElement F) (b : Bool) → P e → OnSlot (if b then none else some e)
    OnSlot-if e true p = tt
    OnSlot-if e false p = p

    ended :
        (e : CmdElement F) (r : Ended (Option CString × ℕ))
        → P e
        → SlotWithin (
            some (elim r [
              | returned ret ↦ returned ret
              | went_on (matched', match) ↦ went_on (matched', if match == 0 then none else some e)
            ]))
    ended e (returned ret) p = tt
    ended e (went_on (matched', match)) p = OnSlot-if e (match == 0) p

    pub slot-Within :
        (slot : Option (CmdElement F)) (matched : Option CString)
        → OnSlot slot
        → SlotWithin (slot_turn type command index slot matched)
    unfolding slot_turn
    slot-Within none matched p = tt
    slot-Within (some e) matched p =
        let (ds, at) = reach e p in
        rw (at, slot_turn) (ended e (descs_turn type command ds matched 0) p)

    cons-Within :
        (slot : Option (CmdElement F)) (r : Option (Ended (List (Option (CmdElement F)))))
        → OnSlot slot
        → Within r
        → Within (cons_slot slot r)
    cons-Within slot none p w = w
    cons-Within slot (some (returned ret)) p w = tt
    cons-Within none (some (went_on v)) p w = w
    cons-Within (some e) (some (went_on v)) p w = (p, w)

    pub Slots-head :
        (slot : Option (CmdElement F)) (v : List (Option (CmdElement F)))
        → Slots P (slot ∷ v)
        → OnSlot slot × Slots P v
    Slots-head none v s = (tt, s)
    Slots-head (some e) v s = s

    after_slot :
        (r : Option (Ended (Option CString × Option (CmdElement F))))
        (tails : Option CString → Option (Ended (List (Option (CmdElement F)))))
        → SlotWithin r
        → ((matched : Option CString) → Within (tails matched))
        → Within (elim r [
          | none ↦ none
          | some (returned ret) ↦ some (returned ret)
          | some (went_on (matched', slot')) ↦ cons_slot slot' (tails matched')
        ])
    after_slot none tails w k = w
    after_slot (some (returned ret)) tails w k = tt
    after_slot (some (went_on (matched', slot'))) tails w k =
        cons-Within slot' (tails matched') w (k matched')

    Slots-Within :
        (v : List (Option (CmdElement F))) (matched : Option CString)
        → Slots P v
        → Within (slots_turn type command index v matched)
    unfolding slots_turn
    Slots-Within [] matched s = tt
    Slots-Within (slot ∷ v) matched s =
        let (p, rest) = Slots-head slot v s in
        after_slot (slot_turn type command index slot matched) (slots_turn type command index v)
          (slot-Within slot matched p) (λ matched'. Slots-Within v matched' rest)

    pub is_cmd_ambiguous-Within :
        (v : List (Option (CmdElement F)))
        → Slots P v
        → Within (is_cmd_ambiguous command v index type)
    unfolding is_cmd_ambiguous
    is_cmd_ambiguous-Within v s = Slots-Within v none s
