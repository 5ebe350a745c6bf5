-- ===== src/Command/Complete/Sound.antt =====
-- What is offered for completion: keywords of commands that take the words in front, once each.
use qr_wireguard_ui.Base.{
  ℕ, ◌+◌, ◌≡◌, inl, inr, Option, none, some, List, [], ◌∷◌, ◌++◌, ◌==◌, arith, length,
  length-append, get_elem?, append_assoc, append-nil, Bool-cases,
}
use mathlib.Core.Path.{subst}
use qr_wireguard_ui.Text.{CString}
use qr_wireguard_ui.Match.{MatchType, no_match}
use qr_wireguard_ui.Command.{Desc, CmdElement}
use qr_wireguard_ui.Command.Spec.{
  AcceptsAll, Slots, Slots-map, AnySlot, accepts_completion, TakesAt,
}
use qr_wireguard_ui.Command.Filter.{token_by_completion, cmd_filter_by_completion}
use qr_wireguard_ui.Command.Filter.Sound.{completion_laws}
use qr_wireguard_ui.Command.Filter.Loop.{filter_slots-left}
use qr_wireguard_ui.Command.Ambiguous.{Ended, returned, went_on, slot_turn, is_cmd_ambiguous}
use qr_wireguard_ui.Command.Ambiguous.Sound.{
  OnSlot, Within, SlotWithin, slot-Within, Slots-head, is_cmd_ambiguous-Within,
}
use qr_wireguard_ui.Command.Execute.{CmdVector}
use qr_wireguard_ui.Command.Execute.Safe.{Kept-concat}
use qr_wireguard_ui.Command.Complete.{
  slots_until, after_word, Before, out_of_reach, is_ambiguous, left, filter_before,
}

-- How the loop over the words in front ends.
abbrev pub IsLeft : {F : Type 0} → (CmdElement F → Type 0) → Before F → Type 0
IsLeft P out_of_reach = ⊥
IsLeft P is_ambiguous = Unit
IsLeft P (left v) = Slots P v

module _ {F : Type 0} (P : CmdElement F → Type 0) (index : ℕ)
    (reach : (e : CmdElement F) → P e → (ds : List Desc) × (get_elem? e.strvec index ≡ some ds))
    (type : MatchType) (command : CString) where
  OnSlot-cons :
      (slot : Option (CmdElement F)) (v : CmdVector F)
      → OnSlot P index slot
      → Slots P v
      → Slots P (slot ∷ v)
  OnSlot-cons none v p s = s
  OnSlot-cons (some e) v p s = (p, s)

  until_turn :
      (slot : Option (CmdElement F)) (v : CmdVector F)
      (r : Option (Ended (Option CString × Option (CmdElement F))))
      (tails : Option CString → CmdVector F)
      → SlotWithin P index r
      → OnSlot P index slot
      → Slots P v
      → ((matched : Option CString) → Slots P (tails matched))
      → Slots P (elim r [
        | none ↦ slot ∷ v
        | some (returned ret) ↦ slot ∷ v
        | some (went_on (matched', slot')) ↦ slot' ∷ tails matched'
      ])
  until_turn slot v none tails w p s k = OnSlot-cons slot v p s
  until_turn slot v (some (returned ret)) tails w p s k = OnSlot-cons slot v p s
  until_turn slot v (some (went_on (matched', slot'))) tails w p s k =
      OnSlot-cons slot' (tails matched') w (k matched')

  slots_until-Slots :
      (v : CmdVector F) (matched : Option CString)
      → Slots P v
      → Slots P (slots_until type command index v matched)
  unfolding slots_until
  slots_until-Slots [] matched s = s
  slots_until-Slots (slot ∷ v) matched s =
      let (p, rest) = Slots-head P index reach type command slot v s in
      until_turn slot v (slot_turn type command index slot matched)
        (slots_until type command index v) (slot-Within P index reach type command slot matched p) p
        rest (λ matched'. slots_until-Slots v matched' rest)

  after_word-IsLeft :
      (v : CmdVector F) (r : Option (Ended (CmdVector F)))
      → Slots P v
      → Within P index r
      → IsLeft P (after_word type command index v r)
  after_word-IsLeft v none s w = w
  after_word-IsLeft v (some (went_on v')) s w = w
  after_word-IsLeft v (some (returned ret)) s w = elim (Bool-cases (ret == 1)) [
    | inl one ↦ rw one tt
    | inr two ↦ rw two (slots_until-Slots v none s)
  ]

module _ {F : Type 0} (v0 : CmdVector F) where
  -- An element of the vector whose first positions take the words.
  abbrev pub Takes : List CString → CmdElement F → Type 0
  Takes words e = AnySlot (λ x. x ≡ e) v0 × AcceptsAll accepts_completion words e.strvec

  next_word :
      (P Q : CmdElement F → Type 0) (words : List CString) (index : ℕ) (r : Before F)
      → IsLeft P r
      → ((v : CmdVector F) → Slots P v → IsLeft Q (filter_before words index v))
      → IsLeft Q (elim r [
        | out_of_reach ↦ out_of_reach
        | is_ambiguous ↦ is_ambiguous
        | left v'' ↦ filter_before words index v''
      ])
  next_word P Q words index out_of_reach l k = l
  next_word P Q words index is_ambiguous l k = tt
  next_word P Q words index (left v) l k = k v l

  pub filter_before-IsLeft :
      (words done : List CString) (v : CmdVector F) (index : ℕ)
      → index ≡ length done
      → Slots (Takes done) v
      → IsLeft (Takes (done ++ words)) (filter_before words index v)
  unfolding filter_before cmd_filter_by_completion
  filter_before-IsLeft [] done v index at s = rw append-nil s
  filter_before-IsLeft (command ∷ words) done v index at s =
      let match' = (cmd_filter_by_completion command v index).0 in
      let v' = (cmd_filter_by_completion command v index).1 in
      let Found : CmdElement F → Type 0 =
        λ e. Takes done e × (TakesAt accepts_completion command index e) in
      let read : Slots Found v' =
        filter_slots-left token_by_completion accepts_completion completion_laws command
          (Takes done) index v no_match s in
      let reach : (e : CmdElement F)
          → Found e
          → (ds : List Desc) × (get_elem? e.strvec index ≡ some ds) =
        λ e k. (k.1.0, k.1.1) in
      let kept =
        after_word-IsLeft Found index reach match' command v'
          (is_cmd_ambiguous command v' index match') read
          (is_cmd_ambiguous-Within Found index reach match' command v' read) in
      next_word Found (Takes (done ++ command ∷ words)) words (index + 1) _ kept (λ u l.
        subst (λ ws. IsLeft (Takes ws) (filter_before words (index + 1) u))
          (append_assoc done (command ∷ []) words)
          (filter_before-IsLeft words (done ++ (command ∷ [])) u (index + 1)
            (omega (arith, length-append done (command ∷ [])))
            (Slots-map Found (Takes (done ++ (command ∷ [])))
              (λ e k.
                Kept-concat token_by_completion accepts_completion completion_laws
                  (λ x. AnySlot (λ y. y ≡ x) v0) [] command words done index e at k)
              u l)))
