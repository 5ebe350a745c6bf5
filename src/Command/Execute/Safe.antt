-- ===== src/Command/Execute/Safe.antt =====
-- The loop over the words: it stays inside the elements' vectors, and what it leaves takes every
-- word that it has read.
use qr_wireguard_ui.Base.{
  ℕ, suc, ◌+◌, Bool, true, false, ◌≡◌, ◌⊎◌, inl, inr, refl, Option, none, some, List, [], ◌∷◌, ◌++◌,
  arith, if◌then◌else◌, ◌==◌, Bool-cases, ◌∙◌, sym, length, length-append, append_assoc,
}
use qr_wireguard_ui.Text.{CString}
use qr_wireguard_ui.Match.{MatchType, no_match, rank}
use qr_wireguard_ui.Command.{CmdElement, cmd_err_ambiguous, cmd_err_no_match}
use qr_wireguard_ui.Command.Spec.{
  Accepts, AcceptsAll, AcceptsAll-concat, Slots, Slots-map, AnySlot, VarargAt, TakesAt,
}
use qr_wireguard_ui.Command.Filter.{filter_slots}
use qr_wireguard_ui.Command.Filter.Sound.{TokenLaws}
use qr_wireguard_ui.Command.Filter.Loop.{filter_slots-left, filter_slots-vararg}
use qr_wireguard_ui.Command.Ambiguous.{Ended, returned, went_on}
use qr_wireguard_ui.Command.Ambiguous.Sound.{Within, is_cmd_ambiguous-Within}
use qr_wireguard_ui.Command.Execute.{
  CmdVector, Filtered, out_of_bounds, stops, filtered, FilterBy, filter_words, is_vararg,
}

module _ (token : CString → MatchType → CString → Option MatchType) (accepts : Accepts)
    (laws : TokenLaws token accepts) {F : Type 0} (P : CmdElement F → Type 0)
    (words : List CString) where
  abbrev pub filter : FilterBy F
  filter command v index = filter_slots (token command) index v no_match

  abbrev pub Kept : List CString → CmdElement F → Type 0
  Kept done e = P e × AcceptsAll accepts done e.strvec

  -- The words read are `done`: all of them, or up to a variable argument list that an element of
  -- the vector has at the last of them.
  abbrev pub Reached : List CString → List CString → CmdVector F → ℕ → MatchType → Type 0
  Reached done rest v index match =
      (rest ≡ []) × (is_vararg match ≡ false) × (index ≡ length done)
      ⊎ (is_vararg match ≡ true) × (suc index ≡ length done) × AnySlot (VarargAt index) v

  abbrev pub IsGood : Filtered F → Type 0
  IsGood out_of_bounds = ⊥
  IsGood (stops code) = (code ≡ cmd_err_ambiguous) ⊎ (code ≡ cmd_err_no_match)
  IsGood (filtered v index match) =
      (done rest : List CString) × (words ≡ done ++ rest)
      × (Slots (Kept done) v)
      × (Reached done rest v index match)

  module _ (command : CString) (ws done : List CString) where
    abbrev pub Read : ℕ → CmdElement F → Type 0
    Read index e = Kept done e × (TakesAt accepts command index e)

    pub Kept-concat :
        (index : ℕ) (e : CmdElement F)
        → index ≡ length done
        → Read index e
        → Kept (done ++ (command ∷ [])) e
    Kept-concat index e at (kept, (ds, here, takes)) =
        (kept.0, AcceptsAll-concat accepts done e.strvec command ds kept.1 (rw at at here) takes)

    after_word :
        (index : ℕ) (match' : MatchType) (r : Option (Ended (CmdVector F)))
        → Within (Read index) index r
        → ((v : CmdVector F)
            → Slots (Read index) v
            → IsGood (filter_words filter ws v (index + 1) match'))
        → IsGood (elim r [
          | none ↦ out_of_bounds
          | some (returned ret) ↦ stops (if ret == 1 then cmd_err_ambiguous else cmd_err_no_match)
          | some (went_on v'') ↦ filter_words filter ws v'' (index + 1) match'
        ])
    after_word index match' none w k = w
    after_word index match' (some (returned ret)) w k = if_code (ret == 1)
      where
        if_code :
            (b : Bool)
            → ((if b then cmd_err_ambiguous else cmd_err_no_match) ≡ cmd_err_ambiguous)
              ⊎ ((if b then cmd_err_ambiguous else cmd_err_no_match) ≡ cmd_err_no_match)
        if_code true = inl refl
        if_code false = inr refl
    after_word index match' (some (went_on v)) w k = k v w

  vararg_left :
      (command : CString) (v : CmdVector F) (index : ℕ)
      → is_vararg (filter command v index).0 ≡ true
      → AnySlot (VarargAt index) (filter command v index).1
  unfolding rank
  vararg_left command v index h =
      elim (filter_slots-vararg token accepts laws command index v no_match (ground arith)) [
        | inl initial ↦ absurd (omega arith)
        | inr left ↦ left
      ]

  pub filter_words-IsGood :
      (ws done : List CString) (v : CmdVector F) (index : ℕ) (match : MatchType)
      → words ≡ done ++ ws
      → index ≡ length done
      → is_vararg match ≡ false
      → Slots (Kept done) v
      → IsGood (filter_words filter ws v index match)
  unfolding filter_words
  filter_words-IsGood [] done v index match split at plain s =
      (done, [], split, s, inl (refl, plain, at))
  filter_words-IsGood (command ∷ ws) done v index match split at plain s =
      let match' = (filter command v index).0 in
      let v' = (filter command v index).1 in
      let read = filter_slots-left token accepts laws command (Kept done) index v no_match s in
      let next = done ++ (command ∷ []) in
      let split' : words ≡ next ++ ws = split ∙ sym (append_assoc done (command ∷ []) ws) in
      let at' : index + 1 ≡ length next = omega (arith, length-append done (command ∷ [])) in
      let kept = λ (u : CmdVector F) (r : Slots (Read command ws done index) u).
        Slots-map (Read command ws done index) (Kept next)
          (λ e k. Kept-concat command ws done index e at k) u r in
      elim (Bool-cases (is_vararg match')) [
        | inl vararg ↦ rw vararg (
          next,
          ws,
          split',
          kept v' read,
          inr (vararg, omega arith, vararg_left command v index vararg),
        )
        | inr other ↦ rw other (
            after_word command ws done index match' _
              (is_cmd_ambiguous-Within (Read command ws done index) index (λ e k. (k.1.0, k.1.1))
                match' command v' read)
              (λ u r. filter_words-IsGood ws next u (index + 1) match' split' at' other (kept u r)))
      ]
