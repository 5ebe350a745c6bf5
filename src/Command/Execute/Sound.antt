-- ===== src/Command/Execute/Sound.antt =====
-- What an executed line does: the command that is run is installed, takes the words of the line,
-- and gets the arguments it should; nothing is read out of bounds on the way.
use qr_wireguard_ui.Base.{
  ℕ, suc, ◌≤◌, ◌<◌, true, ◌≡◌, ◌≢◌, ◌⊎◌, inl, inr, refl, Option, some, List, [], ◌++◌, arith, ◌==◌,
  leb, Bool-cases, ◌∙◌, ap, length, append-nil,
}
use qr_wireguard_ui.Text.{CString}
use qr_wireguard_ui.Match.{MatchType, no_match, rank}
use qr_wireguard_ui.Command.{
  CmdElement, Code, cmd_err_no_match, cmd_err_ambiguous, cmd_err_incomplete, cmd_err_exeed_argc_max,
  cmd_argc_max,
}
use qr_wireguard_ui.Command.Spec.{
  Accepts, AcceptsAll, all_alone, Slots, Slots-map, Slots-and, Slots-self, AnySlot, VarargAt,
}
use qr_wireguard_ui.Command.Filter.Sound.{TokenLaws}
use qr_wireguard_ui.Command.Execute.{
  CmdVector, Filtered, out_of_bounds, stops, filtered, Counts, count_slots, choose, no_counts,
  run_element, finish, Outcome, fault, fails, daemon_success, calls, filter_words,
}
use qr_wireguard_ui.Command.Execute.Args.{args_of, Covers, bounded, collect-args_of}
use qr_wireguard_ui.Command.Execute.Safe.{filter, Kept, Reached, IsGood, filter_words-IsGood}
use qr_wireguard_ui.Command.Execute.Counted.{
  Covers-AcceptsAll, Covers-vararg, Holds, IsEnough, count_slots-Holds, count_slots-only,
  choose-inr,
}

-- An element of the command vector that takes the words of a line: all of them, and they are
-- enough, or the words up to a variable argument list.
pub record Chosen {F : Type 0} (accepts : Accepts) (vline : List CString) (v : CmdVector F)
    (e : CmdElement F) : Type 0 where
  pub installed : AnySlot (λ x. x ≡ e) v
  pub read : List CString
  pub rest : List CString
  pub splits : vline ≡ read ++ rest
  pub takes : AcceptsAll accepts read e.strvec
  pub ends :
      (rest ≡ []) × (e.cmdsize ≤ length vline)
      ⊎ (index : ℕ) × (suc index ≡ length read) × (VarargAt index e)

-- What holds of the way a line ends.
abbrev pub IsSound : {F : Type 0} → Accepts → List CString → CmdVector F → Outcome F → Type 0
IsSound accepts vline v fault = ⊥
IsSound accepts vline v (fails code) =
    (code ≡ cmd_err_no_match)
    ⊎ (code ≡ cmd_err_ambiguous)
    ⊎ (code ≡ cmd_err_incomplete)
    ⊎ (code ≡ cmd_err_exeed_argc_max)
IsSound accepts vline v (daemon_success e) = Chosen accepts vline v e × (e.daemon ≢ 0)
IsSound accepts vline v (calls e argv) =
    Chosen accepts vline v e
    × (e.daemon ≡ 0)
    × (argv ≡ args_of e.strvec vline)
    × (length argv < cmd_argc_max)

choose-inl :
    {F : Type 0} (n : Counts F) (code : Code)
    → choose n ≡ inl code
    → (code ≡ cmd_err_no_match) ⊎ (code ≡ cmd_err_ambiguous) ⊎ (code ≡ cmd_err_incomplete)
unfolding choose
choose-inl n code h = ground arith

module _ {F : Type 0} (accepts : Accepts) (vline : List CString) (v : CmdVector F) where
  run-IsSound :
      (e : CmdElement F)
      → Chosen accepts vline v e
      → Covers e.strvec vline
      → IsSound accepts vline v (run_element e vline)
  unfolding run_element bounded
  run-IsSound e chosen covers =
      rw (collect-args_of e.strvec vline [] covers (omega arith), run_element)
        (elim (Bool-cases (leb cmd_argc_max (length (args_of e.strvec vline)))) [
          | inl big ↦ rw (big, bounded) (inr (inr (inr refl)))
          | inr small ↦
              rw (small, bounded)
                (elim (Bool-cases (e.daemon == 0)) [
                  | inl own ↦ rw own (chosen, ground arith, refl, ground arith)
                  | inr other ↦ rw other (chosen, ground arith)
                ])
        ])

module _ (token : CString → MatchType → CString → Option MatchType) (accepts : Accepts)
    (laws : TokenLaws token accepts) {F : Type 0} (vline : List CString) (v : CmdVector F)
    (alone : Slots (λ e. all_alone e.strvec ≡ true) v) where
  -- What the loop over the words knows of every element that is left.
  abbrev Known : CmdElement F → Type 0
  Known e = AnySlot (λ x. x ≡ e) v × (all_alone e.strvec ≡ true)

  module _ (left : CmdVector F) (index : ℕ) (match : MatchType) (read rest : List CString)
      (splits : vline ≡ read ++ rest) (kept : Slots (Kept token accepts laws Known vline read) left)
      (reached : Reached token accepts laws Known vline read rest left index match)
      (e : CmdElement F) where
    whole : rest ≡ [] → vline ≡ read
    whole none_left = splits ∙ ap (λ r. read ++ r) none_left ∙ append-nil read

    ends_of :
        Reached token accepts laws Known vline read rest left index match
        → (count_slots index match left no_counts).matched_count ≡ 1
        → (count_slots index match left no_counts).matched_element ≡ some e
        → IsEnough index match e
        → (rest ≡ []) × (e.cmdsize ≤ length vline)
          ⊎ (k : ℕ) × (suc k ≡ length read) × (VarargAt k e)
    ends_of (inl (none_left, plain, at)) one last enough =
        inl (none_left, ground (arith, ap (λ (l : List CString). length l) (whole none_left)))
    ends_of (inr (vararg, at, any)) one last enough = inr (
      index,
      at,
      count_slots-only index match vararg (VarargAt index) left no_counts e any refl one last,
    )

    Covers-of :
        Known e
        → AcceptsAll accepts read e.strvec
        → (rest ≡ []) × (e.cmdsize ≤ length vline)
          ⊎ (k : ℕ) × (suc k ≡ length read) × (VarargAt k e)
        → Covers e.strvec vline
    Covers-of known takes (inl (none_left, enough)) =
        rw (whole none_left) (Covers-AcceptsAll accepts read e.strvec takes)
    Covers-of known takes (inr (k, at, (ds, here, vararg))) =
        rw splits (Covers-vararg accepts read rest e.strvec k ds takes at here vararg known.1)

    chosen-IsSound :
        choose (count_slots index match left no_counts) ≡ inr e
        → IsSound accepts vline v (run_element e vline)
    chosen-IsSound h =
        let (one, last) = choose-inr (count_slots index match left no_counts) e h in
        let held : Holds
            (λ x. Kept token accepts laws Known vline read x × (IsEnough index match x)) (some e) =
          rw last at (
            count_slots-Holds index match (Kept token accepts laws Known vline read) left no_counts
              kept tt) in
        let ends = ends_of reached one last held.1 in
        run-IsSound accepts vline v e
          (record {
            installed = held.0.0.0;
            read = read;
            rest = rest;
            splits = splits;
            takes = held.0.1;
            ends = ends;
          })
          (Covers-of held.0.0 held.0.1 ends)

  choice-IsSound :
      (left : CmdVector F) (index : ℕ) (match : MatchType) (read rest : List CString)
      → vline ≡ read ++ rest
      → Slots (Kept token accepts laws Known vline read) left
      → Reached token accepts laws Known vline read rest left index match
      → (r : Code ⊎ CmdElement F) → choose (count_slots index match left no_counts) ≡ r
      → IsSound accepts vline v (elim r [ inl code ↦ fails code | inr e ↦ run_element e vline ])
  choice-IsSound left index match read rest splits kept reached (inl code) h =
      three (choose-inl (count_slots index match left no_counts) code h)
    where
      three :
          (code ≡ cmd_err_no_match) ⊎ (code ≡ cmd_err_ambiguous) ⊎ (code ≡ cmd_err_incomplete)
          → (code ≡ cmd_err_no_match)
            ⊎ (code ≡ cmd_err_ambiguous)
            ⊎ (code ≡ cmd_err_incomplete)
            ⊎ (code ≡ cmd_err_exeed_argc_max)
      three (inl a) = inl a
      three (inr (inl a)) = inr (inl a)
      three (inr (inr a)) = inr (inr (inl a))
  choice-IsSound left index match read rest splits kept reached (inr e) h =
      chosen-IsSound left index match read rest splits kept reached e h

  finish-IsSound :
      (r : Filtered F)
      → IsGood token accepts laws Known vline r
      → IsSound accepts vline v (finish vline r)
  unfolding finish
  finish-IsSound out_of_bounds g = g
  finish-IsSound (stops code) (inl a) = inr (inl a)
  finish-IsSound (stops code) (inr a) = inl a
  finish-IsSound (filtered left index match) (read, rest, splits, kept, reached) =
      choice-IsSound left index match read rest splits kept reached
        (choose (count_slots index match left no_counts)) refl

  pub executed-IsSound :
      IsSound accepts vline v
        (finish vline (filter_words (filter token accepts laws Known vline) vline v 0 no_match))
  unfolding rank
  executed-IsSound = finish-IsSound _ (
      filter_words-IsGood token accepts laws Known vline vline [] v 0 no_match refl refl refl (
        Slots-map Known (Kept token accepts laws Known vline []) (λ e k. (k, tt)) v
          (Slots-and (λ e. AnySlot (λ x. x ≡ e) v) (λ e. all_alone e.strvec ≡ true) v (Slots-self v)
            alone)))
