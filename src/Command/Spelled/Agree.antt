-- ===== src/Command/Spelled/Agree.antt =====
-- A spelled line as a whole: both executing functions decide by the keywords alone.
use qr_wireguard_ui.Base.{
  ℕ, ◌+◌, Bool, true, false, ◌&&◌, ◌≡◌, inl, inr, refl, ap, ◌∙◌, sym, Option, none, some, List, [],
  ◌∷◌, ◌==◌, arith, length, if◌then◌else◌, Bool-cases,
}
use mathlib.Core.Path.{ap₂}
use qr_wireguard_ui.Text.{CString}
use qr_wireguard_ui.Match.{MatchType, exact_match, no_match, rank}
use qr_wireguard_ui.Command.{CmdElement, cmd_vararg, cmd_err_ambiguous, cmd_err_no_match}
use qr_wireguard_ui.Command.Spec.{AnySlot}
use qr_wireguard_ui.Command.Filter.{
  filter_slots, token_by_completion, token_by_string, cmd_filter_by_completion,
  cmd_filter_by_string,
}
use qr_wireguard_ui.Command.Ambiguous.{is_cmd_ambiguous, Ended, returned, went_on}
use qr_wireguard_ui.Command.Execute.{
  CmdVector, FilterBy, Filtered, out_of_bounds, stops, filtered, is_vararg, filter_words, finish,
  cmd_execute_command, cmd_execute_command_strict,
}
use qr_wireguard_ui.Command.Spelled.{
  spelled_at, SpelledLaws, completion-SpelledLaws, string-SpelledLaws,
}
use qr_wireguard_ui.Command.Spelled.Kept.{keep_all}
use qr_wireguard_ui.Command.Spelled.Filtered.{filtered-exact, filtered-keep_all}

-- The words are keywords of the element, from position `index` on.
unfoldable pub spells : {F : Type 0} → List CString → ℕ → CmdElement F → Bool
spells [] index e = true
spells (word ∷ words) index e = spelled_at word index e && spells words (index + 1) e

-- No word is written like a variable argument.
abbrev pub AllPlain : List CString → Type 0
AllPlain [] = Unit
AllPlain (word ∷ words) = (cmd_vararg word ≡ false) × AllPlain words

abbrev pub last_match : List CString → MatchType → MatchType
last_match [] match = match
last_match (word ∷ words) match = exact_match

last_match_exact : (words : List CString) → last_match words exact_match ≡ exact_match
last_match_exact [] = refl
last_match_exact (word ∷ words) = refl

module _ {F : Type 0} where
  -- What the words leave of the vector, one word after the other.
  unfoldable pub spelled_left : List CString → ℕ → CmdVector F → CmdVector F
  spelled_left [] index v = v
  spelled_left (word ∷ words) index v =
      spelled_left words (index + 1) (keep_all (λ e. spelled_at word index e) v)

  pub spells_first :
      (word : CString) (words : List CString) (index : ℕ) (v : CmdVector F)
      → AnySlot (λ e. spells (word ∷ words) index e ≡ true) v
      → AnySlot (λ e. spelled_at word index e ≡ true) v
  unfolding spells
  spells_first word words index [] a = a
  spells_first word words index (none ∷ v) a = spells_first word words index v a
  spells_first word words index (some e ∷ v) (inl h) = inl (ground arith)
  spells_first word words index (some e ∷ v) (inr a) = inr (spells_first word words index v a)

  pub spells_rest :
      (word : CString) (words : List CString) (index : ℕ) (v : CmdVector F)
      → AnySlot (λ e. spells (word ∷ words) index e ≡ true) v
      → AnySlot (λ e. spells words (index + 1) e ≡ true) (keep_all (λ e. spelled_at word index e) v)
  unfolding spells
  spells_rest word words index [] a = a
  spells_rest word words index (none ∷ v) a = spells_rest word words index v a
  spells_rest word words index (some e ∷ v) (inl h) =
      let here : spelled_at word index e ≡ true = ground arith in rw here (inl (ground arith))
  spells_rest word words index (some e ∷ v) (inr a) = elim (Bool-cases (spelled_at word index e)) [
    | inl here ↦ rw here (inr (spells_rest word words index v a))
    | inr not_here ↦ rw not_here (spells_rest word words index v a)
  ]

  module _ (token : CString → MatchType → CString → Option MatchType)
      (laws : SpelledLaws token) where
    abbrev by_token : FilterBy F
    by_token command v index = filter_slots (token command) index v no_match

    abbrev round :
        List CString → CmdVector F → ℕ → MatchType → Option (Ended (CmdVector F)) → Filtered F
    round words v index match r =
        let next : Filtered F = elim r [
          | none ↦ out_of_bounds
          | some (returned ret) ↦ stops (if ret == 1 then cmd_err_ambiguous else cmd_err_no_match)
          | some (went_on v'') ↦ filter_words by_token words v'' (index + 1) match
        ] in
        if is_vararg match then filtered v index match else next

    filter_words-round :
        (word : CString) (words : List CString) (v : CmdVector F) (index : ℕ) (match : MatchType)
        → filter_words by_token (word ∷ words) v index match
          ≡ round words
              (by_token word v index).1
              index
              (by_token word v index).0
              (is_cmd_ambiguous word (by_token word v index).1 index (by_token word v index).0)
    unfolding filter_words
    filter_words-round word words v index match = refl

    round_exact :
        (words : List CString) (v u : CmdVector F) (index : ℕ)
        → round words v index exact_match (some (went_on u))
          ≡ filter_words by_token words u (index + 1) exact_match
    unfolding rank
    round_exact words v u index = refl

    pub filter_words-spelled :
        (words : List CString) (v : CmdVector F) (index : ℕ) (match : MatchType)
        → AllPlain words
        → AnySlot (λ e. spells words index e ≡ true) v
        → filter_words by_token words v index match
          ≡ filtered (spelled_left words index v) (index + length words) (last_match words match)
    unfolding filter_words spelled_left
    filter_words-spelled [] v index match p a = ap (λ n. filtered v n match) (omega arith)
    filter_words-spelled (word ∷ words) v index match p a =
        let first = spells_first word words index v a in
        let v' = (by_token word v index).1 in
        let u = keep_all (λ e. spelled_at word index e) v in
        filter_words-round word words v index match
        ∙ ap (λ m. round words v' index m (is_cmd_ambiguous word v' index m))
            (filtered-exact token laws word p.0 index v first)
        ∙ ap (round words v' index exact_match)
            (filtered-keep_all token laws word p.0 index v first)
        ∙ round_exact words v' u index
        ∙ filter_words-spelled words u (index + 1) exact_match p.1
            (spells_rest word words index v a)
        ∙ ap₂ (λ n m. filtered (spelled_left words (index + 1) u) n m) (omega arith)
            (last_match_exact words)

  -- If some element of the vector has the words of the line as keywords at its first positions, and
  -- no word is written like a variable argument, then both functions end in the same way: that of
  -- the elements that have the words as keywords there.
  pub spelled_agree :
      (vline : List CString) (v : CmdVector F)
      → AllPlain vline
      → AnySlot (λ e. spells vline 0 e ≡ true) v
      → (cmd_execute_command vline v
          ≡ finish vline
              (filtered (spelled_left vline 0 v) (length vline) (last_match vline no_match)))
        × (cmd_execute_command_strict vline v ≡ cmd_execute_command vline v)
  unfolding cmd_execute_command cmd_execute_command_strict cmd_filter_by_completion
      cmd_filter_by_string
  spelled_agree vline v p a =
      let typed =
        filter_words-spelled token_by_completion completion-SpelledLaws vline v 0 no_match p a in
      let strict = filter_words-spelled token_by_string string-SpelledLaws vline v 0 no_match p a in
      (
        ap (finish vline) (
            typed
            ∙ ap (λ n. filtered (spelled_left vline 0 v) n (last_match vline no_match))
                (omega arith)),
        ap (finish vline) (strict ∙ sym typed),
      )
