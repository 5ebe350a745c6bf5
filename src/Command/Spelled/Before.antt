-- ===== src/Command/Spelled/Before.antt =====
-- The words in front of the current one, where some element has them as keywords: it is left, both
-- for the completion and for the description.
use qr_wireguard_ui.Base.{
  ℕ, ◌+◌, Bool, true, ◌≡◌, inl, inr, refl, ap, sym, ◌∙◌, none, some, List, [], ◌∷◌, arith, length,
  Bool-cases,
}
use mathlib.Core.Path.{subst}
use qr_wireguard_ui.Text.{CString}
use qr_wireguard_ui.Match.{MatchType, exact_match, no_match}
use qr_wireguard_ui.Command.{Code, CmdElement}
use qr_wireguard_ui.Command.Spec.{AnySlot}
use qr_wireguard_ui.Command.Filter.{token_by_completion, cmd_filter_by_completion}
use qr_wireguard_ui.Command.Ambiguous.{is_cmd_ambiguous}
use qr_wireguard_ui.Command.Execute.{CmdVector, Filtered, stops, filtered, filter_words}
use qr_wireguard_ui.Command.Complete.{
  Before, out_of_reach, is_ambiguous, left, after_word, filter_before,
}
use qr_wireguard_ui.Command.Spelled.{spelled_at, completion-SpelledLaws}
use qr_wireguard_ui.Command.Spelled.Kept.{keep_all}
use qr_wireguard_ui.Command.Spelled.Filtered.{filtered-exact, filtered-keep_all}
use qr_wireguard_ui.Command.Spelled.Agree.{
  spells, AllPlain, spelled_left, last_match, spells_first, spells_rest, filter_words-spelled,
}

module _ {F : Type 0} where
  -- An installed element, and one of which the words are the first keywords.
  abbrev pub IsIn : CmdElement F → CmdVector F → Type 0
  IsIn e v = AnySlot (λ x. x ≡ e) v

  keep_all-IsIn :
      (p : CmdElement F → Bool) (e : CmdElement F) (v : CmdVector F)
      → p e ≡ true
      → IsIn e v
      → IsIn e (keep_all p v)
  keep_all-IsIn p e [] h here = here
  keep_all-IsIn p e (none ∷ v) h here = keep_all-IsIn p e v h here
  keep_all-IsIn p e (some x ∷ v) h (inl same) = rw (ap p same ∙ h) (inl same)
  keep_all-IsIn p e (some x ∷ v) h (inr here) = elim (Bool-cases (p x)) [
    | inl kept ↦ rw kept (inr (keep_all-IsIn p e v h here))
    | inr dropped ↦ rw dropped (keep_all-IsIn p e v h here)
  ]

  spelled_left-IsIn :
      (words : List CString) (index : ℕ) (e : CmdElement F) (v : CmdVector F)
      → spells words index e ≡ true
      → IsIn e v
      → IsIn e (spelled_left words index v)
  unfolding spells spelled_left
  spelled_left-IsIn [] index e v h here = here
  spelled_left-IsIn (word ∷ words) index e v h here =
      spelled_left-IsIn words (index + 1) e (keep_all (λ x. spelled_at word index x) v)
        (ground (arith, h))
        (keep_all-IsIn (λ x. spelled_at word index x) e v (ground (arith, h)) here)

  some_spells :
      (words : List CString) (e : CmdElement F) (v : CmdVector F)
      → spells words 0 e ≡ true
      → IsIn e v
      → AnySlot (λ x. spells words 0 x ≡ true) v
  some_spells words e [] h here = here
  some_spells words e (none ∷ v) h here = some_spells words e v h here
  some_spells words e (some x ∷ v) h (inl same) = inl (ap (spells words 0) same ∙ h)
  some_spells words e (some x ∷ v) h (inr here) = inr (some_spells words e v h here)

  abbrev next_word : List CString → ℕ → Before F → Before F
  next_word words index r = elim r [
    | out_of_reach ↦ out_of_reach
    | is_ambiguous ↦ is_ambiguous
    | left v ↦ filter_before words (index + 1) v
  ]

  filter_before-spelled :
      (words : List CString) (index : ℕ) (v : CmdVector F)
      → AllPlain words
      → AnySlot (λ e. spells words index e ≡ true) v
      → filter_before words index v ≡ left (spelled_left words index v)
  unfolding filter_before spelled_left cmd_filter_by_completion
  filter_before-spelled [] index v p a = refl
  filter_before-spelled (word ∷ words) index v p a =
      let first = spells_first word words index v a in
      let v' = (cmd_filter_by_completion word v index).1 in
      ap
        (λ m. next_word words index (after_word m word index v' (is_cmd_ambiguous word v' index m)))
        (filtered-exact token_by_completion completion-SpelledLaws word p.0 index v first)
      ∙ ap (λ r. next_word words index (after_word exact_match word index v' r))
          (filtered-keep_all token_by_completion completion-SpelledLaws word p.0 index v first)
      ∙ filter_before-spelled words (index + 1) (keep_all (λ e. spelled_at word index e) v) p.1
          (spells_rest word words index v a)

  abbrev left_or : CmdVector F → Before F → CmdVector F
  left_or v (left u) = u
  left_or v _ = v

  abbrev filtered_or : CmdVector F → Filtered F → CmdVector F
  filtered_or v (filtered u reached match) = u
  filtered_or v _ = v

  module _ (words : List CString) (v : CmdVector F) (plain : AllPlain words) (e : CmdElement F)
      (here : IsIn e v) (h : spells words 0 e ≡ true) where
    -- `cmd_complete_command` leaves the element.
    pub filter_before-IsIn : (u : CmdVector F) → filter_before words 0 v ≡ left u → IsIn e u
    filter_before-IsIn u before =
        subst (IsIn e)
          (ap (left_or v)
            (sym (filter_before-spelled words 0 v plain (some_spells words e v h here)) ∙ before))
          (spelled_left-IsIn words 0 e v h here)

    pub filter_before-left : filter_before words 0 v ≡ left (spelled_left words 0 v)
    filter_before-left = filter_before-spelled words 0 v plain (some_spells words e v h here)

    abbrev both : Filtered F
    both = filtered (spelled_left words 0 v) (0 + length words) (last_match words no_match)

    pub filter_words-left : filter_words cmd_filter_by_completion words v 0 no_match ≡ both
    unfolding cmd_filter_by_completion
    filter_words-left =
        filter_words-spelled token_by_completion completion-SpelledLaws words v 0 no_match plain
          (some_spells words e v h here)

    -- `cmd_describe_command` leaves the element.
    pub filter_words-IsIn :
        (u : CmdVector F) (reached : ℕ) (match : MatchType)
        → filter_words cmd_filter_by_completion words v 0 no_match ≡ filtered u reached match
        → IsIn e u
    filter_words-IsIn u reached match front =
        subst (IsIn e) (ap (filtered_or v) (sym filter_words-left ∙ front))
          (spelled_left-IsIn words 0 e v h here)

  -- Where no word is written like a variable argument, an element of which the words are the first
  -- keywords is left; there is no such element.
  abbrev pub KeepsSpelled : List CString → CmdVector F → CmdVector F → Type 0
  KeepsSpelled words v u =
      AllPlain words → (e : CmdElement F) → IsIn e v → spells words 0 e ≡ true → IsIn e u

  abbrev pub NoneSpelled : List CString → CmdVector F → Type 0
  NoneSpelled words v = AllPlain words → (e : CmdElement F) → IsIn e v → spells words 0 e ≡ true → ⊥

  pub ambiguous-NoneSpelled :
      (words : List CString) (v : CmdVector F)
      → filter_before words 0 v ≡ is_ambiguous
      → NoneSpelled words v
  ambiguous-NoneSpelled words v before plain e here h =
      let same : is_ambiguous ≡ left (spelled_left words 0 v) =
        sym before ∙ filter_before-left words v plain e here h in
      absurd (ground (arith, same))

  pub stops-NoneSpelled :
      (words : List CString) (v : CmdVector F) (code : Code)
      → filter_words cmd_filter_by_completion words v 0 no_match ≡ stops code
      → NoneSpelled words v
  stops-NoneSpelled words v code front plain e here h =
      let same : stops code ≡ both words v plain e here h =
        sym front ∙ filter_words-left words v plain e here h in
      absurd (ground (arith, same))
