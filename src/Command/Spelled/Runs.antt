-- ===== src/Command/Spelled/Runs.antt =====
-- A command that is spelled out, and is the only one that the line completes, is the one that runs.
use qr_wireguard_ui.Base.{
  ℕ, ◌+◌, Bool, true, false, ◌&&◌, ◌≡◌, inl, inr, refl, ap, ◌∙◌, sym, Option, none, some, List, [],
  ◌∷◌, ◌++◌, leb, arith, length, Bool-cases,
}
use mathlib.Core.Path.{ap₂}
use qr_wireguard_ui.Text.{CString}
use qr_wireguard_ui.Match.{exact_match, rank}
use qr_wireguard_ui.Command.{CmdElement}
use qr_wireguard_ui.Command.Spec.{AnySlot, Slots}
use qr_wireguard_ui.Command.Execute.{
  CmdVector, Counts, no_counts, count_slot, count_slots, choose, finish, run_element, filtered,
  cmd_execute_command, cmd_execute_command_strict,
}
use qr_wireguard_ui.Command.Spelled.{spelled_at}
use qr_wireguard_ui.Command.Spelled.Kept.{keep, keep_all}
use qr_wireguard_ui.Command.Spelled.Agree.{spells, AllPlain, spelled_left, spelled_agree}

module _ {F : Type 0} where
  keep_twice :
      (p q : CmdElement F → Bool) (slot : Option (CmdElement F))
      → keep q (keep p slot) ≡ keep (λ e. p e && q e) slot
  keep_twice p q none = refl
  keep_twice p q (some e) = elim (Bool-cases (p e)) [
    | inl has ↦ rw has refl
    | inr lacks ↦ rw lacks refl
  ]

  keep_all_twice :
      (p q : CmdElement F → Bool) (v : CmdVector F)
      → keep_all q (keep_all p v) ≡ keep_all (λ e. p e && q e) v
  keep_all_twice p q [] = refl
  keep_all_twice p q (slot ∷ v) = ap₂ ◌∷◌ (keep_twice p q slot) (keep_all_twice p q v)

  keep_all-true : (v : CmdVector F) → keep_all (λ e. true) v ≡ v
  keep_all-true [] = refl
  keep_all-true (none ∷ v) = ap (◌∷◌ none) (keep_all-true v)
  keep_all-true (some e ∷ v) = ap (◌∷◌ (some e)) (keep_all-true v)

  spelled_left-keep_all :
      (words : List CString) (index : ℕ) (v : CmdVector F)
      → spelled_left words index v ≡ keep_all (λ e. spells words index e) v
  unfolding spelled_left spells
  spelled_left-keep_all [] index v = sym (keep_all-true v)
  spelled_left-keep_all (word ∷ words) index v =
      spelled_left-keep_all words (index + 1) (keep_all (λ e. spelled_at word index e) v)
      ∙ keep_all_twice (λ e. spelled_at word index e) (λ e. spells words (index + 1) e) v

  -- The element has the words as its first keywords and needs no more.
  abbrev pub is_complete : List CString → CmdElement F → Bool
  is_complete words e = spells words 0 e && leb e.cmdsize (length words)

  module _ (words : List CString) where
    abbrev left : CmdVector F → CmdVector F
    left v = keep_all (λ e. spells words 0 e) v

    abbrev Same : Counts F → Counts F → Type 0
    Same m n = (m.matched_element ≡ n.matched_element) × (m.matched_count ≡ n.matched_count)

    count_incomplete :
        (e : CmdElement F) (n : Counts F)
        → is_complete words e ≡ false
        → Same (count_slot (length words) exact_match (keep (λ x. spells words 0 x) (some e)) n) n
    unfolding count_slot rank
    count_incomplete e n h = elim (Bool-cases (spells words 0 e)) [
      | inl has ↦
          let more : leb e.cmdsize (length words) ≡ false = ground (arith, has, h) in
          rw (has, more) (refl, refl)
      | inr lacks ↦ rw lacks (refl, refl)
    ]

    count_complete :
        (e : CmdElement F) (n : Counts F)
        → is_complete words e ≡ true
        → count_slot (length words) exact_match (keep (λ x. spells words 0 x) (some e)) n
          ≡ record n { matched_element = some e; matched_count = n.matched_count + 1 }
    unfolding count_slot rank
    count_complete e n h =
        let has : spells words 0 e ≡ true = ground arith in
        let enough : leb e.cmdsize (length words) ≡ true = ground arith in rw (has, enough) refl

    counts_incomplete :
        (v : CmdVector F) (n : Counts F)
        → Slots (λ e. is_complete words e ≡ false) v
        → Same (count_slots (length words) exact_match (left v) n) n
    unfolding count_slots count_slot
    counts_incomplete [] n s = (refl, refl)
    counts_incomplete (none ∷ v) n s = counts_incomplete v n s
    counts_incomplete (some e ∷ v) n s =
        let first = count_incomplete e n s.0 in
        let later =
          counts_incomplete v
            (count_slot (length words) exact_match (keep (λ x. spells words 0 x) (some e)) n) s.1 in
        (later.0 ∙ first.0, later.1 ∙ first.1)

    counts_only :
        (before after : CmdVector F) (e : CmdElement F) (n : Counts F)
        → is_complete words e ≡ true
        → Slots (λ x. is_complete words x ≡ false) before
        → Slots (λ x. is_complete words x ≡ false) after
        → ((count_slots
              (length words)
              exact_match
              (left (before ++ some e ∷ after))
              n).matched_element
            ≡ some e)
          × ((count_slots
                (length words)
                exact_match
                (left (before ++ some e ∷ after))
                n).matched_count
              ≡ n.matched_count + 1)
    unfolding count_slots count_slot
    counts_only [] after e n h b a =
        let here = count_complete e n h in
        let later =
          counts_incomplete after
            (count_slot (length words) exact_match (keep (λ x. spells words 0 x) (some e)) n) a in
        (
          later.0 ∙ ap (λ (m : Counts F). m.matched_element) here,
          later.1 ∙ ap (λ (m : Counts F). m.matched_count) here,
        )
    counts_only (none ∷ before) after e n h b a = counts_only before after e n h b a
    counts_only (some x ∷ before) after e n h b a =
        let n' = count_slot (length words) exact_match (keep (λ x. spells words 0 x) (some x)) n in
        let later = counts_only before after e n' h b.1 a in
        (later.0, later.1 ∙ ap (λ k. k + 1) (count_incomplete x n b.0).1)

  choose_one :
      (n : Counts F) (e : CmdElement F)
      → n.matched_element ≡ some e
      → n.matched_count ≡ 1
      → choose n ≡ inr e
  unfolding choose
  choose_one n e held one = rw (one, held, choose) refl

  finish_one :
      (vline : List CString) (v : CmdVector F) (e : CmdElement F)
      → choose (count_slots (length vline) exact_match v no_counts) ≡ inr e
      → finish vline (filtered v (length vline) exact_match) ≡ run_element e vline
  unfolding finish
  finish_one vline v e h = rw (h, finish) refl

  AnySlot-append :
      (P : CmdElement F → Type 0) (before after : CmdVector F) (e : CmdElement F)
      → P e
      → AnySlot P (before ++ some e ∷ after)
  AnySlot-append P [] after e p = inl p
  AnySlot-append P (none ∷ before) after e p = AnySlot-append P before after e p
  AnySlot-append P (some x ∷ before) after e p = inr (AnySlot-append P before after e p)

  -- If the words of a line that is not empty are the first keywords of one element, which needs no
  -- more of them, and of no other element that needs no more, and no word is written like a variable
  -- argument, then both functions run that element on the line.
  pub spelled_runs :
      (word : CString) (words : List CString) (before after : CmdVector F) (e : CmdElement F)
      → AllPlain (word ∷ words)
      → is_complete (word ∷ words) e ≡ true
      → Slots (λ x. is_complete (word ∷ words) x ≡ false) before
      → Slots (λ x. is_complete (word ∷ words) x ≡ false) after
      → (cmd_execute_command (word ∷ words) (before ++ some e ∷ after)
          ≡ run_element e (word ∷ words))
        × (cmd_execute_command_strict (word ∷ words) (before ++ some e ∷ after)
            ≡ run_element e (word ∷ words))
  spelled_runs word words before after e p h b a =
      let vline : List CString = word ∷ words in
      let v : CmdVector F = before ++ some e ∷ after in
      let has : spells vline 0 e ≡ true = ground arith in
      let (typed, strict) =
        spelled_agree vline v p
          (AnySlot-append (λ x. spells vline 0 x ≡ true) before after e has) in
      let (held, one) = counts_only vline before after e no_counts h b a in
      let runs =
        finish_one vline (keep_all (λ x. spells vline 0 x) v) e
          (choose_one _ e held (one ∙ omega arith)) in
      let typed' =
        typed
        ∙ ap (λ u. finish vline (filtered u (length vline) exact_match))
            (spelled_left-keep_all vline 0 v)
        ∙ runs in
      (typed', strict ∙ typed')
