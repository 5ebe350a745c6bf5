-- ===== src/Command/Execute/Counted.antt =====
-- The loop that counts the elements left: what the one that it holds satisfies, and that a line
-- which it takes stays inside its positions.
use mathlib.Core.Path.{subst}
use mathlib.Core.Option.{some-injective}
use qr_wireguard_ui.Base.{
  ℕ, zero, suc, ◌+◌, ◌≤◌, ◌<◌, true, ◌||◌, ◌≡◌, inl, inr, refl, Option, none, some, List, [], ◌∷◌,
  ◌++◌, arith, get_elem?, leb, Bool-cases, ◌∙◌, sym, ap, length,
}
use qr_wireguard_ui.Text.{CString}
use qr_wireguard_ui.Match.{MatchType}
use qr_wireguard_ui.Command.{Desc, CmdElement}
use qr_wireguard_ui.Command.Spec.{
  Accepts, AcceptsAll, has_vararg, vararg_alone, all_alone, Slots, AnySlot,
}
use qr_wireguard_ui.Command.Execute.{CmdVector, Counts, count_slot, count_slots, choose, is_vararg}
use qr_wireguard_ui.Command.Execute.Args.{takes_rest, Covers}

pub Covers-AcceptsAll :
    (accepts : Accepts) (words : List CString) (strvec : List (List Desc))
    → AcceptsAll accepts words strvec
    → Covers strvec words
Covers-AcceptsAll accepts [] strvec a = tt
Covers-AcceptsAll accepts (w ∷ ws) [] a = a
Covers-AcceptsAll accepts (w ∷ ws) (d ∷ strvec) a = inr (Covers-AcceptsAll accepts ws strvec a.1)

takes_rest-alone :
    (ds : List Desc) → vararg_alone ds ≡ true → has_vararg ds ≡ true → takes_rest ds ≡ true
unfolding vararg_alone takes_rest
takes_rest-alone [] h k = ground arith
takes_rest-alone (d ∷ []) h k = ground arith
takes_rest-alone (d ∷ e ∷ ds) h k = ground arith

-- Behind a variable argument list, which stands alone at its position, any words are covered.
pub Covers-vararg :
    (accepts : Accepts) (done rest : List CString) (strvec : List (List Desc)) (index : ℕ)
    (ds : List Desc)
    → AcceptsAll accepts done strvec
    → suc index ≡ length done
    → get_elem? strvec index ≡ some ds
    → has_vararg ds ≡ true
    → all_alone strvec ≡ true
    → Covers strvec (done ++ rest)
unfolding all_alone
Covers-vararg accepts [] rest strvec index ds a at here v alone = absurd (omega arith)
Covers-vararg accepts (w ∷ done) rest [] index ds a at here v alone = a
Covers-vararg accepts (w ∷ done) rest (d ∷ strvec) zero ds a at here v alone =
    inl (takes_rest-alone d (ground arith) (ground arith))
Covers-vararg accepts (w ∷ done) rest (d ∷ strvec) (suc index) ds a at here v alone =
    inr (Covers-vararg accepts done rest strvec index ds a.1 (omega arith) here v (ground arith))

module _ {F : Type 0} where
  -- The element that the counting loop holds is in the vector and long enough.
  abbrev pub Holds : (CmdElement F → Type 0) → Option (CmdElement F) → Type 0
  Holds Q none = Unit
  Holds Q (some e) = Q e

  abbrev pub IsEnough : ℕ → MatchType → CmdElement F → Type 0
  IsEnough index match e = (is_vararg match || leb e.cmdsize index) ≡ true

  module _ (index : ℕ) (match : MatchType) where
    pub count_slots-Holds :
        (P : CmdElement F → Type 0) (v : CmdVector F) (n : Counts F)
        → Slots P v
        → Holds (λ e. P e × (IsEnough index match e)) n.matched_element
        → Holds (λ e. P e × (IsEnough index match e)) (count_slots index match v n).matched_element
    unfolding count_slots count_slot
    count_slots-Holds P [] n s h = h
    count_slots-Holds P (none ∷ v) n s h = count_slots-Holds P v n s h
    count_slots-Holds P (some e ∷ v) n s h =
        elim (Bool-cases (is_vararg match || leb e.cmdsize index)) [
          | inl enough ↦ count_slots-Holds P v _ s.1 (rw enough (s.0, enough))
          | inr short ↦ count_slots-Holds P v _ s.1 (rw short h)
        ]

    -- With a variable argument list every element counts.
    count_slot-some :
        (e : CmdElement F) (n : Counts F)
        → is_vararg match ≡ true
        → count_slot index match (some e) n
          ≡ record n { matched_element = some e; matched_count = n.matched_count + 1 }
    unfolding count_slot
    count_slot-some e n h = rw h

    count_slot-le :
        (slot : Option (CmdElement F)) (n : Counts F)
        → n.matched_count ≤ (count_slot index match slot n).matched_count
    unfolding count_slot
    count_slot-le none n = omega arith
    count_slot-le (some e) n = ground arith

    count_slots-le :
        (v : CmdVector F) (n : Counts F)
        → n.matched_count ≤ (count_slots index match v n).matched_count
    unfolding count_slots
    count_slots-le [] n = omega arith
    count_slots-le (slot ∷ v) n =
        omega (arith, count_slot-le slot n, count_slots-le v (count_slot index match slot n))

    module _ (h : is_vararg match ≡ true) where
      count_slots-lt :
          (Q : CmdElement F → Type 0) (v : CmdVector F) (n : Counts F)
          → AnySlot Q v
          → n.matched_count < (count_slots index match v n).matched_count
      unfolding count_slots
      count_slots-lt Q [] n a = absurd a
      count_slots-lt Q (none ∷ v) n a =
          omega (arith, count_slot-le none n, count_slots-lt Q v (count_slot index match none n) a)
      count_slots-lt Q (some e ∷ v) n a = omega (
        arith,
        ap (λ (m : Counts F). m.matched_count) (count_slot-some e n h),
        count_slots-le v (count_slot index match (some e) n),
      )

      -- A second element would have been counted.
      count_slots-last :
          (v : CmdVector F) (n : Counts F)
          → (count_slots index match v n).matched_count ≡ n.matched_count
          → (count_slots index match v n).matched_element ≡ n.matched_element
      unfolding count_slots count_slot
      count_slots-last [] n one = refl
      count_slots-last (none ∷ v) n one = count_slots-last v n one
      count_slots-last (some e ∷ v) n one = absurd (
          omega (
            arith,
            ap (λ (m : Counts F). m.matched_count) (count_slot-some e n h),
            count_slots-le v (count_slot index match (some e) n),
          ))

      pub count_slots-only :
          (Q : CmdElement F → Type 0) (v : CmdVector F) (n : Counts F) (e : CmdElement F)
          → AnySlot Q v
          → n.matched_count ≡ 0
          → (count_slots index match v n).matched_count ≡ 1
          → (count_slots index match v n).matched_element ≡ some e
          → Q e
      unfolding count_slots count_slot
      count_slots-only Q [] n e a z one last = absurd a
      count_slots-only Q (none ∷ v) n e a z one last = count_slots-only Q v n e a z one last
      count_slots-only Q (some x ∷ v) n e (inr a) z one last = absurd (
          omega (
            arith,
            ap (λ (m : Counts F). m.matched_count) (count_slot-some x n h),
            count_slots-lt Q v (count_slot index match (some x) n) a,
          ))
      count_slots-only Q (some x ∷ v) n e (inl q) z one last =
          let n' = count_slot index match (some x) n in
          let bumped = count_slot-some x n h in
          let kept =
            count_slots-last v n' (omega (arith, ap (λ (m : Counts F). m.matched_count) bumped)) in
          let held = ap (λ (m : Counts F). m.matched_element) bumped in
          subst Q (some-injective x e (sym held ∙ sym kept ∙ last)) q

  pub choose-inr :
      (n : Counts F) (e : CmdElement F)
      → choose n ≡ inr e
      → (n.matched_count ≡ 1) × (n.matched_element ≡ some e)
  unfolding choose
  choose-inr n e h = ground arith
