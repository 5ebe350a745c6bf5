-- ===== src/Cmd/Fw/Rule/Exclusive.antt =====
-- Setting a filter rule leaves its line once, and the line with the contrary `insert` or `append` not
-- at all.
use qr_wireguard_ui.Base.{
  ◌-◌, ◌≤◌, ◌<◌, true, false, ◌≡◌, ◌⊎◌, inl, inr, refl, ap, sym, ◌∙◌, some, List, [], ◌∷◌, ◌++◌,
  arith, length, Bool-cases, if◌then◌else◌,
}
use mathlib.Core.Path.{subst}
use qr_wireguard_ui.Text.{CString, codes, str_eq, str_lt}
use qr_wireguard_ui.Text.Laws.{str_eq_iff, str_eq_refl}
use qr_wireguard_ui.Command.{cmd_success}
use qr_wireguard_ui.Config.{add_before, delete_first, config_del_line}
use qr_wireguard_ui.Config.Lines.{
  occurrences, count-delete_first, count-delete_first_other, count-add_before,
}
use qr_wireguard_ui.Config.Prefixes.{str_eq-append_both}
use qr_wireguard_ui.Cmd.{
  World, M, pure, ◌>>=◌, set_config, config_of, concat, total, sprintf, del_line, add_line,
}
use qr_wireguard_ui.Cmd.Parts.{AllPlain, no_percent-concat, cons-ne-nil}
use qr_wireguard_ui.Cmd.Quiet.{sprintf-fits, sprintf-some, bind_some}
use qr_wireguard_ui.Cmd.Replace.{ensure_success, add_line_lem}
use qr_wireguard_ui.Cmd.Fw.Rule.{
  FilterRule, passes, check_rule, rule_parts, del_rule, del_contrary, set_rule, clear_rule,
  sfirewall_filter_rules, no_sfirewall_filter_rules,
}

abbrev pub rule_line : FilterRule → CString → CString
rule_line r position = concat (rule_parts r position)

-- One of the two words, and the other one.
abbrev pub AreContrary : CString → CString → Type 0
AreContrary p q =
    ((p ≡ codes "insert") × (q ≡ codes "append")) ⊎ ((p ≡ codes "append") × (q ≡ codes "insert"))

del_rule_lem :
    (r : FilterRule) (position : CString) (w : World)
    → total (rule_parts r position) < 1024
    → del_rule r position w
      ≡ some (tt, set_config w (config_del_line (config_of w) (rule_line r position)))
unfolding del_rule del_line pure ◌>>=◌
del_rule_lem r position w fits = rw (sprintf-fits 1024 (rule_parts r position) fits) refl

words_differ : (p q behind : CString) → AreContrary p q → str_eq (p ++ behind) (q ++ behind) ≡ false
unfolding str_eq
words_differ p q behind (inl (e, f)) = rw (e, f) refl
words_differ p q behind (inr (e, f)) = rw (e, f) refl

lines_differ :
    (r : FilterRule) (p q : CString)
    → AreContrary p q
    → str_eq (rule_line r p) (rule_line r q) ≡ false
unfolding str_eq
lines_differ r p q c =
    str_eq-append_both r.num _ _
    ∙ str_eq-append_both r.zone _ _
    ∙ str_eq-append_both r.direction _ _
    ∙ words_differ p q _ c

del_contrary_lem :
    (r : FilterRule) (q : CString) → AreContrary r.position q → del_contrary r ≡ del_rule r q
unfolding del_contrary
del_contrary_lem r q (inl (e, f)) =
    let other : str_eq r.position (codes "append") ≡ false = unfold str_eq in rw e refl in
    let insert : str_eq r.position (codes "insert") ≡ true = (str_eq_iff _ _).1 e in
    rw other (rw insert (ap (del_rule r) (sym f)))
del_contrary_lem r q (inr (e, f)) =
    let append : str_eq r.position (codes "append") ≡ true = (str_eq_iff _ _).1 e in
    rw append (ap (del_rule r) (sym f))

contrary_total :
    (r : FilterRule) (q : CString)
    → AreContrary r.position q
    → total (rule_parts r q) ≡ total (rule_parts r r.position)
contrary_total r q (inl (e, f)) = omega (arith, ap length e, ap length f)
contrary_total r q (inr (e, f)) = omega (arith, ap length e, ap length f)

module _ (r : FilterRule) (q : CString) (contrary : AreContrary r.position q) (w : World)
    (fits : total (rule_parts r r.position) < 1024)
    (plain : AllPlain (rule_parts r r.position)) where
  abbrev line : CString
  line = rule_line r r.position

  abbrev gone : List CString
  gone = config_del_line (config_del_line (config_of w) (rule_line r q)) line

  set_rule_lem : set_rule r w ≡ some (cmd_success, set_config w (add_before str_lt line gone))
  unfolding set_rule del_line
  set_rule_lem =
      let fits' : total (rule_parts r q) < 1024 =
        omega (arith, fits, contrary_total r q contrary) in
      let w1 = set_config w (config_del_line (config_of w) (rule_line r q)) in
      bind_some (del_contrary r) _
        (ap (λ (m : M Unit). m w) (del_contrary_lem r q contrary) ∙ del_rule_lem r q w fits')
      ∙ bind_some (sprintf 1024 (rule_parts r r.position)) _ {w = w1}
          (sprintf-some 1024 (rule_parts r r.position) w1 fits)
      ∙ bind_some (add_line line []) _ (
          add_line_lem line (set_config w gone) (no_percent-concat (rule_parts r r.position) plain)
            (cons-ne-nil _ _))
      ∙ ensure_success (set_config w (add_before str_lt line gone))

  clear_rule_lem :
      clear_rule r w ≡ some (cmd_success, set_config w (config_del_line (config_of w) line))
  unfolding clear_rule
  clear_rule_lem =
      bind_some (del_rule r r.position) _ (del_rule_lem r r.position w fits)
      ∙ ensure_success (set_config w (config_del_line (config_of w) line))

-- What counts a line is not changed by deleting another.
count-del_line :
    (c : List CString) (a b : CString)
    → occurrences b (config_del_line c a)
      ≡ (if str_eq a b then occurrences b c - 1 else occurrences b c)
unfolding config_del_line
count-del_line c a b = elim (Bool-cases (str_eq a b)) [
  | inl same ↦ rw same (
      subst (λ b. occurrences b (delete_first (λ pnt. str_eq pnt a) c) ≡ occurrences b c - 1)
        ((str_eq_iff a b).0 same) (count-delete_first (λ pnt. str_eq pnt a) c))
  | inr other ↦ rw other (
      count-delete_first_other (λ pnt. str_eq pnt b) (λ pnt. str_eq pnt a) c
        (λ x h. subst (λ x. str_eq x b ≡ false) (sym ((str_eq_iff x a).0 h)) other))
]

str_eq_sym : (a b : CString) → str_eq a b ≡ str_eq b a
unfolding str_eq
str_eq_sym [] [] = refl
str_eq_sym [] (d ∷ b) = refl
str_eq_sym (c ∷ a) [] = refl
str_eq_sym (c ∷ a) (d ∷ b) = ground (arith, str_eq_sym a b)

-- `line` is there once, `contrary` not at all, and every other line as often as before.
abbrev pub IsOnly : CString → CString → List CString → List CString → Type 0
IsOnly line contrary c d =
    (occurrences line d ≡ 1)
    × (occurrences contrary d ≡ 0)
    × ((l : CString)
        → str_eq line l ≡ false
        → str_eq contrary l ≡ false
        → occurrences l d ≡ occurrences l c)

replaced-IsOnly :
    (line contrary : CString) (c : List CString)
    → str_eq line contrary ≡ false
    → occurrences line c ≤ 1
    → occurrences contrary c ≤ 1
    → IsOnly line contrary c
        (add_before str_lt line (config_del_line (config_del_line c contrary) line))
replaced-IsOnly line contrary c differ once once' =
    let c' = config_del_line c contrary in
    let counted = λ (l : CString).
      count-add_before (λ pnt. str_eq pnt l) str_lt line (config_del_line c' line) in
    (
      rw
          (
            counted line,
            count-del_line c' line line,
            count-del_line c contrary line,
            str_eq_refl line,
            str_eq_sym contrary line,
            differ,
          )
          (omega (arith, once)),
      rw
          (
            counted contrary,
            count-del_line c' line contrary,
            count-del_line c contrary contrary,
            str_eq_refl contrary,
            differ,
          )
          (omega (arith, once')),
      λ l other other'.
          rw (counted l, count-del_line c' line l, count-del_line c contrary l, other, other')
            (omega arith),
    )

-- If a rule passes the checks, its line fits the buffer and has no percent sign, and its line and the
-- one with the contrary position are there at most once, then setting it succeeds and runs nothing:
-- its line is there once, the contrary one is not, and every other line occurs as often as before;
-- and clearing it from there succeeds and leaves no such line.
pub filter_rule_set :
    (r : FilterRule) (q : CString) (w : World)
    → check_rule r ≡ passes
    → AreContrary r.position q
    → total (rule_parts r r.position) < 1024
    → AllPlain (rule_parts r r.position)
    → occurrences (rule_line r r.position) (config_of w) ≤ 1
    → occurrences (rule_line r q) (config_of w) ≤ 1
    → (w' : World) × (sfirewall_filter_rules r w ≡ some (cmd_success, w'))
      × IsOnly (rule_line r r.position) (rule_line r q) (config_of w) (config_of w')
      × (w'.ran ≡ w.ran)
      × ((w'' : World) × (no_sfirewall_filter_rules r w' ≡ some (cmd_success, w''))
          × (occurrences (rule_line r r.position) (config_of w'') ≡ 0))
unfolding sfirewall_filter_rules no_sfirewall_filter_rules
filter_rule_set r q w ok contrary fits plain once once' =
    let w' = set_config w (
      add_before str_lt (rule_line r r.position) (
        config_del_line (config_del_line (config_of w) (rule_line r q))
          (rule_line r r.position))) in
    let only =
      replaced-IsOnly (rule_line r r.position) (rule_line r q) (config_of w)
        (lines_differ r r.position q contrary) once once' in
    (
      w',
      rw ok (set_rule_lem r q contrary w fits plain),
      only,
      refl,
      (
        set_config w' (config_del_line (config_of w') (rule_line r r.position)),
        rw ok (clear_rule_lem r q contrary w' fits plain),
        count-del_line (config_of w') (rule_line r r.position) (rule_line r r.position)
            ∙ rw (str_eq_refl (rule_line r r.position)) (omega (arith, only.0)),
      ),
    )
