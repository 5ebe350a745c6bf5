-- ===== src/Cmd/Fw/Apply/Sections.antt =====
-- The file of filter rules: each line that the command on a rule writes becomes the section of the
-- rule, and the sections are numbered.
use qr_wireguard_ui.Base.{
  ℕ, ◌+◌, true, ◌≡◌, refl, ap, ◌∙◌, some, List, [], ◌∷◌, ◌++◌, arith, length,
}
use qr_wireguard_ui.Text.{CString}
use qr_wireguard_ui.Text.Laws.{starts_with-append}
use qr_wireguard_ui.Text.Words.{delimited, strtok-delimited}
use qr_wireguard_ui.Session.File.{newline, dump_lines}
use qr_wireguard_ui.Session.File.Lines.{one_line, dump-le}
use qr_wireguard_ui.Cmd.Fw.Apply.{behind, filled, eol}
use qr_wireguard_ui.Cmd.Fw.Apply.Buffers.{
  AllFields, fields_words, fields_length, chop-append, AllOneLine, ended, read_lines-lines, line_of,
  one_line-line_of, params-filled,
}
use qr_wireguard_ui.Cmd.{concat}
use qr_wireguard_ui.Cmd.Fw.Apply.Text.{IsKnown, section, rule_section-section}
use qr_wireguard_ui.Cmd.Fw.Apply.{
  filter_head, filter_params, filter_round, filter_loop, filter_sections, action_index,
}
use qr_wireguard_ui.Cmd.Fw.Rule.{FilterRule, rule_parts, is_one_of, actions, arguments}

-- What the commands put into the configuration.
abbrev pub rule_text : FilterRule → CString
rule_text r = concat (rule_parts r r.position)

behind_lem :
    (s : CString) (rest : List CString)
    → behind filter_head (line_of filter_head (s ∷ rest)) ≡ s ++ delimited b' ' rest
unfolding behind
behind_lem s rest = refl

filter_params_lem :
    (r : FilterRule)
    → AllFields 64 (arguments r)
    → filter_params (rule_text r ++ newline ∷ []) ≡ filled (arguments r)
unfolding filter_params
filter_params_lem r h =
    rw
      (
        chop-append (line_of filter_head (arguments r)),
        starts_with-append filter_head (delimited b' ' (arguments r)),
        behind_lem r.num _,
        strtok-delimited b' ' r.num _ (fields_words 64 (arguments r) h),
        params-filled 13 64 (arguments r) refl refl h,
      )
      refl

abbrev pub texts : List FilterRule → List CString
texts [] = []
texts (r ∷ rs) = rule_text r ∷ texts rs

-- The sections, numbered from a count on.
abbrev pub sections : List FilterRule → ℕ → CString
sections [] count = []
sections (r ∷ rs) count = section r count ++ sections rs (count + 1)

-- The arguments are words of less than 64 bytes, and the zone and the action are known.
abbrev pub AllRules : List FilterRule → Type 0
AllRules [] = Unit
AllRules (r ∷ rs) = (AllFields 64 (arguments r) × IsKnown r) × AllRules rs

action_index_known :
    (action : CString) (index : ℕ)
    → is_one_of action actions ≡ true
    → action_index action index ≡ action_index action 0
unfolding action_index
action_index_known action index h = ground (arith, h)

filter_loop_lem :
    (rs : List FilterRule) (index count : ℕ)
    → AllRules rs
    → filter_loop (ended (texts rs)) index count ≡ some (sections rs count)
unfolding filter_loop
filter_loop_lem [] index count h = refl
filter_loop_lem (r ∷ rs) index count h =
    ap (λ param. filter_round param index count (filter_loop (ended (texts rs))))
      (filter_params_lem r h.0.0)
    ∙ rw
        (
          action_index_known r.action index h.0.1.1,
          rule_section-section r count h.0.1,
          filter_loop_lem rs (action_index r.action 0) (count + 1) h.1,
        )
        refl

texts-AllOneLine : (rs : List FilterRule) → AllRules rs → AllOneLine (texts rs)
unfolding one_line
texts-AllOneLine [] h = tt
texts-AllOneLine (r ∷ rs) h = (
  (
    one_line-line_of 64 filter_head (arguments r) refl h.0.0,
    omega (arith, fields_length 64 (arguments r) h.0.0),
  ),
  texts-AllOneLine rs h.1,
)

-- If the arguments of filter rules are words of less than 64 bytes and the zones and actions are
-- known, then a file of the lines of the rules, as the command on a rule writes them, is read
-- without a fault, and gives behind an empty line the section of each rule in order, numbered from
-- 0: it has the options of the rule's own words, src and dest of its zone, and ACCEPT, DROP or
-- REJECT for permit, deny or reject; an any has no option, and from any neither time has one.
pub filter_sections-sections :
    (rs : List FilterRule)
    → AllRules rs
    → filter_sections (dump_lines (texts rs)) ≡ some (eol ++ sections rs 0)
unfolding filter_sections
filter_sections-sections rs h =
    rw
      (
        read_lines-lines (length (dump_lines (texts rs))) (texts rs) (texts-AllOneLine rs h)
            (dump-le (texts rs)),
        filter_loop_lem rs 0 0 h,
      )
      refl
