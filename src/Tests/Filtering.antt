-- ===== src/Tests/Filtering.antt =====
-- Filter rules that are checked, set and cleared, and the files that the rules are applied from.
use qr_wireguard_ui.Base.{◌≡◌, ◌≤◌, ◌++◌, refl, inr, some, [], ◌∷◌, arith}
use qr_wireguard_ui.Text.{codes, is_digit, str_eq, atoi, atoi_word, split_at}
use qr_wireguard_ui.Text.Strtok.{strtok}
use qr_wireguard_ui.Text.Words.{lacks}
use qr_wireguard_ui.Command.{cmd_success}
use qr_wireguard_ui.Config.Printf.{no_percent}
use qr_wireguard_ui.Config.Lines.{count, occurrences}
use qr_wireguard_ui.Session.Portmap.{Portmap}
use qr_wireguard_ui.Session.File.{dump_lines}
use qr_wireguard_ui.Session.File.Lines.{one_line}
use qr_wireguard_ui.Cmd.{World, config_of}
use qr_wireguard_ui.Cmd.Parts.{AllPlain}
use qr_wireguard_ui.Cmd.Fw.Rule.{
  FilterRule, passes, check_rule, rule_parts, arguments, sfirewall_filter_rules,
  no_sfirewall_filter_rules,
}
use qr_wireguard_ui.Cmd.Fw.Rule.Valid.{IsValid, check_rule-IsValid}
use qr_wireguard_ui.Cmd.Fw.Rule.Exclusive.{rule_line, IsOnly, filter_rule_set}
use qr_wireguard_ui.Cmd.Fw.Apply.{eol, portmap_sections, filter_sections}
use qr_wireguard_ui.Cmd.Fw.Apply.Buffers.{AllFields}
use qr_wireguard_ui.Cmd.Fw.Apply.Redirects.{
  lines, redirects, AllPortmaps, portmap_sections-redirects,
}
use qr_wireguard_ui.Cmd.Fw.Apply.Sections.{texts, sections, AllRules, filter_sections-sections}
use qr_wireguard_ui.Tests.Addresses.{router}

abbrev web : FilterRule
web = record {
  num = codes "1";
  zone = codes "wan2lan";
  direction = codes "in";
  position = codes "append";
  action = codes "permit";
  protocol = codes "tcp";
  sip = codes "0.0.0.0/0";
  sport = codes "any";
  dip = codes "10.1.0.0/16";
  dport = codes "443";
  day = codes "mon|fri";
  from_time = codes "08:30";
  to_time = codes "17:00";
}

web_passes : check_rule web ≡ passes
unfolding check_rule is_digit str_eq atoi atoi_word split_at strtok
web_passes = refl

check_rule-IsValid_example : IsValid web
check_rule-IsValid_example = check_rule-IsValid web web_passes

abbrev filtering : World
filtering = router (codes "hostname r1" ∷ rule_line web (codes "insert") ∷ [])

web_plain : AllPlain (rule_parts web web.position)
unfolding no_percent
web_plain = (
  refl,
  (
    refl,
    (
      refl,
      (
        refl,
        (
          refl,
          (
            refl,
            (
              refl,
              (
                refl,
                (
                  refl,
                  (
                    refl,
                    (
                      refl,
                      (
                        refl,
                        (
                          refl,
                          (
                            refl,
                            (
                              refl,
                              (
                                refl,
                                (
                                  refl,
                                  (
                                    refl,
                                    (
                                      refl,
                                      (
                                        refl,
                                        (refl, (refl, (refl, (refl, (refl, (refl, (refl, tt))))))),
                                      ),
                                    ),
                                  ),
                                ),
                              ),
                            ),
                          ),
                        ),
                      ),
                    ),
                  ),
                ),
              ),
            ),
          ),
        ),
      ),
    ),
  ),
)

web_new : occurrences (rule_line web web.position) (config_of filtering) ≤ 1
unfolding count str_eq
web_new = omega arith

web_once : occurrences (rule_line web (codes "insert")) (config_of filtering) ≤ 1
unfolding count str_eq
web_once = omega arith

filter_rule_set_example :
    (w' : World) × (sfirewall_filter_rules web filtering ≡ some (cmd_success, w'))
    × IsOnly
        (rule_line web web.position)
        (rule_line web (codes "insert"))
        (config_of filtering)
        (config_of w')
    × (w'.ran ≡ [])
    × ((w'' : World) × (no_sfirewall_filter_rules web w' ≡ some (cmd_success, w''))
        × (occurrences (rule_line web web.position) (config_of w'') ≡ 0))
filter_rule_set_example =
    filter_rule_set web (codes "insert") filtering web_passes (inr (refl, refl)) (omega arith)
      web_plain web_new web_once

abbrev mail : Portmap
mail = record {
  num = codes "10";
  interface = codes "wan";
  address = codes "192.168.5.200";
  protocol = codes "tcp";
  port1 = codes "25";
  port2 = codes "0";
}

mail-AllPortmaps : AllPortmaps (mail ∷ [])
unfolding lacks one_line
mail-AllPortmaps = (
  (
    (refl, refl, omega arith),
    (
      (refl, refl, omega arith),
      (
        (refl, refl, omega arith),
        ((refl, refl, omega arith), ((refl, refl, omega arith), ((refl, refl, omega arith), tt))),
      ),
    ),
  ),
  tt,
)

portmap_sections-redirects_example :
    portmap_sections (dump_lines (lines (mail ∷ []))) ≡ some (eol ++ redirects (mail ∷ []))
portmap_sections-redirects_example = portmap_sections-redirects (mail ∷ []) mail-AllPortmaps

web-AllFields : AllFields 64 (arguments web)
unfolding lacks one_line
web-AllFields = (
  (refl, refl, omega arith),
  (
    (refl, refl, omega arith),
    (
      (refl, refl, omega arith),
      (
        (refl, refl, omega arith),
        (
          (refl, refl, omega arith),
          (
            (refl, refl, omega arith),
            (
              (refl, refl, omega arith),
              (
                (refl, refl, omega arith),
                (
                  (refl, refl, omega arith),
                  (
                    (refl, refl, omega arith),
                    (
                      (refl, refl, omega arith),
                      ((refl, refl, omega arith), ((refl, refl, omega arith), tt)),
                    ),
                  ),
                ),
              ),
            ),
          ),
        ),
      ),
    ),
  ),
)

web-AllRules : AllRules (web ∷ web ∷ [])
unfolding str_eq
web-AllRules = ((web-AllFields, (refl, refl)), ((web-AllFields, (refl, refl)), tt))

filter_sections-sections_example :
    filter_sections (dump_lines (texts (web ∷ web ∷ [])))
    ≡ some (eol ++ sections (web ∷ web ∷ []) 0)
filter_sections-sections_example = filter_sections-sections (web ∷ web ∷ []) web-AllRules
