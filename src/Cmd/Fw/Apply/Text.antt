-- ===== src/Cmd/Fw/Apply/Text.antt =====
-- The section that a filter rule stands for, in the words of the firewall.
use qr_wireguard_ui.Base.{
  ℕ, true, ◌≡◌, refl, inl, inr, List, [], ◌∷◌, ◌++◌, ◌==◌, arith, if◌then◌else◌, Bool-cases,
}
use qr_wireguard_ui.Text.{CString, codes, str_eq, print_int}
use qr_wireguard_ui.Cmd.{concat}
use qr_wireguard_ui.Cmd.Fw.Apply.{
  bars_to_blanks, rule_section, action_index, zone_options, action_text,
}
use qr_wireguard_ui.Cmd.Fw.Rule.{FilterRule, is_one_of, actions, zones, arguments}

-- The value of a word in a table.
abbrev value_of : CString → List (CString × CString) → CString
value_of word [] = []
value_of word ((key, value) ∷ table) = if str_eq word key then value else value_of word table

-- Where the traffic of a zone comes from, and where it goes.
abbrev pub source : CString → CString
source zone = value_of zone ((codes "lan2wan", codes "lan") ∷ (codes "wan2lan", codes "wan") ∷ [])

abbrev pub destination : CString → CString
destination zone =
    value_of zone ((codes "lan2wan", codes "wan") ∷ (codes "wan2lan", codes "lan") ∷ [])

abbrev pub target : CString → CString
target action = value_of action (
    (codes "permit", codes "ACCEPT")
    ∷ (codes "deny", codes "DROP")
    ∷ (codes "reject", codes "REJECT")
    ∷ [])

-- The days with blanks between them.
abbrev pub week_days : CString → CString
week_days [] = []
week_days (c ∷ day) = (if c == b'|' then b' ' else c) ∷ week_days day

abbrev option_line : CString → CString → CString
option_line name value = codes "        option " ++ (name ++ (codes " '" ++ (value ++ codes "'\n")))

abbrev unless_any : CString → CString → CString
unless_any value text = if str_eq value (codes "any") then [] else text

abbrev pub section : FilterRule → ℕ → CString
section r number = concat (
    codes "config rule\n"
    ∷ (option_line (codes "src") (source r.zone) ++ option_line (codes "dest") (destination r.zone))
    ∷ option_line (codes "proto") r.protocol
    ∷ option_line (codes "family") (codes "ipv4")
    ∷ option_line (codes "src_ip") r.sip
    ∷ unless_any r.sport (option_line (codes "src_port") r.sport)
    ∷ option_line (codes "dest_ip") r.dip
    ∷ unless_any r.dport (option_line (codes "dest_port") r.dport)
    ∷ unless_any (week_days r.day) (option_line (codes "weekdays") (week_days r.day))
    ∷ unless_any r.from_time
        (option_line (codes "start_time") r.from_time ++ option_line (codes "stop_time") r.to_time)
    ∷ option_line (codes "target") (target r.action)
    ∷ option_line (codes "name") (codes "SFIREWALL_FILTER" ++ print_int number)
    ∷ option_line (codes "enabled") (codes "1")
    ∷ codes "\n"
    ∷ [])

bars_to_blanks_lem : (day : CString) → bars_to_blanks day ≡ week_days day
unfolding bars_to_blanks
bars_to_blanks_lem [] = refl
bars_to_blanks_lem (c ∷ day) = rw (bars_to_blanks_lem day) refl

-- A rule whose zone and action are known.
abbrev pub IsKnown : FilterRule → Type 0
IsKnown r = (is_one_of r.zone zones ≡ true) × (is_one_of r.action actions ≡ true)

zone_options_lem :
    (zone : CString)
    → is_one_of zone zones ≡ true
    → zone_options zone
      ≡ option_line (codes "src") (source zone) ++ option_line (codes "dest") (destination zone)
zone_options_lem zone known = elim (Bool-cases (str_eq zone (codes "lan2wan"))) [
  | inl out ↦ rw out refl
  | inr other ↦ elim (Bool-cases (str_eq zone (codes "wan2lan"))) [
    | inl back ↦ rw (other, back) refl
    | inr neither ↦ absurd (ground (arith, known, other, neither))
  ]
]

action_text_lem :
    (action : CString)
    → is_one_of action actions ≡ true
    → action_text (action_index action 0) ≡ target action
unfolding action_index
action_text_lem action known = elim (Bool-cases (str_eq action (codes "permit"))) [
  | inl permit ↦ rw permit refl
  | inr other ↦ elim (Bool-cases (str_eq action (codes "deny"))) [
    | inl deny ↦ rw (other, deny) refl
    | inr other' ↦ elim (Bool-cases (str_eq action (codes "reject"))) [
      | inl reject ↦ rw (other, other', reject) refl
      | inr none_of ↦ absurd (ground (arith, known, other, other', none_of))
    ]
  ]
]

pub rule_section-section :
    (r : FilterRule) (count : ℕ)
    → IsKnown r
    → rule_section (arguments r) (action_index r.action 0) count ≡ section r count
unfolding rule_section
rule_section-section r count (zone, action) =
    rw (zone_options_lem r.zone zone, action_text_lem r.action action, bars_to_blanks_lem r.day)
      refl
