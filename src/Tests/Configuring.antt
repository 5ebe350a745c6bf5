-- ===== src/Tests/Configuring.antt =====
-- Changes of the running configuration, and the commands of the host name.
use qr_wireguard_ui.Base.{◌-◌, ◌≤◌, true, false, ◌≡◌, refl, none, some, List, [], ◌∷◌, arith}
use qr_wireguard_ui.Text.{CString, codes, str_eq, str_lt, starts_with}
use qr_wireguard_ui.Config.{
  add_before, delete_first, config_del_line_byleft, config_get_line_byleft, config_add_line,
}
use qr_wireguard_ui.Config.Printf.{vasprintf}
use qr_wireguard_ui.Config.Order.{
  IsSorted, Reach, start, after, add_line, del_line_byleft, Reach-IsSorted, delete_first-add_before,
}
use qr_wireguard_ui.Config.Lines.{count, occurrences, replace_byleft}
use qr_wireguard_ui.Session.{NodeType, config_node, vty_shell, Session}
use qr_wireguard_ui.Session.Common.{succeeds, is_alpha, config_hostname, config_no_hostname}
use qr_wireguard_ui.Session.Common.Hostname.{
  HasName, config_hostname-HasName, config_no_hostname-count,
}
use qr_wireguard_ui.Tests.{not_nil}

abbrev pub old_config : List CString
old_config = codes "dns 1.1.1.1" ∷ codes "hostname old" ∷ codes "ip address eth0 dhcp" ∷ []

hostname_printed : vasprintf (codes "hostname %s") (codes "r1" ∷ []) ≡ some (codes "hostname r1")
unfolding vasprintf
hostname_printed = refl

hostname_starts : starts_with (codes "hostname") (codes "hostname r1") ≡ true
unfolding starts_with
hostname_starts = refl

hostname_once : count (starts_with (codes "hostname")) old_config ≤ 1
unfolding count starts_with
hostname_once = omega arith

replace_byleft_example :
    (d : List CString) × (config_add_line
        (config_del_line_byleft old_config (codes "hostname"))
        (codes "hostname %s")
        (codes "r1" ∷ [])
      ≡ some d)
    × (count (starts_with (codes "hostname")) d ≡ 1)
    × (config_get_line_byleft d (codes "hostname") ≡ some (codes "hostname r1"))
    × ((l : CString)
        → starts_with (codes "hostname") l ≡ false
        → occurrences l d ≡ occurrences l old_config)
replace_byleft_example =
    replace_byleft old_config (codes "hostname") (codes "hostname %s") (codes "r1" ∷ [])
      (codes "hostname r1") (not_nil _ _) hostname_printed hostname_starts hostname_once

old_config-IsSorted : IsSorted old_config
unfolding str_lt
old_config-IsSorted = ((refl, (refl, tt)), ((refl, tt), (tt, tt)))

delete_first-add_before_example :
    delete_first
      (λ pnt. str_eq pnt (codes "dns 8.8.8.8"))
      (add_before str_lt (codes "dns 8.8.8.8") old_config)
    ≡ old_config
delete_first-add_before_example =
    delete_first-add_before (codes "dns 8.8.8.8") old_config old_config-IsSorted

abbrev two_lines : List CString
two_lines = codes "bridge" ∷ codes "hostname r1" ∷ []

two_lines-Reach : Reach two_lines
unfolding config_add_line config_del_line_byleft starts_with delete_first str_lt
two_lines-Reach =
    after (add_line (codes "bridge") [])
      (after (add_line (codes "hostname %s") (codes "r1" ∷ []))
        (after (del_line_byleft (codes "hostname")) start refl) refl)
      refl

Reach-IsSorted_example : IsSorted two_lines
Reach-IsSorted_example = Reach-IsSorted two_lines-Reach

abbrev pub terminal : NodeType → Session
terminal node = record {
  vty = record { type = vty_shell; node = node };
  host = record {
    name = none;
    enable = none;
    enable_encrypt = some (codes "abSECRET");
    trytimes = 0;
  };
  config_top = old_config;
}

r1_alpha : is_alpha (codes "r1") ≡ true
unfolding is_alpha
r1_alpha = refl

config_hostname-HasName_example :
    (s' : Session) × (config_hostname (codes "r1" ∷ []) (terminal config_node) ≡ succeeds s')
    × HasName (codes "r1") (terminal config_node) s'
config_hostname-HasName_example =
    config_hostname-HasName (codes "r1") [] (terminal config_node) r1_alpha (omega arith)
      hostname_once

config_no_hostname-count_example :
    (s' : Session) × (config_no_hostname (terminal config_node) ≡ succeeds s')
    × (s'.host.name ≡ none)
    × (count (starts_with (codes "hostname ")) s'.config_top
        ≡ count (starts_with (codes "hostname ")) old_config - 1)
    × ((l : CString)
        → starts_with (codes "hostname ") l ≡ false
        → occurrences l s'.config_top ≡ occurrences l old_config)
config_no_hostname-count_example = config_no_hostname-count (terminal config_node)
