-- ===== src/Tests/Rules.antt =====
-- Setting and clearing a port forwarding rule.
use qr_wireguard_ui.Base.{◌≡◌, ◌<◌, true, false, refl, none, some, [], ◌∷◌, arith, length}
use qr_wireguard_ui.Text.{codes, is_digit, str_eq, str_lt}
use qr_wireguard_ui.Command.{cmd_success}
use qr_wireguard_ui.Config.Printf.{no_percent}
use qr_wireguard_ui.Config.Order.{IsSorted}
use qr_wireguard_ui.Config.Lines.{count, occurrences}
use qr_wireguard_ui.Session.{config_node, vty_shell, Session, returns}
use qr_wireguard_ui.Session.Portmap.{
  Portmap, is_refused, portmap_line, sfirewall_nat_portmap, no_sfirewall_nat_portmap,
  portmap_set_clear,
}

abbrev web : Portmap
web = record {
  num = codes "10";
  interface = codes "wan";
  address = codes "192.168.5.200";
  protocol = codes "tcp";
  port1 = codes "8080";
  port2 = codes "80";
}

abbrev configured : Session
configured = record {
  vty = record { type = vty_shell; node = config_node };
  host = record { name = none; enable = none; enable_encrypt = none; trytimes = 0 };
  config_top = codes "dns 1.1.1.1" ∷ codes "hostname r1" ∷ [];
}

web-accepted : is_refused web ≡ false
unfolding is_refused is_digit str_eq
web-accepted = refl

web_short : length (portmap_line web) < 1024
unfolding portmap_line
web_short = omega arith

web_plain : no_percent (portmap_line web) ≡ true
unfolding portmap_line no_percent
web_plain = refl

configured-IsSorted : IsSorted configured.config_top
unfolding str_lt
configured-IsSorted = ((refl, tt), (tt, tt))

web_new : occurrences (portmap_line web) configured.config_top ≡ 0
unfolding portmap_line count str_eq
web_new = refl

portmap_set_clear_example :
    (s' : Session) × (sfirewall_nat_portmap web configured ≡ returns (some cmd_success) s')
    × (occurrences (portmap_line web) s'.config_top ≡ 1)
    × (no_sfirewall_nat_portmap web s' ≡ returns (some cmd_success) configured)
portmap_set_clear_example =
    portmap_set_clear web configured web-accepted web_short web_plain configured-IsSorted web_new
