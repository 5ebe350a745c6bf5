-- ===== src/Tests/Addresses.antt =====
-- Setting addresses and name servers, and a name that is no interface.
use qr_wireguard_ui.Base.{◌⊎◌, ◌≡◌, ◌≤◌, true, false, refl, none, List, [], ◌∷◌, arith}
use qr_wireguard_ui.Text.{CString, codes, str_eq, starts_with}
use qr_wireguard_ui.Config.Printf.{no_percent}
use qr_wireguard_ui.Config.Lines.{count}
use qr_wireguard_ui.Session.{config_node, vty_shell}
use qr_wireguard_ui.Cmd.{World, System, concat, config_of}
use qr_wireguard_ui.Cmd.Parts.{AllPlain}
use qr_wireguard_ui.Cmd.Replace.{Replaces}
use qr_wireguard_ui.Cmd.Ip.{
  is_interface, ip_left, ip_line, ip_address, ip_address_dhcp, no_ip_address, ip_route, config_dns,
}
use qr_wireguard_ui.Cmd.Ip.Names.{IsInterface, Warns, ip_address-IsInterface}
use qr_wireguard_ui.Cmd.Ip.Sets.{
  nameserver_line, ip_address-Replaces, ip_address_dhcp-Replaces, config_dns-Replaces,
}

-- All programs succeed and all files open; there is nothing to read.
abbrev pub works : System
works = record {
  status = λ ran command. 0;
  is_there = λ ran path. false;
  opens = λ ran path. true;
  contents = λ ran path. none;
}

abbrev pub router : List CString → World
router config = record {
  session = record {
    vty = record { type = vty_shell; node = config_node };
    host = record { name = none; enable = none; enable_encrypt = none; trytimes = 0 };
    config_top = config;
  };
  ran = [];
}

abbrev addressed : World
addressed = router (
    codes "hostname r1"
    ∷ codes "ip address lan 10.0.0.1 255.0.0.0"
    ∷ codes "nameserver 1.1.1.1 8.8.8.8"
    ∷ [])

lan-IsInterface : is_interface (codes "lan") ≡ true
unfolding is_interface str_eq
lan-IsInterface = refl

plain : AllPlain (codes "lan" ∷ codes "10.0.0.2" ∷ codes "255.0.0.0" ∷ [])
unfolding no_percent
plain = (refl, (refl, (refl, tt)))

lan_once : count (starts_with (concat (ip_left (codes "lan")))) (config_of addressed) ≤ 1
unfolding count starts_with
lan_once = omega arith

ip_address-Replaces_example :
    Replaces
      (codes "ip address lan")
      (codes "ip address lan 10.0.0.2 255.0.0.0")
      (ip_address works (codes "lan") (codes "10.0.0.2") (codes "255.0.0.0"))
      addressed
ip_address-Replaces_example =
    ip_address-Replaces works (codes "lan") (codes "10.0.0.2") (codes "255.0.0.0") (omega arith)
      (omega arith) (omega arith) addressed lan-IsInterface plain lan_once

wan_once : count (starts_with (codes "ip address wan")) (config_of addressed) ≤ 1
unfolding count starts_with
wan_once = omega arith

ip_address_dhcp-Replaces_example :
    Replaces
      (codes "ip address wan")
      (codes "ip address wan dhcp")
      (ip_address_dhcp works (codes "wan"))
      addressed
ip_address_dhcp-Replaces_example = ip_address_dhcp-Replaces works addressed wan_once

dns_once : count (starts_with (codes "nameserver")) (config_of addressed) ≤ 1
unfolding count starts_with
dns_once = omega arith

config_dns-Replaces_example :
    Replaces
      (codes "nameserver")
      (nameserver_line (codes "9.9.9.9") (codes "1.1.1.1"))
      (config_dns works (codes "9.9.9.9") (codes "1.1.1.1"))
      addressed
config_dns-Replaces_example =
    config_dns-Replaces works (codes "9.9.9.9") (codes "1.1.1.1") addressed (λ ran. refl) dns_once

ip_address-IsInterface_example :
    IsInterface (codes "lan")
      × Replaces
          (concat (ip_left (codes "lan")))
          (concat (ip_line (codes "lan") (codes "10.0.0.2") (codes "255.0.0.0")))
          (ip_address works (codes "lan") (codes "10.0.0.2") (codes "255.0.0.0"))
          addressed
    ⊎ (¬ IsInterface (codes "lan"))
      × Warns (ip_address works (codes "lan") (codes "10.0.0.2") (codes "255.0.0.0")) addressed
      × Warns (ip_address_dhcp works (codes "lan")) addressed
      × Warns (no_ip_address works none (codes "lan")) addressed
      × Warns
          (ip_route works (codes "10.9.0.0") (codes "255.0.0.0") (codes "10.0.0.3") (codes "lan"))
          addressed
ip_address-IsInterface_example =
    ip_address-IsInterface works (codes "lan") (codes "10.0.0.2") (codes "255.0.0.0")
      (codes "10.9.0.0") (codes "10.0.0.3") none addressed (omega arith) (omega arith) (omega arith)
      plain lan_once
