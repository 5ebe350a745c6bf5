-- ===== src/Tests/Bridging.antt =====
-- Setting a bridge whose interfaces exist.
use qr_wireguard_ui.Base.{◌≡◌, ◌≤◌, ℕ, true, refl, none, List, [], ◌∷◌, arith}
use qr_wireguard_ui.Text.{CString, codes, starts_with, str_lt}
use qr_wireguard_ui.Config.{delete_first}
use qr_wireguard_ui.Config.Printf.{no_percent}
use qr_wireguard_ui.Config.Lines.{count}
use qr_wireguard_ui.Session.{config_node, vty_shell, Session, Step, returns}
use qr_wireguard_ui.Session.Bridge.{
  bridge_number, bridge_left, bridge_line, bridge_add, no_bridge_add, KeepsBridge, bridge_once,
}

abbrev works : List CString → CString → ℕ
works ran command = 0

abbrev bridged : Session
bridged = record {
  vty = record { type = vty_shell; node = config_node };
  host = record { name = none; enable = none; enable_encrypt = none; trytimes = 0 };
  config_top = codes "bridge 1 eth0 eth1" ∷ codes "bridge disable" ∷ [];
}

bridged_once : count (starts_with (bridge_left (bridge_number (codes "1")))) bridged.config_top ≤ 1
unfolding bridge_number count starts_with
bridged_once = omega arith

bridge_plain :
    no_percent (bridge_line (bridge_number (codes "1")) (codes "eth2") (codes "eth3")) ≡ true
unfolding bridge_number no_percent
bridge_plain = refl

abbrev config_of : Step → List CString
config_of (returns code s) = s.config_top
config_of _ = []

bridge_replaced :
    config_of (bridge_add works (codes "+1") (codes "eth2") (codes "eth3") bridged)
    ≡ codes "bridge 1 eth2 eth3" ∷ codes "bridge disable" ∷ []
unfolding bridge_add delete_first starts_with str_lt
bridge_replaced = refl

bridge_once_example :
    KeepsBridge
      (bridge_number (codes "1"))
      bridged
      (bridge_add works (codes "1") (codes "eth2") (codes "eth3") bridged)
    × KeepsBridge (bridge_number (codes "1")) bridged (no_bridge_add (codes "1") bridged)
bridge_once_example =
    bridge_once works (codes "1") (codes "eth2") (codes "eth3") bridged bridged_once bridge_plain
