-- ===== src/Tests/Peering.antt =====
-- Peers that come and go, the port, and the link.
use qr_wireguard_ui.Base.{◌≡◌, ◌≤◌, ◌++◌, true, refl, some, List, [], ◌∷◌, arith}
use qr_wireguard_ui.Text.{CString, codes, starts_with, print_int, atoi_word}
use qr_wireguard_ui.Command.{cmd_success}
use qr_wireguard_ui.Config.Printf.{no_percent}
use qr_wireguard_ui.Config.Lines.{count}
use qr_wireguard_ui.Session.{vty_shell}
use qr_wireguard_ui.Session.Common.{is_file}
use qr_wireguard_ui.Cmd.{World, config_of}
use qr_wireguard_ui.Cmd.Replace.{Replaces}
use qr_wireguard_ui.Cmd.Vpn.{
  public_key, allowed_ips, endpoint, persistent_keepalive, link_up, link_down, wg_link,
}
use qr_wireguard_ui.Cmd.Vpn.Listen.{wg_listenport}
use qr_wireguard_ui.Cmd.Vpn.Port.{wg_listenport-Replaces}
use qr_wireguard_ui.Cmd.Vpn.Link.{HasLink, wg_link-HasLink}
use qr_wireguard_ui.Cmd.Vpn.Spec.{
  PeerCall, wg_peer, no_peer, handle_all, spec_run, view, AllTame, HasUniquePeers, Shows,
}
use qr_wireguard_ui.Cmd.Vpn.Refines.{handle_all-Shows}
use qr_wireguard_ui.Tests.Addresses.{works, router}

abbrev anna : CString
anna = codes "aaaaaaaaaaaaaaaaaaaaaaaaaaaaaaaaaaaaaaaaaaa="

abbrev bert : CString
bert = codes "bbbbbbbbbbbbbbbbbbbbbbbbbbbbbbbbbbbbbbbbbbb="

abbrev peered : World
peered = router (
    codes "hostname r1"
    ∷ codes "wg peer aaaaaaaaaaaaaaaaaaaaaaaaaaaaaaaaaaaaaaaaaaa= allowed-ips 10.0.0.2/32"
    ∷ [])

-- The key of the second call is too short, and the mask of the third begins with no digit.
abbrev calls : List PeerCall
calls =
    wg_peer bert (endpoint (codes "10.0.0.3/32") (codes "1.2.3.4:51820"))
    ∷ wg_peer (codes "b=") public_key
    ∷ wg_peer anna (allowed_ips (codes "all"))
    ∷ wg_peer bert (persistent_keepalive (codes "10.0.0.3/32") (codes "1.2.3.4:51820") (codes "25"))
    ∷ no_peer anna
    ∷ []

peered-HasUniquePeers : HasUniquePeers (config_of peered)
unfolding count starts_with
peered-HasUniquePeers k h = ground arith

calls-AllTame : AllTame calls
unfolding no_percent
calls-AllTame = (
  ((omega arith, (omega arith, (omega arith, tt))), (refl, (refl, (refl, tt)))),
  (
    ((omega arith, tt), (refl, tt)),
    (
      ((omega arith, (omega arith, tt)), (refl, (refl, tt))),
      (
        (
          (omega arith, (omega arith, (omega arith, (omega arith, tt)))),
          (refl, (refl, (refl, (refl, tt)))),
        ),
        (refl, tt),
      ),
    ),
  ),
)

handle_all-Shows_example :
    (w' : World) × (handle_all works calls peered ≡ some (tt, w'))
    × Shows (config_of w') (spec_run calls (view (config_of peered)))
handle_all-Shows_example = handle_all-Shows works calls peered peered-HasUniquePeers calls-AllTame

abbrev listening : World
listening = router (codes "wg link-down" ∷ codes "wg listenport 51820" ∷ [])

listening_once : count (starts_with (codes "wg listenport")) (config_of listening) ≤ 1
unfolding count starts_with
listening_once = omega arith

wg_listenport-Replaces_example :
    Replaces
      (codes "wg listenport")
      (codes "wg listenport " ++ (print_int (atoi_word (codes "4500")) ++ []))
      (wg_listenport works (codes "4500"))
      listening
wg_listenport-Replaces_example =
    wg_listenport-Replaces works (codes "4500") (omega arith) listening listening_once

ups : count (starts_with link_up) (config_of listening) ≤ 1
unfolding count starts_with
ups = omega arith

downs : count (starts_with link_down) (config_of listening) ≤ 1
unfolding count starts_with
downs = omega arith

wg_link-HasLink_example :
    ((w' : World) × (wg_link works (codes "link-up") listening ≡ some (cmd_success, w'))
      × HasLink link_up link_down (config_of listening) (config_of w')
      × (is_file vty_shell ≡ true → w'.ran ≡ []))
    × ((w' : World) × (wg_link works (codes "link-down") listening ≡ some (cmd_success, w'))
        × HasLink link_down link_up (config_of listening) (config_of w')
        × (is_file vty_shell ≡ true → w'.ran ≡ []))
wg_link-HasLink_example = wg_link-HasLink works listening ups downs
