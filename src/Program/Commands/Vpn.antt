-- ===== src/Program/Commands/Vpn.antt =====
-- The commands of cmd/cmd_vpn.c.
use qr_wireguard_ui.Text.{codes}
use qr_wireguard_ui.Session.Shell.{other_func, prints_func}
use qr_wireguard_ui.Program.{
  no_wg_peer_func, wg_clearkey_func, wg_link_func, wg_listenport_func, wg_peer_allowed_ips_func,
  wg_peer_endpoint_func, wg_peer_persistent_keepalive_func, wg_peer_public_key_func, wg_rekey_func,
}
use qr_wireguard_ui.Program.Commands.{Element, defun}

abbrev pub wg_listenport_cmd : Element
wg_listenport_cmd =
    defun (codes "wg listenport NUM") (other_func wg_listenport_func)
      (codes "Configure WireGuard rules\nListening port\n1024 ~ 65535\n")

abbrev pub wg_peer_public_key_cmd : Element
wg_peer_public_key_cmd =
    defun (codes "wg peer PUBLICKEY") (other_func wg_peer_public_key_func)
      (codes "Configure WireGuard rules\nSpecify peer information\nPublic key\n")

abbrev pub wg_peer_allowed_ips_cmd : Element
wg_peer_allowed_ips_cmd =
    defun (codes "wg peer PUBLICKEY allowed-ips WORD") (other_func wg_peer_allowed_ips_func) (
      codes
        "Configure WireGuard rules\nSpecify peer information\nPublic key\nAllow ip addresses\nip network e.g. 192.168.1.0/24,172.16.0.0/16\n")

abbrev pub wg_peer_endpoint_cmd : Element
wg_peer_endpoint_cmd =
    defun (codes "wg peer PUBLICKEY allowed-ips WORD endpoint (none|FQDN:PORT|A.B.C.D:PORT)")
      (other_func wg_peer_endpoint_func)
      (codes
        "Configure WireGuard rules\nSpecify peer information\nPublic key\nAllow ip addresses\nip network e.g. 192.168.1.0/24,172.16.0.0/16\nEndpoint information\nno ip address and port\nFQDN and port e.g. test.yourdomain.com:12345\nip address and port e.g. x.x.x.x:y\n")

abbrev pub wg_peer_persistent_keepalive_cmd : Element
wg_peer_persistent_keepalive_cmd =
    defun
      (codes
        "wg peer PUBLICKEY allowed-ips WORD endpoint (none|FQDN:PORT|A.B.C.D:PORT) persistent-keepalive (off|NUM)")
      (other_func wg_peer_persistent_keepalive_func)
      (codes
        "Configure WireGuard rules\nSpecify peer information\nPublic key\nAllow ip addresses\nip network e.g. 192.168.1.0/24,172.16.0.0/16\nEndpoint information\nno ip address and port\nFQDN and port e.g. test.yourdomain.com:12345\nip address and port e.g. x.x.x.x:y\nSet persistent-keepalive time\nno keepalive\nSeconds 1-1800\n")

abbrev pub no_wg_peer_cmd : Element
no_wg_peer_cmd = defun (codes "no wg peer PUBLICKEY") (other_func no_wg_peer_func) (
    codes
      "Negate a command or set its defaults\nConfigure WireGuard rules\nSpecify peer information\nPublic key\n")

abbrev pub wg_link_cmd : Element
wg_link_cmd =
    defun (codes "wg (link-up|link-down)") (other_func wg_link_func)
      (codes "Configure WireGuard rules\nEnable wireguard link\nDisable wireguard link\n")

abbrev pub wg_rekey_cmd : Element
wg_rekey_cmd =
    defun (codes "wg regenerate-key") (other_func wg_rekey_func)
      (codes "Configure WireGuard rules\nRegenerate private & public keys\n")

abbrev pub wg_clearkey_cmd : Element
wg_clearkey_cmd =
    defun (codes "wg clear-key") (other_func wg_clearkey_func)
      (codes "Configure WireGuard rules\nRemove curve25519 private & public keys\n")

abbrev pub show_wg_cmd : Element
show_wg_cmd =
    defun (codes "show wg") prints_func
      (codes "Show running system information\nShow the wireguard tunnel info\n")

abbrev pub show_wg_conf_cmd : Element
show_wg_conf_cmd = defun (codes "show wg ETHNAME") prints_func (
    codes
      "Show running system information\nShow the wireguard tunnel info\nShow the tunnel info for the specified interface\n")
