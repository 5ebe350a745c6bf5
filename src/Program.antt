-- ===== src/Program.antt =====
-- The handlers of wgshell/vtysh/cmd together: each C function on `argv`, as a step of the session.
pub mod Commands
pub mod Install
pub mod Saved
pub mod Climb
pub mod Main
use qr_wireguard_ui.Base.{ℕ, Option, none, some, List, [], ◌∷◌}
use qr_wireguard_ui.Text.{CString, codes}
use qr_wireguard_ui.Command.{Code}
use qr_wireguard_ui.Session.{Session, Step, faults, returns}
use qr_wireguard_ui.Session.Bridge.{bridge_add, no_bridge_add}
use qr_wireguard_ui.Session.Portmap.{Portmap, sfirewall_nat_portmap, no_sfirewall_nat_portmap}
use qr_wireguard_ui.Cmd.{Request, shell, World, System, M}
use qr_wireguard_ui.Cmd.Bridge.{bridge_disable, no_bridge_disable}
use qr_wireguard_ui.Cmd.Report.{config_write_file, show_startup_config, show_bridge_mac, executed}
use qr_wireguard_ui.Cmd.Tool.{
  config_sh, config_ping, config_ping_count, config_ssh, config_ssh_port, config_reboot,
  config_poweroff,
}
use qr_wireguard_ui.Cmd.Ip.{
  ip_address, no_ip_address, ip_address_dhcp, ip_route, no_ip_route, config_dns, config_no_dns,
}
use qr_wireguard_ui.Cmd.Vpn.{
  wg_peer_public_key, wg_peer_allowed_ips, wg_peer_endpoint, wg_peer_persistent_keepalive,
  no_wg_peer, wg_link, wg_rekey, wg_clearkey,
}
use qr_wireguard_ui.Cmd.Vpn.Listen.{wg_listenport}
use qr_wireguard_ui.Cmd.Fw.Rule.{FilterRule, sfirewall_filter_rules, no_sfirewall_filter_rules}
use qr_wireguard_ui.Cmd.Fw.Apply.Handlers.{
  sfirewall_nat_portmap_apply, sfirewall_filter_rules_apply,
}

-- What `func` points at outside cmd/cmd_common.c.
pub data Handler : Type 0 where
  bridge_disable_func no_bridge_disable_func bridge_add_func no_bridge_add_func : Handler
  config_sh_func config_ping_func config_ping_count_func config_ssh_func : Handler
  config_ssh_port_func config_reboot_func config_poweroff_func : Handler
  ip_address_func no_ip_address_func ip_address_dhcp_func ip_route_func : Handler
  no_ip_route_func config_dns_func config_no_dns_func : Handler
  sfirewall_nat_portmap_func no_sfirewall_nat_portmap_func : Handler
  sfirewall_nat_portmap_apply_func sfirewall_filter_rules_func : Handler
  no_sfirewall_filter_rules_func sfirewall_filter_rules_apply_func : Handler
  wg_listenport_func wg_peer_public_key_func wg_peer_allowed_ips_func : Handler
  wg_peer_endpoint_func wg_peer_persistent_keepalive_func no_wg_peer_func : Handler
  wg_link_func wg_rekey_func wg_clearkey_func : Handler
  config_write_file_func show_startup_config_func show_bridge_mac_func : Handler
  config_tcpdump_func show_date_func net_netstat_info_func : Handler

-- A handler that is called in a session, with no requests before it.
abbrev pub step : M Code → Session → Step
step m s = elim (m (record { session = s; ran = [] })) [
  | none ↦ faults
  | some (code, w) ↦ returns (some code) w.session
]

abbrev shells : List CString → List Request
shells [] = []
shells (command ∷ ran) = shell command ∷ shells ran

abbrev on_portmap : (Portmap → Session → Step) → List CString → Session → Step
on_portmap f (num ∷ interface ∷ address ∷ protocol ∷ port1 ∷ port2 ∷ argv) s =
    f
      (record {
        num = num;
        interface = interface;
        address = address;
        protocol = protocol;
        port1 = port1;
        port2 = port2;
      })
      s
on_portmap f _ s = faults

abbrev on_rule : (FilterRule → M Code) → List CString → Session → Step
on_rule f
      (num ∷ zone ∷ direction ∷ position ∷ action ∷ protocol ∷ sip ∷ sport ∷ dip ∷ dport ∷ day
        ∷ from_time ∷ to_time ∷ argv)
      s =
    step
      (f (record {
        num = num;
        zone = zone;
        direction = direction;
        position = position;
        action = action;
        protocol = protocol;
        sip = sip;
        sport = sport;
        dip = dip;
        dport = dport;
        day = day;
        from_time = from_time;
        to_time = to_time;
      }))
      s
on_rule f _ s = faults

-- The system that answers to a call in a session, and what `fgets` reads from the terminal; an
-- argument that is not there is read.
module _ (systems : Session → System) (stdin : Session → Option CString) where
  unfoldable pub handle : Handler → List CString → Session → Step
  handle bridge_disable_func argv s = step bridge_disable s
  handle no_bridge_disable_func argv s = step no_bridge_disable s
  handle bridge_add_func (num ∷ eth1 ∷ eth2 ∷ argv) s =
      bridge_add (λ ran command. (systems s).status (shells ran) command) num eth1 eth2 s
  handle no_bridge_add_func (num ∷ argv) s = no_bridge_add num s
  handle config_sh_func (word ∷ argv) s = step (config_sh (systems s) word) s
  handle config_ping_func (dest ∷ argv) s = step (config_ping dest) s
  handle config_ping_count_func (dest ∷ count ∷ argv) s = step (config_ping_count dest count) s
  handle config_ssh_func (dest ∷ argv) s = step (config_ssh dest) s
  handle config_ssh_port_func (dest ∷ port ∷ argv) s = step (config_ssh_port dest port) s
  handle config_reboot_func argv s = config_reboot (stdin s) s
  handle config_poweroff_func argv s = step (config_poweroff (systems s) (stdin s)) s
  handle ip_address_func (name ∷ addr ∷ mask ∷ argv) s =
      step (ip_address (systems s) name addr mask) s
  handle no_ip_address_func (name ∷ argv) s = step (no_ip_address (systems s) (stdin s) name) s
  handle ip_address_dhcp_func (name ∷ argv) s = step (ip_address_dhcp (systems s) name) s
  handle ip_route_func (target ∷ mask ∷ gateway ∷ name ∷ argv) s =
      step (ip_route (systems s) target mask gateway name) s
  handle no_ip_route_func (target ∷ mask ∷ argv) s = step (no_ip_route (systems s) target mask) s
  handle config_dns_func (addr1 ∷ addr2 ∷ argv) s = step (config_dns (systems s) addr1 addr2) s
  handle config_no_dns_func argv s = step (config_no_dns (systems s)) s
  handle sfirewall_nat_portmap_func argv s = on_portmap sfirewall_nat_portmap argv s
  handle no_sfirewall_nat_portmap_func argv s = on_portmap no_sfirewall_nat_portmap argv s
  handle sfirewall_nat_portmap_apply_func argv s = step (sfirewall_nat_portmap_apply (systems s)) s
  handle sfirewall_filter_rules_func argv s = on_rule sfirewall_filter_rules argv s
  handle no_sfirewall_filter_rules_func argv s = on_rule no_sfirewall_filter_rules argv s
  handle sfirewall_filter_rules_apply_func argv s =
      step (sfirewall_filter_rules_apply (systems s)) s
  handle wg_listenport_func (num ∷ argv) s = step (wg_listenport (systems s) num) s
  handle wg_peer_public_key_func (key ∷ argv) s = step (wg_peer_public_key (systems s) key) s
  handle wg_peer_allowed_ips_func (key ∷ ips ∷ argv) s =
      step (wg_peer_allowed_ips (systems s) key ips) s
  handle wg_peer_endpoint_func (key ∷ ips ∷ end ∷ argv) s =
      step (wg_peer_endpoint (systems s) key ips end) s
  handle wg_peer_persistent_keepalive_func (key ∷ ips ∷ end ∷ time ∷ argv) s =
      step (wg_peer_persistent_keepalive (systems s) key ips end time) s
  handle no_wg_peer_func (key ∷ argv) s = step (no_wg_peer (systems s) key) s
  handle wg_link_func (direction ∷ argv) s = step (wg_link (systems s) direction) s
  handle wg_rekey_func argv s = step (wg_rekey (systems s)) s
  handle wg_clearkey_func argv s = step (wg_clearkey (systems s)) s
  handle config_write_file_func argv s = step (config_write_file (systems s)) s
  handle show_startup_config_func argv s = step (show_startup_config (systems s)) s
  handle show_bridge_mac_func (name ∷ argv) s = show_bridge_mac (systems s) name s
  handle config_tcpdump_func (interface ∷ expression ∷ argv) s =
      executed (systems s) (codes "tcpdump") s
  handle show_date_func argv s = executed (systems s) (codes "date") s
  handle net_netstat_info_func argv s = executed (systems s) (codes "netstat") s
  handle _ argv s = faults
