-- ===== src/Program/Install.antt =====
-- cmd_init.c and the `cmd_..._init` functions: the commands of each node, in the order in which they
-- are installed. `cmd_sort_node`, which sorts them afterwards, is left out.
use mathlib.Core.Option
use qr_wireguard_ui.Base.{Option, none, some, List, [], ◌∷◌, ◌++◌}
use qr_wireguard_ui.Command.Execute.{CmdVector}
use qr_wireguard_ui.Command.Install.{cmd_install_element}
use qr_wireguard_ui.Session.{NodeType, view_node, enable_node, config_node}
use qr_wireguard_ui.Session.Shell.{Func}
use qr_wireguard_ui.Program.{Handler}
use qr_wireguard_ui.Program.Commands.{Element}
use qr_wireguard_ui.Program.Commands.Bridge.{
  bridge_add_cmd, bridge_disable_cmd, no_bridge_add_cmd, no_bridge_disable_cmd, show_bridge_cmd,
  show_bridge_mac_cmd,
}
use qr_wireguard_ui.Program.Commands.Common.{
  config_disable_cmd, config_enable_cmd, config_exit_cmd, config_list_cmd, config_terminal_cmd,
  config_write_cmd, config_write_file_cmd, config_write_memory_cmd, config_write_terminal_cmd,
  hostname_cmd, no_hostname_cmd, show_cpuinfo_cmd, show_interruptsinfo_cmd, show_meminfo_cmd,
  show_running_config_cmd, show_startup_config_cmd, show_uptime_cmd, show_version_cmd,
}
use qr_wireguard_ui.Program.Commands.Tool.{
  config_ping_cmd, config_ping_cmd_count, config_poweroff_cmd, config_reboot_cmd, config_sh_cmd,
  config_ssh_cmd, config_ssh_port_cmd, config_sysinfo_cmd, config_tcpdump_cmd, net_netstat_info_cmd,
  show_date_cmd,
}
use qr_wireguard_ui.Program.Commands.Ip.{
  config_dns_cmd, config_no_dns_cmd, ip_address_cmd, ip_address_dhcp_cmd, ip_route_cmd,
  no_ip_address_cmd, no_ip_route_cmd, show_ip_address_cmd, show_ip_config_cmd,
  show_ip_config_name_cmd, show_ip_route_cmd,
}
use qr_wireguard_ui.Program.Commands.Firewall.{
  no_sfirewall_filter_rules_cmd, no_sfirewall_nat_portmap_cmd, sfirewall_filter_rules_apply_cmd,
  sfirewall_filter_rules_cmd, sfirewall_nat_portmap_apply_cmd, sfirewall_nat_portmap_cmd,
  show_sfirewall_cmd,
}
use qr_wireguard_ui.Program.Commands.Vpn.{
  no_wg_peer_cmd, show_wg_cmd, show_wg_conf_cmd, wg_clearkey_cmd, wg_link_cmd, wg_listenport_cmd,
  wg_peer_allowed_ips_cmd, wg_peer_endpoint_cmd, wg_peer_persistent_keepalive_cmd,
  wg_peer_public_key_cmd, wg_rekey_cmd,
}

-- The calls of `cmd_install_element` for one node; `none` leaves the process.
unfoldable pub install_all :
    List Element → CmdVector (Func Handler) → Option (CmdVector (Func Handler))
unfolding cmd_install_element
install_all [] v = some v
install_all (e ∷ rest) v = Option.bind (cmd_install_element v e) (install_all rest)

-- The commands that a file installs in a node.
abbrev pub cmd_bridge_init : NodeType → List Element
cmd_bridge_init enable_node = show_bridge_cmd ∷ show_bridge_mac_cmd ∷ []
cmd_bridge_init config_node =
    bridge_disable_cmd ∷ no_bridge_disable_cmd ∷ bridge_add_cmd ∷ no_bridge_add_cmd ∷ []
cmd_bridge_init _ = []

abbrev pub cmd_common_init : NodeType → List Element
cmd_common_init view_node =
    show_version_cmd ∷ config_exit_cmd ∷ config_enable_cmd ∷ show_cpuinfo_cmd ∷ show_meminfo_cmd
    ∷ show_interruptsinfo_cmd ∷ show_uptime_cmd ∷ []
cmd_common_init enable_node =
    show_version_cmd ∷ config_exit_cmd ∷ config_list_cmd ∷ config_write_terminal_cmd
    ∷ config_write_file_cmd ∷ config_write_memory_cmd ∷ config_write_cmd ∷ show_cpuinfo_cmd
    ∷ show_meminfo_cmd ∷ show_interruptsinfo_cmd ∷ show_uptime_cmd ∷ config_disable_cmd
    ∷ config_terminal_cmd ∷ show_running_config_cmd ∷ show_startup_config_cmd ∷ []
cmd_common_init config_node =
    show_version_cmd ∷ config_exit_cmd ∷ config_write_terminal_cmd ∷ config_write_file_cmd
    ∷ config_write_memory_cmd ∷ config_write_cmd ∷ show_running_config_cmd ∷ show_startup_config_cmd
    ∷ hostname_cmd ∷ no_hostname_cmd ∷ []
cmd_common_init _ = []

abbrev pub cmd_tool_init : NodeType → List Element
cmd_tool_init view_node =
    config_ping_cmd ∷ config_ping_cmd_count ∷ config_ssh_cmd ∷ config_ssh_port_cmd ∷ []
cmd_tool_init enable_node =
    config_ping_cmd ∷ config_ping_cmd_count ∷ config_ssh_cmd ∷ config_ssh_port_cmd
    ∷ config_tcpdump_cmd ∷ net_netstat_info_cmd ∷ config_sysinfo_cmd ∷ show_date_cmd ∷ []
cmd_tool_init config_node =
    config_ping_cmd ∷ config_ping_cmd_count ∷ config_reboot_cmd ∷ config_poweroff_cmd
    ∷ config_ssh_cmd ∷ config_ssh_port_cmd ∷ show_date_cmd ∷ config_sh_cmd ∷ []
cmd_tool_init _ = []

abbrev pub cmd_ip_init : NodeType → List Element
cmd_ip_init enable_node =
    show_ip_address_cmd ∷ show_ip_config_cmd ∷ show_ip_config_name_cmd ∷ show_ip_route_cmd ∷ []
cmd_ip_init config_node =
    show_ip_address_cmd ∷ show_ip_config_cmd ∷ show_ip_config_name_cmd ∷ show_ip_route_cmd
    ∷ ip_address_cmd ∷ no_ip_address_cmd ∷ ip_address_dhcp_cmd ∷ ip_route_cmd ∷ no_ip_route_cmd
    ∷ config_dns_cmd ∷ config_no_dns_cmd ∷ []
cmd_ip_init _ = []

abbrev pub cmd_firewall_init : NodeType → List Element
cmd_firewall_init enable_node = show_sfirewall_cmd ∷ []
cmd_firewall_init config_node =
    sfirewall_nat_portmap_cmd ∷ no_sfirewall_nat_portmap_cmd ∷ sfirewall_nat_portmap_apply_cmd
    ∷ sfirewall_filter_rules_cmd ∷ no_sfirewall_filter_rules_cmd ∷ sfirewall_filter_rules_apply_cmd
    ∷ show_sfirewall_cmd ∷ []
cmd_firewall_init _ = []

abbrev pub cmd_vpn_init : NodeType → List Element
cmd_vpn_init enable_node = show_wg_cmd ∷ show_wg_conf_cmd ∷ []
cmd_vpn_init config_node =
    show_wg_cmd ∷ show_wg_conf_cmd ∷ wg_listenport_cmd ∷ wg_peer_public_key_cmd
    ∷ wg_peer_allowed_ips_cmd ∷ wg_peer_endpoint_cmd ∷ wg_peer_persistent_keepalive_cmd
    ∷ no_wg_peer_cmd ∷ wg_link_cmd ∷ wg_rekey_cmd ∷ wg_clearkey_cmd ∷ []
cmd_vpn_init _ = []

-- `cmd_parse_init`
unfoldable pub cmd_parse_init : NodeType → Option (CmdVector (Func Handler))
unfolding install_all
cmd_parse_init node =
    install_all
      (cmd_bridge_init node
        ++ (cmd_common_init node
            ++ (cmd_tool_init node
                ++ (cmd_ip_init node ++ (cmd_firewall_init node ++ (cmd_vpn_init node))))))
      []

-- The command vectors; where installing leaves the process, none is used.
unfoldable pub cmdvec : NodeType → CmdVector (Func Handler)
unfolding cmd_parse_init
cmdvec node = elim (cmd_parse_init node) [ none ↦ [] | some v ↦ v ]
