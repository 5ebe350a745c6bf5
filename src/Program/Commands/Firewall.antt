-- ===== src/Program/Commands/Firewall.antt =====
-- The commands of cmd/cmd_fw.c.
use qr_wireguard_ui.Text.{codes}
use qr_wireguard_ui.Session.Shell.{other_func, prints_func}
use qr_wireguard_ui.Program.{
  no_sfirewall_filter_rules_func, no_sfirewall_nat_portmap_func, sfirewall_filter_rules_apply_func,
  sfirewall_filter_rules_func, sfirewall_nat_portmap_apply_func, sfirewall_nat_portmap_func,
}
use qr_wireguard_ui.Program.Commands.{Element, defun}

abbrev pub sfirewall_nat_portmap_cmd : Element
sfirewall_nat_portmap_cmd =
    defun (codes "sfirewall nat portmap NUM (vpn|wan) A.B.C.D (tcp|udp|all) PORT PORT")
      (other_func sfirewall_nat_portmap_func)
      (codes
        "Configure smart firewall rules\nAdd NAT rules\nPort forwarding\nIndex number(Rule order) e.g. 10\nVPN interface(e.g. wg0)\nWAN interface\nInternal ip address e.g. 192.168.5.200\nTCP Protocol\nUDP Protocol\nAll(tcp/udp/icmp) Protocols\nport1 e.g. 8080 or 0(= any port)\nport2 e.g. 80 or 0(= any port)\n")

abbrev pub no_sfirewall_nat_portmap_cmd : Element
no_sfirewall_nat_portmap_cmd =
    defun (codes "no sfirewall nat portmap NUM (vpn|wan) A.B.C.D (tcp|udp|all) PORT PORT")
      (other_func no_sfirewall_nat_portmap_func)
      (codes
        "Negate a command or set its defaults\nConfigure smart firewall rules\nAdd NAT rules\nPort forwarding\nIndex number(Rule order) e.g. 10\nVPN interface(e.g. wg0)\nWAN interface\nInternal ip address e.g. 192.168.5.200\nTCP Protocol\nUDP Protocol\nAll(tcp/udp/icmp) Protocols\nport e.g. 8080 or 0(= any port)\nport e.g. 80 or 0(= any port)\n")

abbrev pub sfirewall_nat_portmap_apply_cmd : Element
sfirewall_nat_portmap_apply_cmd =
    defun (codes "sfirewall nat portmap apply") (other_func sfirewall_nat_portmap_apply_func)
      (codes "Configure smart firewall rules\nAdd NAT rules\nPort forwarding\nApply\n")

abbrev pub sfirewall_filter_rules_cmd : Element
sfirewall_filter_rules_cmd =
    defun
      (codes
        "sfirewall filter NUM (lan2wan|wan2lan) (in|out|fw) (insert|append) (permit|deny|reject) (tcp|udp|icmp) A.B.C.D/E PORT A.B.C.D/E PORT DAY FROMTIME TOTIME")
      (other_func sfirewall_filter_rules_func)
      (codes
        "Configure smart firewall rules\nAdd filter rules\nIndex number(Rule order) e.g. 10\nfrom lan to wan zone\nfrom wan to lan zone\nInput direction\nOutput direction\nForward direction\nInsert at the front\nAppend to the back\nPermit\nDeny\nReject\nTCP Protocol\nUDP Protocol\nICMP Protocol\nSource ip address/netmask(CIDR) e.g. 192.168.5.200/32\nSource port e.g. 8080 or any\nDestination ip address/netmask(CIDR) e.g. 0.0.0.0/0\nDestination port e.g. 80\nLimit day e.g. mon|tue|wed|thu|fri|sat|sun or any\nStart(from) time(00:00 ~ 23:59) e.g. 09:00 or any\nStop(to) time(00:00 ~ 23:59) e.g. 21:00 or any\n")

abbrev pub no_sfirewall_filter_rules_cmd : Element
no_sfirewall_filter_rules_cmd =
    defun
      (codes
        "no sfirewall filter NUM (lan2wan|wan2lan) (in|out|fw) (insert|append) (permit|deny|reject) (tcp|udp|icmp) A.B.C.D/E PORT A.B.C.D/E PORT DAY FROMTIME TOTIME")
      (other_func no_sfirewall_filter_rules_func)
      (codes
        "Negate a command or set its defaults\nConfigure smart firewall rules\nAdd filter rules\nIndex number(Rule order) e.g. 10\nfrom lan to wan zone\nfrom wan to lan zone\nInput direction\nOutput direction\nForward direction\nInsert at the front\nAppend to the back\nPermit\nDeny\nReject\nTCP Protocol\nUDP Protocol\nICMP Protocol\nSource ip address/netmask(CIDR) e.g. 192.168.5.200/32\nSource port e.g. 8080 or any\nDestination ip address/netmask(CIDR) e.g. 0.0.0.0/0\nDestination port e.g. 80\nLimit day e.g. mon|tue|wed|thu|fri|sat|sun or any\nStart(from) time(00:00 ~ 23:59) e.g. 09:00 or any\nStop(to) time(00:00 ~ 23:59) e.g. 21:00 or any\n")

abbrev pub sfirewall_filter_rules_apply_cmd : Element
sfirewall_filter_rules_apply_cmd =
    defun (codes "sfirewall filter apply") (other_func sfirewall_filter_rules_apply_func)
      (codes "Configure smart firewall rules\nAdd filter rules\nApply\n")

abbrev pub show_sfirewall_cmd : Element
show_sfirewall_cmd = defun (codes "show sfirewall (all|nat|filter|mangle)") prints_func (
    codes
      "Show running system information\nshow smart firewall rules\nshow all rules\nshow NAT rules\nshow filter rules\nshow mangle rules\n")
