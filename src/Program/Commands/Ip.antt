-- ===== src/Program/Commands/Ip.antt =====
-- The commands of cmd/cmd_ip.c.
use qr_wireguard_ui.Text.{codes}
use qr_wireguard_ui.Session.Shell.{other_func, prints_func}
use qr_wireguard_ui.Program.{
  config_dns_func, config_no_dns_func, ip_address_dhcp_func, ip_address_func, ip_route_func,
  no_ip_address_func, no_ip_route_func,
}
use qr_wireguard_ui.Program.Commands.{Element, defun}

abbrev pub show_ip_address_cmd : Element
show_ip_address_cmd =
    defun (codes "show ip address") prints_func
      (codes "Show running system information\nIP information set\nIP address list\n")

abbrev pub show_ip_config_cmd : Element
show_ip_config_cmd =
    defun (codes "show ip config") prints_func
      (codes "Show running system information\nIP information set\nIP config\n")

abbrev pub show_ip_config_name_cmd : Element
show_ip_config_name_cmd = defun (codes "show ip config WORD") prints_func (
    codes
      "Show running system information\nIP information set\nIP config name\nthe interface name\n")

abbrev pub show_ip_route_cmd : Element
show_ip_route_cmd =
    defun (codes "show ip route") prints_func
      (codes "Show running system information\nIP information set\nIP routing table\n")

abbrev pub ip_address_cmd : Element
ip_address_cmd = defun (codes "ip address ETHNAME A.B.C.D A.B.C.D") (other_func ip_address_func) (
    codes
      "IP information set\nconfig the ip address\ninterface name(lan|wan|wg0|wg1)\nip address e.g. x.x.x.x\nip netmask  e.g. 255.255.0.0\n")

abbrev pub no_ip_address_cmd : Element
no_ip_address_cmd = defun (codes "no ip address ETHNAME") (other_func no_ip_address_func) (
    codes
      "Negate a command or set its defaults\nIP information set\nDisable the ip address\nconfig the ip address\ninterface name(lan|wan|wg0|wg1)\n")

abbrev pub ip_address_dhcp_cmd : Element
ip_address_dhcp_cmd =
    defun (codes "ip address ETHNAME dhcp") (other_func ip_address_dhcp_func)
      (codes "IP information set\nconfig the ip address\ninterface name(wan)\nDHCP mode\n")

abbrev pub ip_route_cmd : Element
ip_route_cmd = defun (codes "ip route A.B.C.D A.B.C.D A.B.C.D ETHNAME") (other_func ip_route_func) (
    codes
      "IP information set\nconfig the ip route(temporary)\nDestination address\nDestination adress netmask e.g. 255.255.255.0\nNexthot address\ninterface name(lan or wan)\n")

abbrev pub no_ip_route_cmd : Element
no_ip_route_cmd = defun (codes "no ip route A.B.C.D A.B.C.D") (other_func no_ip_route_func) (
    codes
      "Negate a command or set its defaults\nIP information set\nDisable the ip route\nDestination address\nDestination adress netmask e.g. 255.255.255.0\n")

abbrev pub config_dns_cmd : Element
config_dns_cmd =
    defun (codes "nameserver A.B.C.D A.B.C.D") (other_func config_dns_func)
      (codes "Config the dns server\nthe first dns server ip\nthe second dns server ip\n")

abbrev pub config_no_dns_cmd : Element
config_no_dns_cmd =
    defun (codes "no nameserver") (other_func config_no_dns_func)
      (codes "Negate a command or set its defaults\nRemove the dns server\n")
