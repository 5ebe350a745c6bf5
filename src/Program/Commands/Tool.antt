-- ===== src/Program/Commands/Tool.antt =====
-- The commands of cmd/cmd_tool.c.
use qr_wireguard_ui.Text.{codes}
use qr_wireguard_ui.Session.Shell.{other_func, prints_func}
use qr_wireguard_ui.Program.{
  config_ping_count_func, config_ping_func, config_poweroff_func, config_reboot_func,
  config_sh_func, config_ssh_func, config_ssh_port_func, config_tcpdump_func, show_date_func,
  net_netstat_info_func,
}
use qr_wireguard_ui.Program.Commands.{Element, defun}

abbrev pub config_sh_cmd : Element
config_sh_cmd =
    defun (codes "end WORD") (other_func config_sh_func) (codes "End a cli\nEnd a cli\n")

abbrev pub config_ping_cmd : Element
config_ping_cmd =
    defun (codes "ping WORD") (other_func config_ping_func)
      (codes "Send echo messages\nPing destination address or hostname\n")

abbrev pub config_ping_cmd_count : Element
config_ping_cmd_count = defun (codes "ping WORD NUM") (other_func config_ping_count_func) (
    codes
      "send count echo messages\nPing destination address or hostname\nStop after sending NUM ECHO_REQUEST packets\n")

abbrev pub config_ssh_cmd : Element
config_ssh_cmd =
    defun (codes "ssh WORD") (other_func config_ssh_func)
      (codes "Open a ssh connection\nUserID@IP address or hostname of a remote system\n")

abbrev pub config_ssh_port_cmd : Element
config_ssh_port_cmd = defun (codes "ssh WORD PORT") (other_func config_ssh_port_func) (
    codes
      "Open a ssh connection\nUserID@IP address or hostname of a remote system\nSSH Port number\n")

abbrev pub config_reboot_cmd : Element
config_reboot_cmd =
    defun (codes "reboot") (other_func config_reboot_func)
      (codes "Reboot the system\nReboot the system\n")

abbrev pub config_poweroff_cmd : Element
config_poweroff_cmd =
    defun (codes "poweroff") (other_func config_poweroff_func)
      (codes "Power off the system\nPower off the system\n")

abbrev pub config_sysinfo_cmd : Element
config_sysinfo_cmd =
    defun (codes "show sysinfo") prints_func
      (codes "Show running system information\ndisplay the system info\n")

abbrev pub config_tcpdump_cmd : Element
config_tcpdump_cmd = defun (codes "tcpdump INTERFACE EXPRESSION") (other_func config_tcpdump_func) (
    codes
      "Tcpdump packet \nthe interface name\nexpression, example:\"port 80 and host 192.168.0.1\"")

abbrev pub show_date_cmd : Element
show_date_cmd =
    defun (codes "show date") (other_func show_date_func)
      (codes "Show running system information\nDisplays the current date\n")

abbrev pub net_netstat_info_cmd : Element
net_netstat_info_cmd =
    defun (codes "netstat") (other_func net_netstat_info_func)
      (codes "show netstat\nParams Ctrl+C stop\n")
