-- ===== src/Program/Commands/Common.antt =====
-- The commands of cmd/cmd_common.c.
use qr_wireguard_ui.Text.{codes}
use qr_wireguard_ui.Session.Shell.{
  config_exit_func, config_hostname_func, config_no_hostname_func, config_terminal_func,
  disable_func, enable_func, other_func, prints_func,
}
use qr_wireguard_ui.Program.{config_write_file_func, show_startup_config_func}
use qr_wireguard_ui.Program.Commands.{Element, defun}

abbrev pub config_terminal_cmd : Element
config_terminal_cmd =
    defun (codes "configure terminal") config_terminal_func
      (codes "Configuration from vty interface\nConfiguration terminal\n")

abbrev pub config_enable_cmd : Element
config_enable_cmd = defun (codes "enable") enable_func (codes "Turn on privileged mode command\n")

abbrev pub config_disable_cmd : Element
config_disable_cmd =
    defun (codes "disable") disable_func (codes "Turn off privileged mode command\n")

abbrev pub config_exit_cmd : Element
config_exit_cmd =
    defun (codes "exit") config_exit_func (codes "Exit current mode and down to previous mode\n")

abbrev pub show_version_cmd : Element
show_version_cmd =
    defun (codes "show version") prints_func
      (codes "Show running system information\nDisplays the version information\n")

abbrev pub show_cpuinfo_cmd : Element
show_cpuinfo_cmd =
    defun (codes "show cpuinfo") prints_func
      (codes "Show running system information\nDisplays the cpu information\n")

abbrev pub show_meminfo_cmd : Element
show_meminfo_cmd =
    defun (codes "show meminfo") prints_func
      (codes "Show running system information\nDisplays the memory information\n")

abbrev pub show_interruptsinfo_cmd : Element
show_interruptsinfo_cmd =
    defun (codes "show interruptsinfo") prints_func
      (codes "Show running system information\nDisplays the interrupts information\n")

abbrev pub show_uptime_cmd : Element
show_uptime_cmd =
    defun (codes "show uptime") prints_func
      (codes "Show running system information\nDisplays the system uptime\n")

abbrev pub config_list_cmd : Element
config_list_cmd = defun (codes "list") prints_func (codes "Print command list\n")

abbrev pub config_write_file_cmd : Element
config_write_file_cmd = defun (codes "write file") (other_func config_write_file_func) (
    codes
      "Write running configuration to memory, network, or terminal\nWrite to configuration file\n")

abbrev pub config_write_cmd : Element
config_write_cmd = defun (codes "write") (other_func config_write_file_func) (
    codes
      "Write running configuration to memory, network, or terminal\nWrite configureation to the file(same as write file)\n")

abbrev pub config_write_memory_cmd : Element
config_write_memory_cmd = defun (codes "write memory") (other_func config_write_file_func) (
    codes
      "Write running configuration to memory, network, or terminal\nWrite configuration to the file (same as write file)\n")

abbrev pub config_write_terminal_cmd : Element
config_write_terminal_cmd =
    defun (codes "write terminal") prints_func
      (codes "Write running configuration to memory, network, or terminal\nWrite to terminal\n")

abbrev pub show_running_config_cmd : Element
show_running_config_cmd =
    defun (codes "show running-config") prints_func
      (codes "Show running system information\nrunning configuration\n")

abbrev pub show_startup_config_cmd : Element
show_startup_config_cmd =
    defun (codes "show startup-config") (other_func show_startup_config_func)
      (codes "Show running system information\nContentes of startup configuration\n")

abbrev pub hostname_cmd : Element
hostname_cmd =
    defun (codes "hostname WORD") config_hostname_func
      (codes "Set system's network name\nThis system's network name\n")

abbrev pub no_hostname_cmd : Element
no_hostname_cmd = defun (codes "no hostname [HOSTNAME]") config_no_hostname_func (
    codes
      "Negate a command or set its defaults\nReset system's network name\nHost name of this router\n")
