-- ===== src/Program/Commands/Bridge.antt =====
-- The commands of cmd/cmd_bridge.c.
use qr_wireguard_ui.Text.{codes}
use qr_wireguard_ui.Session.Shell.{other_func, prints_func}
use qr_wireguard_ui.Program.{
  bridge_add_func, bridge_disable_func, no_bridge_add_func, no_bridge_disable_func,
  show_bridge_mac_func,
}
use qr_wireguard_ui.Program.Commands.{Element, defun}

abbrev pub bridge_disable_cmd : Element
bridge_disable_cmd =
    defun (codes "bridge disable") (other_func bridge_disable_func)
      (codes "Specify whether bridge mode is enabled or disabled\nDisable bridge mode\n")

abbrev pub no_bridge_disable_cmd : Element
no_bridge_disable_cmd = defun (codes "no bridge disable") (other_func no_bridge_disable_func) (
    codes
      "Negate a command or set its defaults\nSpecify whether bridge mode is enabled or disabled\nDisable bridge mode\n")

abbrev pub bridge_add_cmd : Element
bridge_add_cmd = defun (codes "bridge NUM WORD WORD") (other_func bridge_add_func) (
    codes
      "add/modify the bridge information\nthe bridge number[1-9]\nthe bridge interface1 name\nthe bridge interface2 name\n")

abbrev pub no_bridge_add_cmd : Element
no_bridge_add_cmd =
    defun (codes "no bridge NUM") (other_func no_bridge_add_func)
      (codes "Negate a command or set its defaults\ndelete the bridge\n")

abbrev pub show_bridge_cmd : Element
show_bridge_cmd =
    defun (codes "show bridge") prints_func
      (codes "Show running system information\nshow the bridge info\n")

abbrev pub show_bridge_mac_cmd : Element
show_bridge_mac_cmd =
    defun (codes "show bridge WORD") (other_func show_bridge_mac_func)
      (codes "Show running system information\nshow the bridge info\nbridge name\n")
