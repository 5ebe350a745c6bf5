-- ===== src/Session/Common.antt =====
-- cmd/cmd_common.c: the handlers that change the node, and those of the host name. What they print,
-- and the programs that they call, are not in the state.
pub mod Hostname
use qr_wireguard_ui.Base.{
  Bool, true, false, ◌&&◌, ◌||◌, Option, none, some, List, [], ◌∷◌, ◌++◌, length, leb,
  if◌then◌else◌,
}
use qr_wireguard_ui.Text.{CString, codes, first}
use qr_wireguard_ui.Config.{config_add_line, config_del_line_byleft}
use qr_wireguard_ui.Command.{Code, cmd_success, cmd_warning}
use qr_wireguard_ui.Session.{
  NodeType, view_node, auth_enable_node, enable_node, config_node, VtyType, vty_shell, vty_file,
  Vty, Host, Session, Step, faults, exits, returns, set_node,
}

abbrev pub succeeds : Session → Step
succeeds s = returns (some cmd_success) s

unfoldable pub config_terminal : Session → Step
config_terminal s = succeeds (set_node config_node s)

abbrev pub is_null : Option CString → Bool
is_null none = true
is_null (some s) = false

abbrev pub is_file : VtyType → Bool
is_file vty_shell = false
is_file vty_file = true

unfoldable pub enable : Session → Step
enable s =
    if (is_null s.host.enable && is_null s.host.enable_encrypt) || is_file s.vty.type
    then succeeds (set_node enable_node s)
    else succeeds (set_node auth_enable_node s)

abbrev pub disabled : NodeType → Session → Step
disabled enable_node s = succeeds (set_node view_node s)
disabled _ s = succeeds s

unfoldable pub disable : Session → Step
disable s = disabled s.vty.node s

abbrev pub exited : NodeType → Session → Step
exited view_node s = exits 0
exited enable_node s = succeeds (set_node view_node s)
exited config_node s = succeeds (set_node enable_node s)
exited _ s = succeeds s

unfoldable pub config_exit : Session → Step
config_exit s = exited s.vty.node s

-- `isalpha`
unfoldable pub is_alpha : CString → Bool
is_alpha s =
    (leb b'A' (first s) && leb (first s) b'Z') || (leb b'a' (first s) && leb (first s) b'z')

abbrev pub set_system_name : CString → CString
set_system_name name = codes "uci set system.@system[0].hostname='" ++ (name ++ codes "'")

-- The line for the shell goes into szCmd, of 1024 bytes with the NUL.
abbrev pub named : CString → Session → Step
named name s =
    if is_file s.vty.type
    then succeeds s
    else if leb 1024 (length (set_system_name name))
    then faults
    else succeeds (record s { host = record s.host { name = some name } })

unfoldable pub config_hostname : List CString → Session → Step
unfolding is_alpha config_add_line config_del_line_byleft
config_hostname [] s = faults
config_hostname (name ∷ argv) s =
    let rest = config_del_line_byleft s.config_top (codes "hostname") in
    let added : Step = elim (config_add_line rest (codes "hostname %s") (name ∷ [])) [
      | none ↦ faults
      | some config ↦ named name (record s { config_top = config })
    ] in
    if is_alpha name then added else returns (some cmd_warning) s

unfoldable pub config_no_hostname : Session → Step
unfolding config_del_line_byleft
config_no_hostname s = succeeds (record s {
  host = record s.host { name = none };
  config_top = config_del_line_byleft s.config_top (codes "hostname ");
})
