-- ===== src/Cmd/Bridge.antt =====
-- cmd/cmd_bridge.c: `bridge disable` and `no bridge disable`.
use qr_wireguard_ui.Base.{[]}
use qr_wireguard_ui.Text.{CString, codes}
use qr_wireguard_ui.Command.{Code, cmd_success}
use qr_wireguard_ui.Cmd.{M, pure, ◌>>◌, del_line, add_line, ensure_config}

abbrev bridge_disable_line : CString
bridge_disable_line = codes "bridge disable"

unfoldable pub bridge_disable : M Code
bridge_disable = do
  del_line bridge_disable_line
  add_line bridge_disable_line []
  ensure_config (pure cmd_success)

unfoldable pub no_bridge_disable : M Code
no_bridge_disable = do del_line bridge_disable_line; ensure_config (pure cmd_success)
