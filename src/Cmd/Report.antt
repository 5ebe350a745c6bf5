-- ===== src/Cmd/Report.antt =====
-- The commands that only print but may fail: the status that they return.
use qr_wireguard_ui.Base.{none, some, [], ◌==◌, if◌then◌else◌}
use qr_wireguard_ui.Text.{CString, codes, starts_with}
use qr_wireguard_ui.Command.{Code, cmd_success, cmd_warning}
use qr_wireguard_ui.Session.{Session, Step, returns}
use qr_wireguard_ui.Cmd.{System, M, pure}

-- `host.config`, as `main` sets it with no option.
abbrev pub config_path : CString
config_path = codes "/qrwg/config/asmcli.conf"

module _ (sys : System) where
  -- What is written is the text of `config_dump`.
  unfoldable pub config_write_file : M Code
  unfolding pure
  config_write_file w = pure (if sys.opens w.ran config_path then cmd_success else cmd_warning) w

  unfoldable pub show_startup_config : M Code
  unfolding pure
  show_startup_config w = elim (sys.contents w.ran config_path) [
    | none ↦ pure cmd_warning w
    | some text ↦ pure cmd_success w
  ]

  -- `return cmd_execute_system_command (...)`: 0, or -1 where there is no new process.
  unfoldable pub executed : CString → Session → Step
  executed command s = returns (if sys.status [] command == 0 then some cmd_success else none) s

  unfoldable pub show_bridge_mac : CString → Session → Step
  unfolding executed
  show_bridge_mac name s =
      if starts_with (codes "brad") name
      then executed (codes "brctl") s
      else returns (some cmd_warning) s
