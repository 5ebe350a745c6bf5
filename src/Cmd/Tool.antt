-- ===== src/Cmd/Tool.antt =====
-- cmd/cmd_tool.c: the handlers on their arguments, with the answer that `fgets` reads where one asks.
-- `show date`, `show sysinfo`, `netstat` and `tcpdump` only run a program.
use qr_wireguard_ui.Base.{Bool, false, not, Option, none, some, [], ◌∷◌, ◌==◌, if◌then◌else◌}
use qr_wireguard_ui.Text.{CString, codes, first, is_digit, str_eq}
use qr_wireguard_ui.Command.{Code, cmd_success, cmd_err_nothing_todo}
use qr_wireguard_ui.Session.{Session, Step, exits}
use qr_wireguard_ui.Session.Common.{succeeds}
use qr_wireguard_ui.Cmd.{System, M, pure, ◌>>◌, call, cmd_execute_system_command}

-- The line that is read begins with `y`; `none` is the end of the input.
abbrev is_yes : Option CString → Bool
is_yes none = false
is_yes (some line) = first line == b'y'

unfoldable pub config_ping : CString → M Code
config_ping dest = do cmd_execute_system_command (codes "ping") (dest ∷ []); pure cmd_success

unfoldable pub config_ping_count : CString → CString → M Code
config_ping_count dest count =
    if not (is_digit (first count)) then pure cmd_err_nothing_todo else (do
      cmd_execute_system_command (codes "ping") (dest ∷ codes "-c" ∷ count ∷ [])
      pure cmd_success)

unfoldable pub config_ssh : CString → M Code
config_ssh dest = do cmd_execute_system_command (codes "ssh") (dest ∷ []); pure cmd_success

unfoldable pub config_ssh_port : CString → CString → M Code
config_ssh_port dest port = do
  cmd_execute_system_command (codes "ssh") (dest ∷ codes "-p" ∷ port ∷ [])
  pure cmd_success

-- The process ends where the answer is yes.
unfoldable pub config_reboot : Option CString → Session → Step
config_reboot answer s = if is_yes answer then exits 1 else succeeds s

module _ (sys : System) where
  unfoldable pub config_sh : CString → M Code
  config_sh word =
      if not (str_eq word (codes "shell"))
      then pure cmd_err_nothing_todo
      else (do call sys (codes "/bin/ash"); pure cmd_success)

  unfoldable pub config_poweroff : Option CString → M Code
  config_poweroff answer =
      if is_yes answer
      then (do call sys (codes "sync; sync; sleep 3; poweroff&"); pure cmd_success)
      else pure cmd_success
