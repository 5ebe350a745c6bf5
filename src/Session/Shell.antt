-- ===== src/Session/Shell.antt =====
-- vtysh.c: a line that is typed, or the password that is asked for.
use qr_wireguard_ui.Base.{◌+◌, Bool, Option, none, some, List, [], ◌∷◌, ltb, take, if◌then◌else◌}
use qr_wireguard_ui.Text.{CString, str_eq}
use qr_wireguard_ui.Command.{cmd_success_daemon}
use qr_wireguard_ui.Command.Tokens.{cmd_make_strvec}
use qr_wireguard_ui.Command.Execute.{
  CmdVector, Outcome, fault, fails, daemon_success, calls, cmd_execute_command,
}
use qr_wireguard_ui.Session.{
  NodeType, auth_enable_node, enable_node, Session, Step, faults, exits, returns, set_node,
}
use qr_wireguard_ui.Session.Common.{
  succeeds, config_terminal, enable, disable, config_exit, config_hostname, config_no_hostname,
}

-- What `func` points at: the handlers of cmd/cmd_common.c that change the state, those that only
-- print or call a program and return CMD_SUCCESS, and the other handlers.
pub data Func (H : Type 0) : Type 0 where
  config_terminal_func enable_func disable_func config_exit_func : Func H
  config_hostname_func config_no_hostname_func prints_func : Func H
  other_func : H → Func H

-- `crypt` of <crypt.h>, the handlers of the other files, and the command vectors of the nodes.
module _ {H : Type 0} (crypt : CString → CString → Option CString)
    (other : H → List CString → Session → Step) (cmdvec : NodeType → CmdVector (Func H)) where
  unfoldable pub run : Func H → List CString → Session → Step
  unfolding config_terminal enable disable config_exit config_hostname config_no_hostname
  run config_terminal_func argv s = config_terminal s
  run enable_func argv s = enable s
  run disable_func argv s = disable s
  run config_exit_func argv s = config_exit s
  run config_hostname_func argv s = config_hostname argv s
  run config_no_hostname_func argv s = config_no_hostname s
  run prints_func argv s = succeeds s
  run (other_func h) argv s = other h argv s

  -- A call by way of CMD_SUCCESS_DAEMON has that as its return value.
  abbrev pub daemon_step : Step → Step
  daemon_step (returns ret s) = returns (some cmd_success_daemon) s
  daemon_step step = step

  abbrev pub outcome_step : Session → Outcome (Func H) → Step
  outcome_step s fault = faults
  outcome_step s (fails code) = returns (some code) s
  outcome_step s (daemon_success e) = daemon_step (run e.func [] s)
  outcome_step s (calls e argv) = run e.func argv s

  unfoldable pub vtysh_execute_func : Option CString → Session → Step
  unfolding run cmd_make_strvec cmd_execute_command
  vtysh_execute_func line s = elim (cmd_make_strvec line) [
    | none ↦ returns none s
    | some vline ↦ outcome_step s (cmd_execute_command vline (cmdvec s.vty.node))
  ]

  -- `in_is_valid_password (passwd) == 0`; `none` is a NULL that is read.
  unfoldable pub in_is_valid_password : CString → Session → Option Bool
  unfolding str_eq
  in_is_valid_password passwd s = elim s.host.enable_encrypt [
    | none ↦ none
    | some stored ↦ elim (crypt passwd (take 2 stored)) [
      | none ↦ none
      | some hashed ↦ some (str_eq stored hashed)
    ]
  ]

  -- In AUTH_ENABLE_NODE the line is a password.
  unfoldable pub authenticate : CString → Session → Step
  unfolding in_is_valid_password
  authenticate line s = elim (in_is_valid_password line s) [
    | none ↦ faults
    | some valid ↦
        if valid
        then returns none
            (set_node enable_node (record s { host = record s.host { trytimes = 0 } }))
        else if ltb 1 s.host.trytimes
        then exits 1
        else returns none (record s { host = record s.host { trytimes = s.host.trytimes + 1 } })
  ]

  abbrev pub execute_at : NodeType → CString → Session → Step
  execute_at auth_enable_node line s = authenticate line s
  execute_at _ line s = vtysh_execute_func (some line) s

  unfoldable pub vtysh_execute : CString → Session → Step
  unfolding authenticate vtysh_execute_func
  vtysh_execute line s = execute_at s.vty.node line s

  -- Lines typed one after another.
  unfoldable pub vtysh_lines : List CString → Session → Step
  unfolding vtysh_execute
  vtysh_lines [] s = returns none s
  vtysh_lines (line ∷ rest) s = elim (vtysh_execute line s) [
    | faults ↦ faults
    | exits status ↦ exits status
    | returns ret s' ↦ vtysh_lines rest s'
  ]
