-- ===== src/Command/Execute/Dispatch.antt =====
-- `cmd_execute_command` and `cmd_execute_command_strict` as a whole.
use qr_wireguard_ui.Base.{true, ◌≡◌, List}
use qr_wireguard_ui.Text.{CString}
use qr_wireguard_ui.Command.Spec.{all_alone, Slots, accepts_completion, accepts_string}
use qr_wireguard_ui.Command.Filter.{
  token_by_completion, token_by_string, cmd_filter_by_completion, cmd_filter_by_string,
}
use qr_wireguard_ui.Command.Filter.Sound.{completion_laws, string_laws}
use qr_wireguard_ui.Command.Execute.{CmdVector, cmd_execute_command, cmd_execute_command_strict}
use qr_wireguard_ui.Command.Execute.Sound.{IsSound, executed-IsSound}

module _ {F : Type 0} (vline : List CString) (v : CmdVector F)
    (alone : Slots (λ e. all_alone e.strvec ≡ true) v) where
  -- If no command of the vector has a variable argument among alternatives, `cmd_execute_command`
  -- reads nothing out of bounds, and it ends with one of four errors, or it chooses an installed
  -- command that takes the words that were read: all of them, and they are enough, or those up to
  -- a variable argument. What is called has no daemon, and gets the words at its argument
  -- positions, fewer than 25 of them; a command with a daemon is only returned.
  pub cmd_execute_command-IsSound : IsSound accepts_completion vline v (cmd_execute_command vline v)
  unfolding cmd_execute_command cmd_filter_by_completion
  cmd_execute_command-IsSound =
      executed-IsSound token_by_completion accepts_completion completion_laws vline v alone

  -- Under the same condition, the same of `cmd_execute_command_strict`, where a keyword has to be
  -- spelled out and an address has to be complete.
  pub cmd_execute_command_strict-IsSound :
      IsSound accepts_string vline v (cmd_execute_command_strict vline v)
  unfolding cmd_execute_command_strict cmd_filter_by_string
  cmd_execute_command_strict-IsSound =
      executed-IsSound token_by_string accepts_string string_laws vline v alone
