-- ===== src/Tests.antt =====
-- Commands of cmd/cmd_common.c and cmd/cmd_tool.c on the definitions, and the theorems on them.
mod Matching
mod Completing
mod Helping
mod Loading
mod Restarting
mod Configuring
mod Climbing
mod Rules
mod Bridging
mod Addresses
mod Peering
mod Filtering
use mathlib.Core.Option
use qr_wireguard_ui.Base.{
  ◌-◌, inl, ℕ, zero, suc, ◌≤◌, true, false, ◌≡◌, ◌≢◌, inr, refl, Option, none, some, List, [], ◌∷◌,
  ◌++◌, arith,
}
use qr_wireguard_ui.Text.{CString, codes, is_space, str_eq, str_lt, starts_with}
use qr_wireguard_ui.Config.{
  add_before, delete_first, config_del_line, config_del_line_byleft, config_get_line_byleft,
  config_add_line,
}
use qr_wireguard_ui.Config.Printf.{vasprintf, no_percent}
use qr_wireguard_ui.Config.Order.{
  IsSorted, Reach, start, after, add_line, del_line_byleft, Reach-IsSorted, delete_first-add_before,
}
use qr_wireguard_ui.Config.Lines.{count, occurrences, replace_byleft, set_line_idem, del_byleft-get}
use qr_wireguard_ui.Command.Execute.Args.{Covers, takes_rest, args_of, bounded, collect-args_of}
use qr_wireguard_ui.Command.{Desc, CmdElement}
use qr_wireguard_ui.Session.{
  NodeType, view_node, auth_enable_node, config_node, vty_shell, Session, Step, faults, exits,
}
use qr_wireguard_ui.Session.Common.{succeeds, is_alpha, config_hostname, config_no_hostname}
use qr_wireguard_ui.Session.Common.Hostname.{
  HasName, config_hostname-HasName, config_no_hostname-count,
}
use qr_wireguard_ui.Session.Shell.{Func, prints_func, config_exit_func, enable_func, vtysh_lines}
use qr_wireguard_ui.Command.Tokens.{unquote, ends_word, cmd_make_strvec}
use qr_wireguard_ui.Command.Tokens.Whole.{IsSplit, cmd_make_strvec-IsSplit}
use qr_wireguard_ui.Command.Install.{cmd_make_descvec, cmd_install_element}
use qr_wireguard_ui.Command.Spec.{all_alone, Slots}
use qr_wireguard_ui.Command.Spec.{accepts_completion, accepts_string}
use qr_wireguard_ui.Command.Install.Fuel.{IsParsed, cmd_make_descvec-IsParsed}
use qr_wireguard_ui.Command.Execute.Sound.{IsSound}
use qr_wireguard_ui.Command.Execute.Dispatch.{
  cmd_execute_command-IsSound, cmd_execute_command_strict-IsSound,
}
use qr_wireguard_ui.Command.Tokens.Split.{
  Item, text, words, IsSpaced, word_bytes, all_spaces, no_quote, cmd_make_strvec-text,
}
use qr_wireguard_ui.Command.Execute.{
  CmdVector, collect, Outcome, calls, cmd_execute_command, cmd_execute_command_strict,
}

-- `DEFUN`
abbrev defun : CString → ℕ → CString → CmdElement ℕ
defun string func doc = record {
  string = string;
  func = func;
  doc = doc;
  daemon = 0;
  strvec = [];
  cmdsize = 0;
}

abbrev show_version_cmd : CmdElement ℕ
show_version_cmd =
    defun (codes "show version") 1
      (codes "Show running system information\nDisplays the version information\n")

abbrev hostname_cmd : CmdElement ℕ
hostname_cmd =
    defun (codes "hostname WORD") 2
      (codes "Set system's network name\nThis system's network name\n")

abbrev no_hostname_cmd : CmdElement ℕ
no_hostname_cmd =
    defun (codes "no hostname [HOSTNAME]") 3
      (codes "Negate a command\nReset system's network name\nHost name of this router\n")

abbrev installed : Option (CmdVector ℕ)
installed = Option.bind (cmd_install_element [] show_version_cmd) (λ v.
    Option.bind (cmd_install_element v hostname_cmd) (λ v'. cmd_install_element v' no_hostname_cmd))

abbrev commands : CmdVector ℕ
commands = elim installed [ none ↦ [] | some v ↦ v ]

abbrev strvec_at : CmdVector ℕ → ℕ → List (List Desc)
strvec_at [] i = []
strvec_at (none ∷ v) i = []
strvec_at (some e ∷ v) zero = e.strvec
strvec_at (some e ∷ v) (suc i) = strvec_at v i

abbrev typed : CString → List CString
typed line = elim (cmd_make_strvec (some line)) [ none ↦ [] | some vline ↦ vline ]

abbrev outcome : Outcome ℕ → Option (ℕ × List CString)
outcome (calls e argv) = some (e.func, argv)
outcome _ = none

typed_words : typed (codes "  no  hostname r1 \n") ≡ codes "no" ∷ codes "hostname" ∷ codes "r1" ∷ []
unfolding cmd_make_strvec
typed_words = refl

completion_runs :
    outcome (cmd_execute_command (typed (codes "host r1")) commands) ≡ some (2, codes "r1" ∷ [])
unfolding cmd_make_strvec cmd_install_element Option.bind cmd_execute_command
completion_runs = refl

strict_fails : outcome (cmd_execute_command_strict (typed (codes "host r1")) commands) ≡ none
unfolding cmd_make_strvec cmd_install_element Option.bind cmd_execute_command_strict
strict_fails = refl

commands_alone : Slots (λ e. all_alone e.strvec ≡ true) commands
unfolding cmd_install_element all_alone Option.bind
commands_alone = (refl, (refl, (refl, tt)))

cmd_execute_command-IsSound_example :
    IsSound accepts_completion
      (typed (codes "host r1"))
      commands
      (cmd_execute_command (typed (codes "host r1")) commands)
cmd_execute_command-IsSound_example =
    cmd_execute_command-IsSound (typed (codes "host r1")) commands commands_alone

cmd_execute_command_strict-IsSound_example :
    IsSound accepts_string
      (typed (codes "no hostname"))
      commands
      (cmd_execute_command_strict (typed (codes "no hostname")) commands)
cmd_execute_command_strict-IsSound_example =
    cmd_execute_command_strict-IsSound (typed (codes "no hostname")) commands commands_alone

cmd_make_descvec-IsParsed_example :
    IsParsed (cmd_make_descvec (codes "(a|b) [WORD]") (codes "A\nB\nW\n"))
cmd_make_descvec-IsParsed_example =
    cmd_make_descvec-IsParsed (codes "(a|b) [WORD]") (codes "A\nB\nW\n")

abbrev two_words : List Item
two_words =
    record { word = codes "write"; spaces = codes "  " }
    ∷ record { word = codes "file"; spaces = codes "\n" }
    ∷ []

pub not_nil : (c : ℕ) (s : CString) → (c ∷ s) ≢ []
not_nil c s e = absurd (ground arith)

two_words-IsSpaced : IsSpaced two_words
unfolding word_bytes all_spaces ends_word is_space
two_words-IsSpaced = ((not_nil _ _, refl), refl, not_nil _ _, ((not_nil _ _, refl), refl))

blank : all_spaces (codes " ") ≡ true
unfolding all_spaces is_space
blank = refl

unquoted : no_quote (codes " " ++ text two_words) ≡ true
unfolding no_quote
unquoted = refl

cmd_make_strvec-text_example :
    cmd_make_strvec (some (codes " write  file\n")) ≡ some (words two_words)
cmd_make_strvec-text_example =
    cmd_make_strvec-text (codes " ") two_words blank two_words-IsSpaced unquoted refl

cmd_make_strvec-IsSplit_example :
    IsSplit (unquote (codes "dns \"a b\" # c")) (cmd_make_strvec (some (codes "dns \"a b\" # c")))
cmd_make_strvec-IsSplit_example = cmd_make_strvec-IsSplit (codes "dns \"a b\" # c")

hostname-Covers : Covers (strvec_at commands 1) (typed (codes "hostname r1"))
unfolding cmd_install_element Option.bind cmd_make_strvec takes_rest
hostname-Covers = inr (inr tt)

collect-args_of_example :
    collect (strvec_at commands 1) 0 false [] (typed (codes "hostname r1"))
    ≡ bounded ([] ++ args_of (strvec_at commands 1) (typed (codes "hostname r1")))
collect-args_of_example =
    collect-args_of (strvec_at commands 1) (typed (codes "hostname r1")) [] hostname-Covers
      (omega arith)
