-- ===== src/Session/Readline.antt =====
-- vtysh.c: what the shell gives to readline: the prompt, the completion, and the help of the `?` key.
-- The position of the cursor is the end of the line.
pub mod Aligned
use qr_wireguard_ui.Base.{
  ℕ, ◌-◌, Bool, true, false, not, ◌||◌, Option, none, some, List, [], ◌∷◌, ◌++◌, ◌==◌, ltb, length,
  take, replicate, if◌then◌else◌,
}
use mathlib.Core.Option
use qr_wireguard_ui.Text.{CString, codes, first, is_space}
use qr_wireguard_ui.Command.{
  Desc, Code, cmd_err_ambiguous, cmd_err_no_match, cmd_complete_full_match,
}
use qr_wireguard_ui.Command.Tokens.{cmd_make_strvec}
use qr_wireguard_ui.Command.Execute.{CmdVector}
use qr_wireguard_ui.Command.Complete.{
  Completion, reads_outside, fails_with, completes, cmd_complete_command,
}
use qr_wireguard_ui.Command.Describe.{
  Description, reads_past, refuses, describes, cmd_describe_command,
}
use qr_wireguard_ui.Config.Printf.{vasprintf}
use qr_wireguard_ui.Session.{
  NodeType, auth_node, view_node, auth_enable_node, enable_node, config_node, Session,
}

-- `rl_end && isspace (rl_line_buffer[rl_end - 1])`
unfoldable ends_in_space : CString → Bool
ends_in_space [] = false
ends_in_space (c ∷ []) = is_space c
ends_in_space (c ∷ d ∷ s) = ends_in_space (d ∷ s)

-- The last word is the current one.
abbrev front_and_last : List CString → List CString × Option CString
front_and_last [] = ([], none)
front_and_last (word ∷ []) = ([], some word)
front_and_last (word ∷ next ∷ words) =
    let (front, last) = front_and_last (next ∷ words) in (word ∷ front, last)

-- `vline`, with a NULL behind the words where white space is typed behind them.
abbrev cursor_at : CString → List CString → List CString × Option CString
cursor_at line words = if ends_in_space line then (words, none) else front_and_last words

unfoldable pub described_vline : CString → List CString × Option CString
unfolding cmd_make_strvec ends_in_space
described_vline line = elim (cmd_make_strvec (some line)) [
  | none ↦ ([], none)
  | some words ↦ cursor_at line words
]

-- The name of a token, without the dot of a variable argument.
abbrev pub shown_name : CString → CString
shown_name [] = []
shown_name (c ∷ s) = if c == b'.' then s else c ∷ s

-- `desc->cmd[0] == '\0'`
abbrev pub is_blank : Desc → Bool
is_blank d = first d.cmd == 0

abbrev wider : ℕ → ℕ → ℕ
wider width len = if ltb width len then len else width

abbrev width_with : Desc → ℕ → ℕ
width_with d width = if is_blank d then width else wider width (length (shown_name d.cmd))

-- The width of the column of the names.
unfoldable width_of : List Desc → ℕ → ℕ
width_of [] width = width
width_of (d ∷ rest) width = width_of rest (width_with d width)

-- `%-*s`
abbrev padded : ℕ → CString → CString
padded width s = s ++ replicate (width - length s) b' '

abbrev row : ℕ → Desc → CString
row width d = elim d.str [
  | none ↦ codes "  " ++ shown_name d.cmd
  | some text ↦ codes "  " ++ (padded width (shown_name d.cmd) ++ (codes "  " ++ text))
]

unfoldable rows : ℕ → List Desc → List CString
rows width [] = []
rows width (d ∷ rest) = if is_blank d then rows width rest else row width d ∷ rows width rest

-- The lines that are printed, or a call that is undefined.
pub data Shown : Type 0 where
  undefined : Shown
  prints : List CString → Shown

abbrev ambiguous_text : List CString
ambiguous_text = [] ∷ codes "% Ambiguous command." ∷ []

abbrev no_match_text : List CString
no_match_text = [] ∷ codes "% There is no matched command." ∷ []

-- A status that is not set is read by the `switch`. No other code than the two comes without tokens.
unfoldable shown_description : Description → Shown
unfolding width_of rows
shown_description reads_past = undefined
shown_description (describes none ds) = undefined
shown_description (describes (some code) ds) = prints ([] ∷ rows (width_of ds 0) ds)
shown_description (refuses cmd_err_ambiguous) = prints ambiguous_text
shown_description (refuses cmd_err_no_match) = prints no_match_text
shown_description (refuses _) = undefined

-- A node that may ask for a password has no completion.
abbrev is_auth : NodeType → Bool
is_auth auth_node = true
is_auth auth_enable_node = true
is_auth _ = false

-- The strings that the calls of `command_generator` return one after another, with the status.
abbrev generated : Completion → Option (Option Code × List CString)
generated reads_outside = none
generated (fails_with code) = some (some code, [])
generated (completes code matched) = some (some code, matched)

abbrev full_match : Code → Bool
full_match cmd_complete_full_match = true
full_match _ = false

-- `rl_pending_input = ' '`, where `rl_completion_matches` returns something.
abbrev pub pending_blank : Option Code × List CString → Bool
pending_blank (status, []) = false
pending_blank (none, match ∷ matched) = false
pending_blank (some status, match ∷ matched) = full_match status

-- `cmd_prompt`; the other nodes are not installed.
abbrev cmd_prompt : NodeType → Option CString
cmd_prompt view_node = some (codes "%s> ")
cmd_prompt enable_node = some (codes "%s# ")
cmd_prompt config_node = some (codes "%s(config)# ")
cmd_prompt auth_enable_node = some (codes "Password: ")
cmd_prompt _ = none

module _ {F : Type 0} (cmdvec : NodeType → CmdVector F) where
  unfoldable pub vtysh_rl_describe : CString → Session → Shown
  unfolding described_vline cmd_describe_command shown_description
  vtysh_rl_describe line s =
      let (words, current) = described_vline line in
      shown_description (cmd_describe_command words current (cmdvec s.vty.node))

  unfoldable pub command_generator : CString → Session → Option (Option Code × List CString)
  unfolding cmd_make_strvec ends_in_space cmd_complete_command
  command_generator line s =
      let at : Option (Option Code × List CString) = elim (cmd_make_strvec (some line)) [
        | none ↦ some (none, [])
        | some words ↦
            let (front, current) = cursor_at line words in
            generated (cmd_complete_command front current (cmdvec s.vty.node))
      ] in
      if is_auth s.vty.node then some (none, []) else at

-- `nodename` is the name that `uname` gives; it becomes the name of the host if that has none.
unfoldable pub vtysh_prompt : CString → Session → Option (CString × Session)
unfolding vasprintf Option.bind
vtysh_prompt nodename s =
    let hostname : CString = elim s.host.name [ none ↦ nodename | some name ↦ name ] in
    Option.map (λ text. (take 99 text, record s { host = record s.host { name = some hostname } }))
      (Option.bind (cmd_prompt s.vty.node) (λ format. vasprintf format (hostname ∷ [])))
