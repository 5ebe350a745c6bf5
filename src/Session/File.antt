-- ===== src/Session/File.antt =====
-- The configuration file: `config_dump` of vtysh_config.c, and `vtysh_config_from_file` of vtysh.c.
pub mod Lines
pub mod Reload
use qr_wireguard_ui.Base.{
  ℕ, zero, suc, ◌+◌, Bool, true, false, not, ◌||◌, Option, none, some, List, [], ◌∷◌, ◌++◌, ◌==◌,
  length, if◌then◌else◌,
}
use qr_wireguard_ui.Text.{CString, codes, first}
use qr_wireguard_ui.Command.{CmdElement, Code, cmd_success, cmd_warning, cmd_success_daemon}
use qr_wireguard_ui.Command.Tokens.{cmd_make_strvec}
use qr_wireguard_ui.Command.Execute.{
  CmdVector, Outcome, fault, fails, daemon_success, calls, cmd_execute_command_strict,
}
use qr_wireguard_ui.Session.{
  NodeType, config_node, VtyType, vty_shell, vty_file, Vty, Session, Step, faults, exits, returns,
}
use qr_wireguard_ui.Session.Shell.{Func, run, vtysh_execute}

abbrev pub newline : ℕ
newline = 10

-- `fgets` of <stdio.h> with room for `room` bytes: what it reads, and the rest of the file.
unfoldable pub fgets : ℕ → CString → CString × CString
fgets zero file = ([], file)
fgets (suc room) [] = ([], [])
fgets (suc room) (c ∷ file) =
    let (more, rest) = fgets room file in if c == newline then (c ∷ [], file) else (c ∷ more, rest)

-- `VTY_BUFSIZ`, less the terminating NUL.
abbrev pub vty_bufsiz_room : ℕ
vty_bufsiz_room = 511

-- The buffers of `while (fgets (buf, size, fp))`; each takes a byte of the file.
unfoldable pub read_lines : ℕ → ℕ → CString → List CString
unfolding fgets
read_lines room zero file = []
read_lines room (suc fuel) [] = []
read_lines room (suc fuel) (c ∷ file) =
    let (buf, rest) = fgets room (c ∷ file) in buf ∷ read_lines room fuel rest

-- The lines of `config_top`, each with a newline.
unfoldable pub dump_lines : List CString → CString
dump_lines [] = []
dump_lines (line ∷ rest) = line ++ (newline ∷ dump_lines rest)

-- `config_dump`, with the string of the time, which `localtime` has given; `configvec` is empty.
unfoldable pub config_dump : CString → List CString → CString
unfolding dump_lines
config_dump timestr config_top =
    codes "#Writed on " ++ (timestr ++ (newline ∷ (dump_lines config_top ++ codes "!\n")))

-- The vty of the file, and the session of the terminal.
pub record Load : Type 0 where
  pub file : Vty
  pub shell : Session

pub data Loaded : Type 0 where
  load_faults : Loaded
  load_exits : ℕ → Loaded
  loaded : Load → Loaded

-- The session that a command of the file runs in, and the state behind it.
abbrev pub file_session : Load → Session
file_session l = record l.shell { vty = l.file }

abbrev pub back : Load → Session → Load
back l s = record { file = s.vty; shell = record s { vty = l.shell.vty } }

abbrev pub at_config : Load → Load
at_config l = record l { file = record l.file { node = config_node } }

-- `ret != CMD_SUCCESS && ret != CMD_SUCCESS_DAEMON && ret != CMD_WARNING`
abbrev pub tries_again : Option Code → Bool
tries_again (some cmd_success) = false
tries_again (some cmd_success_daemon) = false
tries_again (some cmd_warning) = false
tries_again _ = true

module _ {H : Type 0} (crypt : CString → CString → Option CString)
    (other : H → List CString → Session → Step) (cmdvec : NodeType → CmdVector (Func H)) where
  -- `cmd_execute_command_strict` on the vty of the file, and what it leaves in `cmd`.
  abbrev pub strict_outcome : Session → Outcome (Func H) → Step × Option (CmdElement (Func H))
  strict_outcome s fault = (faults, none)
  strict_outcome s (fails code) = (returns (some code) s, none)
  strict_outcome s (daemon_success e) = (returns (some cmd_success_daemon) s, some e)
  strict_outcome s (calls e argv) = (run crypt other cmdvec e.func argv s, some e)

  unfoldable pub strict_step : List CString → Load → Step × Option (CmdElement (Func H))
  strict_step vline l =
      strict_outcome (file_session l) (cmd_execute_command_strict vline (cmdvec l.file.node))

  abbrev pub step_loaded : Load → Step → Loaded
  step_loaded l faults = load_faults
  step_loaded l (exits status) = load_exits status
  step_loaded l (returns ret s) = loaded (back l s)

  -- The last switch: after CMD_SUCCESS_DAEMON the function of `cmd` is called.
  abbrev pub switch_ret : Load → Step × Option (CmdElement (Func H)) → Loaded
  switch_ret l (returns (some cmd_success_daemon) s, some e) =
      step_loaded l (run crypt other cmdvec e.func [] s)
  switch_ret l (returns (some cmd_success_daemon) s, none) = load_faults
  switch_ret l (step, cmd) = step_loaded l step

  -- The second try: two commands on the vty of the terminal, then the line in CONFIG_NODE.
  abbrev pub second_try : List CString → Load → Step → Loaded
  second_try vline l faults = load_faults
  second_try vline l (exits status) = load_exits status
  second_try vline l (returns ret s) =
      let l' = at_config (record l { shell = s }) in switch_ret l' (strict_step vline l')

  abbrev pub end_first : List CString → Load → Step → Loaded
  end_first vline l faults = load_faults
  end_first vline l (exits status) = load_exits status
  end_first vline l (returns ret s) =
      second_try vline l (vtysh_execute crypt other cmdvec (codes "configure terminal") s)

  abbrev pub first_try : List CString → Load → Step × Option (CmdElement (Func H)) → Loaded
  first_try vline l (returns ret s, cmd) =
      let l' = back l s in
      let again = end_first vline l' (vtysh_execute crypt other cmdvec (codes "end") l'.shell) in
      if tries_again ret then again else switch_ret l (returns ret s, cmd)
  first_try vline l (step, cmd) = step_loaded l step

  -- The body of the loop on one buffer.
  unfoldable pub load_line : CString → Load → Loaded
  load_line buf l =
      let l' = if first buf == b'!' then at_config l else l in
      let executed : Loaded = elim (cmd_make_strvec (some buf)) [
        | none ↦ loaded l'
        | some vline ↦ first_try vline l' (strict_step vline l')
      ] in
      if first buf == b'#' then loaded l else executed

  unfoldable pub load_lines : List CString → Load → Loaded
  unfolding load_line
  load_lines [] l = loaded l
  load_lines (buf ∷ rest) l = elim (load_line buf l) [
    | load_faults ↦ load_faults
    | load_exits status ↦ load_exits status
    | loaded l' ↦ load_lines rest l'
  ]

  -- `vtysh_config_from_file` on the bytes of the file.
  unfoldable pub vtysh_config_from_file : CString → Load → Loaded
  unfolding load_lines read_lines
  vtysh_config_from_file text l = load_lines (read_lines vty_bufsiz_room (length text) text) l

  -- Behind `vty_new`: a vty for the file, of the type that makes the handlers quiet or of the other.
  unfoldable pub vtysh_load_config : CString → Session → Loaded
  unfolding vtysh_config_from_file
  vtysh_load_config text s =
      vtysh_config_from_file text
        (record { file = record { type = vty_file; node = config_node }; shell = s })

  unfoldable pub vtysh_boot_config : CString → Session → Loaded
  unfolding vtysh_config_from_file
  vtysh_boot_config text s =
      vtysh_config_from_file text
        (record { file = record { type = vty_shell; node = config_node }; shell = s })
