-- ===== src/Program/Main.antt =====
-- vtysh_main.c: main, from the options on. What is printed is left out, the status with which the
-- process ends, and the sorting of the commands of a node.
pub mod Eval
use qr_wireguard_ui.Base.{Bool, true, false, Option, none, some, List, [], ◌∷◌, if◌then◌else◌}
use qr_wireguard_ui.Text.{CString, codes}
use qr_wireguard_ui.Session.{view_node, vty_shell, Session, Step, faults, exits, returns}
use qr_wireguard_ui.Session.Shell.{vtysh_lines}
use qr_wireguard_ui.Session.File.{
  Loaded, load_faults, load_exits, loaded, config_dump, vtysh_load_config, vtysh_boot_config,
}
use qr_wireguard_ui.Cmd.{System}
use qr_wireguard_ui.Program.{handle}
use qr_wireguard_ui.Program.Install.{cmdvec}

-- `boot_flag`, and the line of `eval_flag`.
pub record Options : Type 0 where
  pub boot : Bool
  pub eval_line : Option CString

-- After config_init, cmd_init and vtysh_init_vty.
abbrev pub initial : Session
initial = record {
  vty = record { type = vty_shell; node = view_node };
  host = record { name = none; enable = none; enable_encrypt = none; trytimes = 0 };
  config_top = [];
}

-- How the process runs: a call is undefined; it ends in a handler; it ends when the file is loaded,
-- or when a line is executed and the configuration cannot be written or is written; or it goes on
-- with the lines that are typed, to the step given.
pub data Run : Type 0 where
  crashes : Run
  quits : Run
  booted not_written : Session → Run
  written : CString → Session → Run
  typed : Step → Run

abbrev pub eval_lines : CString → List CString
eval_lines line = codes "enable" ∷ codes "config terminal" ∷ line ∷ []

-- `fopen (host.config, "w")` and config_dump.
abbrev pub eval_ended : Bool → CString → Step → Run
eval_ended writable timestr faults = crashes
eval_ended writable timestr (exits status) = quits
eval_ended writable timestr (returns ret s) =
    if writable then written (config_dump timestr s.config_top) s else not_written s

module _ (crypt : CString → CString → Option CString) (systems : Session → System)
    (stdin : Session → Option CString) where
  -- Behind the loading of the file. The prompt, which gives a host without a name that of the
  -- system, is left out.
  abbrev pub started : Option CString → Bool → CString → List CString → Loaded → Run
  started eval_line writable timestr lines load_faults = crashes
  started eval_line writable timestr lines (load_exits status) = quits
  started none writable timestr lines (loaded l) =
      typed (vtysh_lines crypt (handle systems stdin) cmdvec lines l.shell)
  started (some line) writable timestr lines (loaded l) =
      eval_ended writable timestr
        (vtysh_lines crypt (handle systems stdin) cmdvec (eval_lines line) l.shell)

  abbrev pub boot_ended : Loaded → Run
  boot_ended load_faults = crashes
  boot_ended (load_exits status) = quits
  boot_ended (loaded l) = booted l.shell

  -- `none`: the file cannot be opened, and the session stays as it is.
  abbrev pub load_if : (CString → Session → Loaded) → Option CString → Loaded
  load_if load none = loaded (record { file = initial.vty; shell = initial })
  load_if load (some text) = load text initial

  -- With the file, whether it can be written, the string of the time, and the lines that are typed.
  unfoldable pub main : Options → Option CString → Bool → CString → List CString → Run
  unfolding vtysh_load_config vtysh_boot_config
  main options file writable timestr lines =
      if options.boot
      then boot_ended (load_if (vtysh_boot_config crypt (handle systems stdin) cmdvec) file)
      else started options.eval_line writable timestr lines
          (load_if (vtysh_load_config crypt (handle systems stdin) cmdvec) file)
