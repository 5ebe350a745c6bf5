-- ===== src/Program/Main/Eval.antt =====
-- A line that is given by the option -e, on a configuration that was written.
use mathlib.Core.Option
use qr_wireguard_ui.Base.{
  ◌≤◌, true, false, ◌≡◌, refl, ap, ◌∙◌, Option, none, some, List, [], ◌∷◌, length,
}
use qr_wireguard_ui.Text.{CString, codes}
use qr_wireguard_ui.Command.{Code}
use qr_wireguard_ui.Config.Order.{IsSorted}
use qr_wireguard_ui.Session.{
  enable_node, config_node, Session, Step, faults, exits, returns, set_node,
}
use qr_wireguard_ui.Session.Common.{succeeds}
use qr_wireguard_ui.Session.Shell.{vtysh_execute, vtysh_lines}
use qr_wireguard_ui.Session.File.{config_dump}
use qr_wireguard_ui.Session.File.Lines.{one_line, AllFit}
use qr_wireguard_ui.Cmd.{System}
use qr_wireguard_ui.Program.{handle}
use qr_wireguard_ui.Program.Install.{cmdvec}
use qr_wireguard_ui.Program.Saved.{Saved, lines, AllSavable, NoneClash}
use qr_wireguard_ui.Program.Saved.Reloaded.{vtysh_load_config-config_dump}
use qr_wireguard_ui.Program.Main.{initial, written, eval_lines, main}

abbrev at_start : List CString → Session
at_start config = record initial { config_top = config }

abbrev enabled : List CString → Session
enabled config = record (set_node enable_node initial) { config_top = config }

-- Where the shell is when the line comes.
abbrev pub start_with : List CString → Session
start_with config = record (set_node config_node initial) { config_top = config }

module _ (crypt : CString → CString → Option CString) (systems : Session → System)
    (stdin : Session → Option CString) where
  enables :
      (config : List CString)
      → vtysh_execute crypt (handle systems stdin) cmdvec (codes "enable") (at_start config)
        ≡ succeeds (enabled config)
  unfolding vtysh_execute cmdvec Option.bind
  enables config = refl

  configures :
      (config : List CString)
      → vtysh_execute crypt (handle systems stdin) cmdvec (codes "config terminal") (enabled config)
        ≡ succeeds (start_with config)
  unfolding vtysh_execute cmdvec Option.bind
  configures config = refl

  pub lines_cons :
      (line : CString) (rest : List CString) (ret : Option Code) (s s' : Session)
      → vtysh_execute crypt (handle systems stdin) cmdvec line s ≡ returns ret s'
      → vtysh_lines crypt (handle systems stdin) cmdvec (line ∷ rest) s
        ≡ vtysh_lines crypt (handle systems stdin) cmdvec rest s'
  unfolding vtysh_lines
  lines_cons line rest ret s s' h =
      ap
        (λ (step : Step). elim step as (λ x. Step) [
          | faults ↦ faults
          | exits status ↦ exits status
          | returns ret s' ↦ vtysh_lines crypt (handle systems stdin) cmdvec rest s'
        ])
        h

  eval_lines_lem :
      (config : List CString) (line : CString) (ret : Option Code) (s : Session)
      → vtysh_execute crypt (handle systems stdin) cmdvec line (start_with config) ≡ returns ret s
      → vtysh_lines crypt (handle systems stdin) cmdvec (eval_lines line) (at_start config)
        ≡ returns none s
  unfolding vtysh_lines
  eval_lines_lem config line ret s h =
      lines_cons (codes "enable") (codes "config terminal" ∷ line ∷ []) _ (at_start config)
        (enabled config) (enables config)
      ∙ lines_cons (codes "config terminal") (line ∷ []) _ (enabled config) (start_with config)
          (configures config)
      ∙ lines_cons line [] ret (start_with config) s h

  -- If a configuration that was written is loaded at the start, and the line of the option -e
  -- returns in the configuration node with those lines, then the file is written with the lines
  -- behind it.
  pub main-written :
      (timestr timestr' : CString) (xs : List Saved) (line : CString) (typed_lines : List CString)
      (ret : Option Code) (s : Session)
      → one_line timestr ≡ true
      → length timestr ≤ 499
      → AllFit (lines xs)
      → IsSorted (lines xs)
      → AllSavable xs
      → NoneClash [] xs
      → vtysh_execute crypt (handle systems stdin) cmdvec line (start_with (lines xs))
        ≡ returns ret s
      → main crypt systems stdin
          (record { boot = false; eval_line = some line })
          (some (config_dump timestr (lines xs)))
          true
          timestr'
          typed_lines
        ≡ written (config_dump timestr' s.config_top) s
  unfolding main
  main-written timestr timestr' xs line typed_lines ret s time short fits sorted good fresh h =
      rw
        (
          vtysh_load_config-config_dump crypt systems stdin timestr xs initial time short fits
              sorted good fresh,
          eval_lines_lem (lines xs) line ret s h,
        )
        refl
