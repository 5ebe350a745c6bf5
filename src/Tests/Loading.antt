-- ===== src/Tests/Loading.antt =====
-- Writing a configuration and reading it back.
use qr_wireguard_ui.Base.{◌≡◌, true, refl, Option, none, List, [], ◌∷◌, arith}
use qr_wireguard_ui.Text.{CString, codes}
use qr_wireguard_ui.Command.Execute.{CmdVector}
use qr_wireguard_ui.Session.{
  NodeType, config_node, view_node, vty_file, vty_shell, Session, Step, faults,
}
use qr_wireguard_ui.Session.Shell.{Func}
use qr_wireguard_ui.Session.File.{config_dump, Load, load_lines, vtysh_config_from_file}
use qr_wireguard_ui.Session.File.Lines.{
  one_line, AllFit, buffers, vtysh_config_from_file-config_dump,
}

abbrev never : CString → CString → Option CString
never passwd salt = none

abbrev nobody : ⊥ → List CString → Session → Step
nobody h argv s = faults

abbrev nothing_installed : NodeType → CmdVector (Func ⊥)
nothing_installed node = []

abbrev booting : Load
booting = record {
  file = record { type = vty_file; node = config_node };
  shell = record {
    vty = record { type = vty_shell; node = view_node };
    host = record { name = none; enable = none; enable_encrypt = none; trytimes = 0 };
    config_top = [];
  };
}

abbrev saved : List CString
saved = codes "dns 1.1.1.1" ∷ codes "hostname r1" ∷ []

saved-AllFit : AllFit saved
unfolding one_line
saved-AllFit = ((refl, omega arith), ((refl, omega arith), tt))

time_one_line : one_line (codes "Mon Jan  6 12:00:00 2025") ≡ true
unfolding one_line
time_one_line = refl

vtysh_config_from_file-config_dump_example :
    vtysh_config_from_file never nobody nothing_installed
      (config_dump (codes "Mon Jan  6 12:00:00 2025") saved)
      booting
    ≡ load_lines never nobody nothing_installed (buffers saved) booting
vtysh_config_from_file-config_dump_example =
    vtysh_config_from_file-config_dump never nobody nothing_installed
      (codes "Mon Jan  6 12:00:00 2025") saved booting time_one_line (omega arith) saved-AllFit
