-- ===== src/Tests/Restarting.antt =====
-- The program with all its commands: a session that is typed, and a configuration that is loaded.
use mathlib.Core.Option
use qr_wireguard_ui.Base.{◌≡◌, true, false, refl, Option, none, some, List, [], ◌∷◌, arith}
use qr_wireguard_ui.Text.{CString, codes, is_space, str_lt, str_eq, starts_with, is_digit}
use qr_wireguard_ui.Command.Tokens.{ends_word}
use qr_wireguard_ui.Command.Tokens.Split.{word_bytes, no_quote}
use qr_wireguard_ui.Config.{delete_first}
use qr_wireguard_ui.Config.Printf.{no_percent}
use qr_wireguard_ui.Config.Order.{IsSorted}
use qr_wireguard_ui.Config.Lines.{count}
use qr_wireguard_ui.Session.{config_node, view_node, vty_file, vty_shell, Session, Step, returns}
use qr_wireguard_ui.Session.Common.{is_alpha}
use qr_wireguard_ui.Session.Shell.{vtysh_execute, vtysh_lines}
use qr_wireguard_ui.Command.{cmd_success}
use qr_wireguard_ui.Program.Main.{written, main}
use qr_wireguard_ui.Program.Main.Eval.{start_with, main-written}
use qr_wireguard_ui.Session.File.{config_dump, loaded, vtysh_load_config}
use qr_wireguard_ui.Session.File.Lines.{one_line, AllFit}
use qr_wireguard_ui.Cmd.{System, del_line_byleft, add_line, ensure_config}
use qr_wireguard_ui.Cmd.Parts.{cons-ne-nil}
use qr_wireguard_ui.Cmd.Vpn.{is_public_key, is_allowed_ips, wg_link, link_set, wg_peer_public_key}
use qr_wireguard_ui.Program.{handle}
use qr_wireguard_ui.Program.Install.{cmdvec}
use qr_wireguard_ui.Program.Saved.{
  Saved, hostname, bridge_disabled, wg_link_up, wg_peer_ips, lines, IsArgument, AllSavable,
  NoneClash,
}
use qr_wireguard_ui.Program.Saved.Reloaded.{vtysh_load_config-config_dump}
use qr_wireguard_ui.Tests.Addresses.{works}

abbrev pub unlocked : Session
unlocked = record {
  vty = record { type = vty_shell; node = view_node };
  host = record { name = none; enable = none; enable_encrypt = none; trytimes = 0 };
  config_top = [];
}

abbrev pub no_hash : CString → CString → Option CString
no_hash passwd salt = none

abbrev pub systems : Session → System
systems s = works

abbrev pub no_answer : Session → Option CString
no_answer s = none

abbrev configured : Step → List CString
configured (returns ret s) = s.config_top
configured _ = []

typed_lines :
    configured (
      vtysh_lines no_hash
        (handle systems no_answer)
        cmdvec
        (codes "enable"
          ∷ codes "configure terminal"
          ∷ codes "wg link-up"
          ∷ codes "host r1"
          ∷ codes "wg link-down"
          ∷ codes "wg peer short="
          ∷ [])
        unlocked)
    ≡ codes "hostname r1" ∷ codes "wg link-down" ∷ []
unfolding vtysh_lines cmdvec handle Option.bind wg_link del_line_byleft add_line ensure_config
    link_set wg_peer_public_key delete_first str_lt
typed_lines = refl

abbrev kept : List Saved
kept =
    bridge_disabled
    ∷ hostname (codes "r1")
    ∷ wg_link_up
    ∷ wg_peer_ips (codes "aaaaaaaaaaaaaaaaaaaaaaaaaaaaaaaaaaaaaaaaaaa=") (codes "10.0.0.2/32")
    ∷ []

kept-AllFit : AllFit (lines kept)
unfolding one_line
kept-AllFit =
    ((refl, omega arith), ((refl, omega arith), ((refl, omega arith), ((refl, omega arith), tt))))

kept-IsSorted : IsSorted (lines kept)
unfolding str_lt
kept-IsSorted = ((refl, (refl, (refl, tt))), ((refl, (refl, tt)), ((refl, tt), (tt, tt))))

name-IsArgument : IsArgument (codes "r1")
unfolding word_bytes no_quote no_percent ends_word is_space
name-IsArgument = ((cons-ne-nil _ _, refl), refl, refl, omega arith)

key-IsArgument : IsArgument (codes "aaaaaaaaaaaaaaaaaaaaaaaaaaaaaaaaaaaaaaaaaaa=")
unfolding word_bytes no_quote no_percent ends_word is_space
key-IsArgument = ((cons-ne-nil _ _, refl), refl, refl, omega arith)

ips-IsArgument : IsArgument (codes "10.0.0.2/32")
unfolding word_bytes no_quote no_percent ends_word is_space
ips-IsArgument = ((cons-ne-nil _ _, refl), refl, refl, omega arith)

kept-AllSavable : AllSavable kept
unfolding is_alpha is_public_key is_allowed_ips is_digit
kept-AllSavable =
    (tt, ((name-IsArgument, refl), (tt, ((key-IsArgument, refl, ips-IsArgument, refl), tt))))

kept-NoneClash : NoneClash [] kept
unfolding count starts_with str_eq
kept-NoneClash = (refl, (refl, (refl, (refl, tt))))

date_one_line : one_line (codes "Mon Jan  6 12:00:00 2025") ≡ true
unfolding one_line
date_one_line = refl

vtysh_load_config-config_dump_example :
    vtysh_load_config no_hash
      (handle systems no_answer)
      cmdvec
      (config_dump (codes "Mon Jan  6 12:00:00 2025") (lines kept))
      unlocked
    ≡ loaded (record {
      file = record { type = vty_file; node = config_node };
      shell = record unlocked { config_top = lines kept };
    })
vtysh_load_config-config_dump_example =
    vtysh_load_config-config_dump no_hash systems no_answer (codes "Mon Jan  6 12:00:00 2025") kept
      unlocked date_one_line (omega arith) kept-AllFit kept-IsSorted kept-AllSavable kept-NoneClash

abbrev linked_down : Session
linked_down = record (start_with (lines kept)) {
  config_top =
      codes "bridge disable"
      ∷ codes "hostname r1"
      ∷ codes "wg link-down"
      ∷ codes "wg peer aaaaaaaaaaaaaaaaaaaaaaaaaaaaaaaaaaaaaaaaaaa= allowed-ips 10.0.0.2/32"
      ∷ [];
}

link_down_runs :
    vtysh_execute no_hash
      (handle systems no_answer)
      cmdvec
      (codes "wg link-down")
      (start_with (lines kept))
    ≡ returns (some cmd_success) linked_down
unfolding vtysh_execute cmdvec handle Option.bind wg_link del_line_byleft add_line ensure_config
    link_set delete_first str_lt
link_down_runs = refl

main-written_example :
    main no_hash systems no_answer
      (record { boot = false; eval_line = some (codes "wg link-down") })
      (some (config_dump (codes "Mon Jan  6 12:00:00 2025") (lines kept)))
      true
      (codes "Tue Jan  7 12:00:00 2025")
      []
    ≡ written (config_dump (codes "Tue Jan  7 12:00:00 2025") linked_down.config_top) linked_down
main-written_example =
    main-written no_hash systems no_answer (codes "Mon Jan  6 12:00:00 2025")
      (codes "Tue Jan  7 12:00:00 2025") kept (codes "wg link-down") [] (some cmd_success)
      linked_down date_one_line (omega arith) kept-AllFit kept-IsSorted kept-AllSavable
      kept-NoneClash link_down_runs
