-- ===== src/Program/Saved/Reloaded.antt =====
-- A configuration that was written is there again when the program starts.
use qr_wireguard_ui.Base.{◌≤◌, true, ◌≡◌, ◌∙◌, ap, Option, List, [], ◌∷◌, ◌++◌, length}
use qr_wireguard_ui.Text.{CString}
use qr_wireguard_ui.Config.Order.{IsSorted}
use qr_wireguard_ui.Session.{config_node, vty_file, Session}
use qr_wireguard_ui.Session.Shell.{run}
use qr_wireguard_ui.Session.File.{newline, config_dump, loaded, vtysh_load_config}
use qr_wireguard_ui.Session.File.Lines.{one_line, AllFit}
use qr_wireguard_ui.Session.File.Reload.{Replays, AllReplay, load_config_lem}
use qr_wireguard_ui.Cmd.{System}
use qr_wireguard_ui.Program.{handle}
use qr_wireguard_ui.Program.Install.{cmdvec}
use qr_wireguard_ui.Program.Saved.{Saved, line, lines, clash, IsSavable, AllSavable, NoneClash}
use qr_wireguard_ui.Program.Saved.Dispatched.{
  line_words, arguments_of, dispatched, no_comment, line_split,
}
use qr_wireguard_ui.Program.Saved.Added.{run_adds}

module _ (crypt : CString → CString → Option CString) (systems : Session → System)
    (stdin : Session → Option CString) where
  saved-Replays :
      (x : Saved) → IsSavable x → Replays crypt (handle systems stdin) cmdvec (line x) (clash x)
  saved-Replays x h =
      let (e, called, func) = dispatched x in
      record {
        vline = line_words x;
        e = e;
        argv = arguments_of x;
        no_bang = (no_comment x (newline ∷ [])).0;
        no_hash = (no_comment x (newline ∷ [])).1;
        split = line_split x h;
        dispatched = called;
        adds = λ s file fresh.
            ap (λ f. run crypt (handle systems stdin) cmdvec f (arguments_of x) s) func
            ∙ run_adds crypt systems stdin x s h file fresh;
      }

  saved-AllReplay :
      (xs : List Saved) (done : List CString)
      → AllSavable xs
      → NoneClash done xs
      → AllReplay crypt (handle systems stdin) cmdvec done (lines xs)
  saved-AllReplay [] done h k = tt
  saved-AllReplay (x ∷ xs) done h k =
      ((clash x, saved-Replays x h.0, k.0), saved-AllReplay xs (done ++ (line x ∷ [])) h.1 k.1)

  -- Take a sorted configuration of lines that the commands for the host name, the disabled bridge,
  -- the link, and peers with a key or with allowed addresses write, with arguments that they accept,
  -- that are words of at most 200 bytes without quotation marks and percent signs, and no line of
  -- which is taken out by the command of another. If the lines fit the buffer, and the string of the
  -- time does, then loading the text that `config_dump` writes, with the commands that the program
  -- installs, into a session with no configuration gives the session with the same configuration.
  pub vtysh_load_config-config_dump :
      (timestr : CString) (xs : List Saved) (s : Session)
      → one_line timestr ≡ true
      → length timestr ≤ 499
      → AllFit (lines xs)
      → IsSorted (lines xs)
      → AllSavable xs
      → NoneClash [] xs
      → vtysh_load_config crypt
          (handle systems stdin)
          cmdvec
          (config_dump timestr (lines xs))
          (record s { config_top = [] })
        ≡ loaded (record {
          file = record { type = vty_file; node = config_node };
          shell = record s { config_top = lines xs };
        })
  vtysh_load_config-config_dump timestr xs s time short fits sorted good none =
      load_config_lem crypt (handle systems stdin) cmdvec timestr (lines xs) s time short fits
        sorted (saved-AllReplay xs [] good none)
