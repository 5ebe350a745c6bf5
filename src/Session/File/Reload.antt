-- ===== src/Session/File/Reload.antt =====
-- A configuration that was written is there again when the file is loaded.
use qr_wireguard_ui.Base.{
  ◌≤◌, Bool, false, true, ◌≡◌, refl, ap, sym, ◌∙◌, Option, some, List, [], ◌∷◌, ◌++◌, ◌==◌, length,
  append-nil, append_assoc,
}
use mathlib.Core.Path.{subst}
use qr_wireguard_ui.Text.{CString, codes, first, str_lt}
use qr_wireguard_ui.Command.{CmdElement, cmd_success}
use qr_wireguard_ui.Command.Tokens.{cmd_make_strvec}
use qr_wireguard_ui.Command.Execute.{CmdVector, calls, cmd_execute_command_strict}
use qr_wireguard_ui.Config.{add_before}
use qr_wireguard_ui.Config.Order.{IsSorted, add_before-last}
use qr_wireguard_ui.Config.Lines.{count}
use qr_wireguard_ui.Session.{NodeType, config_node, vty_file, Vty, Session, Step, returns}
use qr_wireguard_ui.Session.Shell.{Func, run}
use qr_wireguard_ui.Session.File.{
  newline, config_dump, Load, loaded, load_line, load_lines, vtysh_load_config, strict_step,
  first_try,
}
use qr_wireguard_ui.Session.File.Lines.{
  one_line, AllFit, buffers, vtysh_config_from_file-config_dump,
}

module _ {H : Type 0} (crypt : CString → CString → Option CString)
    (other : H → List CString → Session → Step) (cmdvec : NodeType → CmdVector (Func H)) where
  -- The line is no comment, it is dispatched to a handler, and while a file is loaded the handler
  -- adds just this line where no line clashes with it.
  pub record Replays (line : CString) (clash : CString → Bool) : Type 0 where
    pub vline : List CString
    pub e : CmdElement (Func H)
    pub argv : List CString
    pub no_bang : (first (line ++ (newline ∷ [])) == b'!') ≡ false
    pub no_hash : (first (line ++ (newline ∷ [])) == b'#') ≡ false
    pub split : cmd_make_strvec (some (line ++ (newline ∷ []))) ≡ some vline
    pub dispatched : cmd_execute_command_strict vline (cmdvec config_node) ≡ calls e argv
    pub adds :
        (s : Session)
        → s.vty.type ≡ vty_file
        → count clash s.config_top ≡ 0
        → run crypt other cmdvec e.func argv s
          ≡ returns
              (some cmd_success)
              (record s { config_top = add_before str_lt line s.config_top })

  -- Each line replays behind the lines in front of it.
  abbrev pub AllReplay : List CString → List CString → Type 0
  AllReplay done [] = Unit
  AllReplay done (line ∷ rest) =
      ((clash : CString → Bool) × Replays line clash × (count clash done ≡ 0))
      × AllReplay (done ++ (line ∷ [])) rest

  abbrev file_vty : Vty
  file_vty = record { type = vty_file; node = config_node }

  -- The state of the load, with some lines read.
  abbrev at : Session → List CString → Load
  at s config = record { file = file_vty; shell = record s { config_top = config } }

  -- A line that is no comment is tried in the node of the file.
  load_line_lem :
      (buf : CString) (l : Load) (vline : List CString)
      → (first buf == b'!') ≡ false
      → (first buf == b'#') ≡ false
      → cmd_make_strvec (some buf) ≡ some vline
      → load_line crypt other cmdvec buf l
        ≡ first_try crypt other cmdvec vline l (strict_step crypt other cmdvec vline l)
  unfolding load_line
  load_line_lem buf l vline no_bang no_hash split = rw (no_hash, split, no_bang) refl

  load_line-Replays :
      (line : CString) (clash : CString → Bool) (s : Session) (done : List CString)
      → Replays line clash
      → count clash done ≡ 0
      → load_line crypt other cmdvec (line ++ (newline ∷ [])) (at s done)
        ≡ loaded (at s (add_before str_lt line done))
  unfolding strict_step
  load_line-Replays line clash s done r fresh =
      load_line_lem (line ++ (newline ∷ [])) (at s done) r.vline r.no_bang r.no_hash r.split
      ∙ rw (r.dispatched, r.adds (record s { vty = file_vty; config_top = done }) refl fresh) refl

  -- The last line, of the exclamation mark.
  load_line_bang :
      (s : Session) (done : List CString)
      → load_line crypt other cmdvec (codes "!\n") (at s done) ≡ loaded (at s done)
  unfolding load_line cmd_make_strvec
  load_line_bang s done = refl

  load_lines-AllReplay :
      (rest : List CString) (s : Session) (done : List CString)
      → IsSorted (done ++ rest)
      → AllReplay done rest
      → load_lines crypt other cmdvec (buffers rest) (at s done) ≡ loaded (at s (done ++ rest))
  unfolding load_lines
  load_lines-AllReplay [] s done sorted r =
      rw (load_lines, load_line_bang s done) (ap (λ d. loaded (at s d)) (sym (append-nil done)))
  load_lines-AllReplay (line ∷ rest) s done sorted ((clash, r, fresh), more) =
      rw
        (
          load_lines,
          load_line-Replays line clash s done r fresh,
          add_before-last done line rest sorted,
        )
        (load_lines-AllReplay rest s (done ++ (line ∷ []))
            (subst IsSorted (sym (append_assoc done (line ∷ []) rest)) sorted) more
          ∙ ap (λ d. loaded (at s d)) (append_assoc done (line ∷ []) rest))

  -- A sorted configuration of lines that replay is loaded back.
  pub load_config_lem :
      (timestr : CString) (config : List CString) (s : Session)
      → one_line timestr ≡ true
      → length timestr ≤ 499
      → AllFit config
      → IsSorted config
      → AllReplay [] config
      → vtysh_load_config crypt other cmdvec
          (config_dump timestr config)
          (record s { config_top = [] })
        ≡ loaded (record { file = file_vty; shell = record s { config_top = config } })
  unfolding vtysh_load_config
  load_config_lem timestr config s h short fits sorted r =
      vtysh_config_from_file-config_dump crypt other cmdvec timestr config (at s []) h short fits
      ∙ load_lines-AllReplay config s [] sorted r
