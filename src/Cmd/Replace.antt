-- ===== src/Cmd/Replace.antt =====
-- "Delete the line that begins like this, add the new line", and what follows ENSURE_CONFIG.
use qr_wireguard_ui.Base.{
  ℕ, ◌≤◌, ◌<◌, ◌++◌, true, false, ◌≡◌, ◌≢◌, refl, sym, ◌∙◌, some, List, [], arith, inl, inr,
  Bool-cases,
}
use mathlib.Core.Path.{subst}
use qr_wireguard_ui.Text.{CString, starts_with, str_lt}
use qr_wireguard_ui.Command.{Code, cmd_success}
use qr_wireguard_ui.Config.{add_before, config_del_line_byleft, config_get_line_byleft}
use qr_wireguard_ui.Config.Printf.{no_percent, vasprintf, vasprintf-no_percent}
use qr_wireguard_ui.Config.Lines.{count, occurrences, replace_byleft, config_add_line_lem}
use qr_wireguard_ui.Session.{Session}
use qr_wireguard_ui.Session.Common.{is_file}
use qr_wireguard_ui.Cmd.{
  World, M, pure, ◌>>=◌, ◌>>◌, set_config, config_of, concat, total, sprintf, snprintf,
  del_line_byleft, add_line, replace_line, ensure_config,
}
use qr_wireguard_ui.Cmd.Quiet.{Succeeds, sprintf-fits, snprintf-fits}
use qr_wireguard_ui.Cmd.Parts.{AllPlain, no_percent-concat, starts_with-concat, total-append}

-- One line begins with `left`, it is `line`, and all else of the session is as before.
abbrev pub HasReplaced : CString → CString → Session → Session → Type 0
HasReplaced left line s s' =
    (s'.vty ≡ s.vty)
    × (s'.host ≡ s.host)
    × (count (starts_with left) s'.config_top ≡ 1)
    × (config_get_line_byleft s'.config_top left ≡ some line)
    × ((l : CString)
        → starts_with left l ≡ false
        → occurrences l s'.config_top ≡ occurrences l s.config_top)

-- The handler succeeds, and runs nothing while a file is loaded.
abbrev pub Replaces : CString → CString → M Code → World → Type 0
Replaces left line m w =
    (w' : World) × (m w ≡ some (cmd_success, w'))
    × HasReplaced left line w.session w'.session
    × (is_file w.session.vty.type ≡ true → w'.ran ≡ w.ran)

pub ensure_success : (w : World) → ensure_config (pure cmd_success) w ≡ some (cmd_success, w)
unfolding ensure_config pure
ensure_success w = ground arith

pub ensure_config_lem :
    (rest : M Code) (w : World)
    → Succeeds rest
    → (w' : World) × (ensure_config rest w ≡ some (cmd_success, w'))
      × (w'.session ≡ w.session)
      × (is_file w.session.vty.type ≡ true → w'.ran ≡ w.ran)
unfolding ensure_config
ensure_config_lem rest w q = elim (Bool-cases (is_file w.session.vty.type)) [
  | inl file ↦ (w, rw file refl, refl, λ _. refl)
  | inr term ↦
      let (w', ran, same) = q.at w in (w', rw term ran, same, λ file. absurd (ground arith))
]

module _ (left line fmt : CString) (args : List CString) (w : World) (ne : left ≢ [])
    (printed : vasprintf fmt args ≡ some line) (starts : starts_with left line ≡ true)
    (once : count (starts_with left) (config_of w) ≤ 1) where
  pub replace_line_lem :
      (w' : World) × (replace_line (pure left) (pure fmt) args w ≡ some (tt, w'))
      × (w'.ran ≡ w.ran)
      × HasReplaced left line w.session w'.session
  unfolding replace_line pure del_line_byleft add_line
  replace_line_lem =
      let (c, added, one, found, others) =
        replace_byleft (config_of w) left fmt args line ne printed starts once in
      (set_config w c, rw (added, add_line) refl, refl, (refl, refl, one, found, others))

  pub replace_line-Replaces :
      (rest : M Code)
      → Succeeds rest
      → Replaces left line (replace_line (pure left) (pure fmt) args >> ensure_config rest) w
  unfolding ◌>>=◌
  replace_line-Replaces rest q =
      let (w', set, quiet, done) = replace_line_lem in
      let (w'', ran, same, loads) = ensure_config_lem rest w' q in
      (
        w'',
        rw (set, ◌>>=◌) ran,
        subst (HasReplaced left line w.session) (sym same) done,
        λ file. loads (subst (λ v. is_file v.type ≡ true) (sym done.0) file) ∙ quiet,
      )

-- The two texts fit their buffer, and the first is the beginning of the second.
module _ (parts more : List CString) (w : World) (size : ℕ) (fits : total (parts ++ more) < size)
    (plain : AllPlain (parts ++ more)) (ne : concat parts ≢ [])
    (once : count (starts_with (concat parts)) (config_of w) ≤ 1) (rest : M Code)
    (q : Succeeds rest) where
  replace_parts :
      Replaces
        (concat parts)
        (concat (parts ++ more))
        (replace_line (pure (concat parts)) (pure (concat (parts ++ more))) []
          >> ensure_config rest)
        w
  replace_parts =
      replace_line-Replaces (concat parts) (concat (parts ++ more)) (concat (parts ++ more)) [] w ne
        (vasprintf-no_percent _ (no_percent-concat (parts ++ more) plain))
        (starts_with-concat parts more) once rest q

  pub replace_printed :
      Replaces
        (concat parts)
        (concat (parts ++ more))
        (replace_line (sprintf size parts) (sprintf size (parts ++ more)) [] >> ensure_config rest)
        w
  replace_printed =
      rw
        (
          sprintf-fits size (parts ++ more) fits,
          sprintf-fits size parts (omega (arith, fits, total-append parts more)),
        )
        replace_parts

  pub replace_cut :
      Replaces
        (concat parts)
        (concat (parts ++ more))
        (replace_line (snprintf size parts) (snprintf size (parts ++ more)) []
          >> ensure_config rest)
        w
  replace_cut =
      rw
        (
          snprintf-fits size (parts ++ more) fits,
          snprintf-fits size parts (omega (arith, fits, total-append parts more)),
        )
        replace_parts

-- The configuration behind it, exactly.
pub replace_line_config :
    (left fmt line : CString) (args : List CString) (w : World)
    → vasprintf fmt args ≡ some line
    → line ≢ []
    → replace_line (pure left) (pure fmt) args w
      ≡ some (tt, set_config w (add_before str_lt line (config_del_line_byleft (config_of w) left)))
unfolding replace_line pure del_line_byleft add_line
replace_line_config left fmt line args w printed ne =
    rw
      (
        config_add_line_lem (config_del_line_byleft (config_of w) left) fmt args line printed ne,
        add_line,
      )
      refl

pub add_line_lem :
    (line : CString) (w : World)
    → no_percent line ≡ true
    → line ≢ []
    → add_line line [] w ≡ some (tt, set_config w (add_before str_lt line (config_of w)))
unfolding add_line
add_line_lem line w plain ne =
    rw
      (
        config_add_line_lem (config_of w) line [] line (vasprintf-no_percent line plain) ne,
        add_line,
      )
      refl
