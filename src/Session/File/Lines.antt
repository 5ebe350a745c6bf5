-- ===== src/Session/File/Lines.antt =====
-- A dumped configuration is read back line by line.
use qr_wireguard_ui.Base.{
  ℕ, zero, suc, ◌≤◌, ◌<◌, Bool, true, false, not, ◌&&◌, ◌≡◌, refl, ap, ◌∙◌, Option, List, [], ◌∷◌,
  ◌++◌, ◌==◌, arith, length, length-append, append_assoc,
}
use qr_wireguard_ui.Text.{CString, codes}
use qr_wireguard_ui.Command.Execute.{CmdVector}
use qr_wireguard_ui.Session.{NodeType, Session, Step}
use qr_wireguard_ui.Session.Shell.{Func}
use qr_wireguard_ui.Session.File.{
  newline, fgets, vty_bufsiz_room, read_lines, dump_lines, config_dump, Load, load_lines,
  vtysh_config_from_file,
}

unfoldable pub one_line : CString → Bool
one_line [] = true
one_line (c ∷ s) = not (c == newline) && one_line s

-- A line that a buffer has room for.
abbrev pub Fits : CString → Type 0
Fits s = (one_line s ≡ true) × (length s ≤ 510)

abbrev pub AllFit : List CString → Type 0
AllFit [] = Unit
AllFit (line ∷ rest) = Fits line × AllFit rest

fgets-line :
    (room : ℕ) (s rest : CString)
    → one_line s ≡ true
    → length s < room
    → fgets room (s ++ newline ∷ rest) ≡ (s ++ (newline ∷ []), rest)
unfolding fgets one_line
fgets-line zero s rest h l = absurd (omega arith)
fgets-line (suc room) [] rest h l = refl
fgets-line (suc room) (c ∷ s) rest h l =
    let other : (c == newline) ≡ false = ground arith in
    rw (other, fgets-line room s rest (ground arith) (omega arith)) refl

pub read_line :
    (room fuel : ℕ) (s rest : CString)
    → one_line s ≡ true
    → length s < room
    → read_lines room (suc fuel) (s ++ newline ∷ rest)
      ≡ (s ++ (newline ∷ [])) ∷ read_lines room fuel rest
unfolding read_lines
read_line room fuel [] rest h l =
    ap (λ (p : CString × CString). p.0 ∷ read_lines room fuel p.1) (fgets-line room [] rest h l)
read_line room fuel (c ∷ s) rest h l =
    ap (λ (p : CString × CString). p.0 ∷ read_lines room fuel p.1)
      (fgets-line room (c ∷ s) rest h l)

-- The buffers of a dump behind its first line.
abbrev pub buffers : List CString → List CString
buffers [] = codes "!\n" ∷ []
buffers (line ∷ rest) = (line ++ (newline ∷ [])) ∷ buffers rest

bang-Fits : Fits (codes "!")
unfolding one_line
bang-Fits = (refl, omega arith)

pub read_lines-nil : (room fuel : ℕ) → read_lines room fuel [] ≡ []
unfolding read_lines
read_lines-nil room zero = refl
read_lines-nil room (suc fuel) = refl

read_lines-dump :
    (fuel : ℕ) (config : List CString)
    → AllFit config
    → length config < fuel
    → read_lines vty_bufsiz_room fuel (dump_lines config ++ codes "!\n") ≡ buffers config
unfolding dump_lines
read_lines-dump zero config a l = absurd (omega arith)
read_lines-dump (suc fuel) [] a l =
    read_line vty_bufsiz_room fuel (codes "!") [] bang-Fits.0 (omega arith)
    ∙ ap (◌∷◌ (codes "!\n")) (read_lines-nil vty_bufsiz_room fuel)
read_lines-dump (suc fuel) (line ∷ rest) a l =
    ap (read_lines vty_bufsiz_room (suc fuel))
      (append_assoc line (newline ∷ dump_lines rest) (codes "!\n"))
    ∙ read_line vty_bufsiz_room fuel line (dump_lines rest ++ codes "!\n") a.0.0 (omega arith)
    ∙ ap (◌∷◌ (line ++ (newline ∷ []))) (read_lines-dump fuel rest a.1 (omega arith))

pub dump-le : (config : List CString) → length config ≤ length (dump_lines config)
unfolding dump_lines
dump-le [] = omega arith
dump-le (line ∷ rest) = omega (arith, dump-le rest, length-append line (newline ∷ dump_lines rest))

pub one_line-append : (s t : CString) → one_line (s ++ t) ≡ (one_line s && one_line t)
unfolding one_line
one_line-append [] t = refl
one_line-append (c ∷ s) t = ground (arith, one_line-append s t)

header-Fits :
    (timestr : CString)
    → one_line timestr ≡ true
    → length timestr ≤ 499
    → Fits (codes "#Writed on " ++ timestr)
unfolding one_line
header-Fits timestr h l = (h, omega arith)

read_lines-config_dump :
    (timestr : CString) (config : List CString)
    → one_line timestr ≡ true
    → length timestr ≤ 499
    → AllFit config
    → read_lines vty_bufsiz_room (length (config_dump timestr config)) (config_dump timestr config)
      ≡ ((codes "#Writed on " ++ timestr) ++ (newline ∷ [])) ∷ buffers config
unfolding config_dump
read_lines-config_dump timestr config h l a =
    let behind : CString = dump_lines config ++ codes "!\n" in
    read_line vty_bufsiz_room _ (codes "#Writed on " ++ timestr) behind (header-Fits timestr h l).0
      (omega (arith, (header-Fits timestr h l).1))
    ∙ ap (◌∷◌ ((codes "#Writed on " ++ timestr) ++ (newline ∷ []))) (
        read_lines-dump _ config a (
          omega (
            arith,
            length-append timestr (newline ∷ behind),
            length-append (dump_lines config) (codes "!\n"),
            dump-le config,
          )))

module _ {H : Type 0} (crypt : CString → CString → Option CString)
    (other : H → List CString → Session → Step) (cmdvec : NodeType → CmdVector (Func H)) where
  -- If the string of the time and every line of the configuration are one line each, short enough
  -- for the buffer, then reading what `config_dump` wrote executes the lines of the configuration in
  -- order, each as it stands with its newline, and then `!`.
  pub vtysh_config_from_file-config_dump :
      (timestr : CString) (config : List CString) (l : Load)
      → one_line timestr ≡ true
      → length timestr ≤ 499
      → AllFit config
      → vtysh_config_from_file crypt other cmdvec (config_dump timestr config) l
        ≡ load_lines crypt other cmdvec (buffers config) l
  unfolding vtysh_config_from_file load_lines
  vtysh_config_from_file-config_dump timestr config l h short a =
      ap (λ bufs. load_lines crypt other cmdvec bufs l)
        (read_lines-config_dump timestr config h short a)
