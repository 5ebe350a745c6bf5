-- ===== src/Cmd/Fw/Apply/Redirects.antt =====
-- The file of port forwarding rules: each line that the command on a rule writes becomes the section
-- of the rule.
use qr_wireguard_ui.Base.{◌≡◌, refl, some, List, [], ◌∷◌, ◌++◌, arith, append-nil, length}
use mathlib.Core.Option
use qr_wireguard_ui.Text.{CString}
use qr_wireguard_ui.Text.Laws.{starts_with-append}
use qr_wireguard_ui.Text.Words.{delimited, strtok-delimited}
use qr_wireguard_ui.Session.File.{newline, dump_lines}
use qr_wireguard_ui.Session.File.Lines.{one_line, dump-le}
use qr_wireguard_ui.Session.Portmap.{Portmap, portmap_line}
use qr_wireguard_ui.Cmd.Fw.Apply.{
  behind, eol, redirect, portmap_head, portmap_body, portmap_loop, portmap_sections,
}
use qr_wireguard_ui.Cmd.Fw.Apply.Buffers.{
  AllFields, fields_words, fields_length, chop-append, AllOneLine, ended, read_lines-lines, line_of,
  one_line-line_of, params-filled,
}

abbrev pub fields : Portmap → List CString
fields p = p.num ∷ p.interface ∷ p.address ∷ p.protocol ∷ p.port1 ∷ p.port2 ∷ []

portmap_line-fields : (p : Portmap) → portmap_line p ≡ line_of portmap_head (fields p)
unfolding portmap_line
portmap_line-fields p = rw (append-nil p.port2) refl

behind_lem :
    (s : CString) (rest : List CString)
    → behind portmap_head (line_of portmap_head (s ∷ rest)) ≡ s ++ delimited b' ' rest
unfolding behind
behind_lem s rest = refl

portmap_body_lem :
    (p : Portmap)
    → AllFields 32 (fields p)
    → portmap_body (portmap_line p ++ newline ∷ []) ≡ some (redirect (fields p))
unfolding portmap_body
portmap_body_lem p h =
    rw
      (
        portmap_line-fields p,
        chop-append (line_of portmap_head (fields p)),
        starts_with-append portmap_head (delimited b' ' (fields p)),
        behind_lem p.num _,
        strtok-delimited b' ' p.num _ (fields_words 32 (fields p) h),
        params-filled 6 32 (fields p) refl refl h,
      )
      refl

abbrev pub lines : List Portmap → List CString
lines [] = []
lines (p ∷ ps) = portmap_line p ∷ lines ps

abbrev pub redirects : List Portmap → CString
redirects [] = []
redirects (p ∷ ps) = redirect (fields p) ++ redirects ps

abbrev pub AllPortmaps : List Portmap → Type 0
AllPortmaps [] = Unit
AllPortmaps (p ∷ ps) = AllFields 32 (fields p) × AllPortmaps ps

portmap_loop_lem :
    (ps : List Portmap) → AllPortmaps ps → portmap_loop (ended (lines ps)) ≡ some (redirects ps)
unfolding portmap_loop Option.bind
portmap_loop_lem [] h = refl
portmap_loop_lem (p ∷ ps) h = rw (portmap_body_lem p h.0, portmap_loop_lem ps h.1) refl

lines-AllOneLine : (ps : List Portmap) → AllPortmaps ps → AllOneLine (lines ps)
unfolding one_line
lines-AllOneLine [] h = tt
lines-AllOneLine (p ∷ ps) h = rw (portmap_line-fields p) (
  (
    one_line-line_of 32 portmap_head (fields p) refl h.0,
    omega (arith, fields_length 32 (fields p) h.0),
  ),
  lines-AllOneLine ps h.1,
)

-- If the arguments of port forwarding rules are words of less than 32 bytes, then a file of the lines
-- of the rules, as the command on a rule writes them, is read without a fault, and gives the section
-- of each rule in order behind an empty line.
pub portmap_sections-redirects :
    (ps : List Portmap)
    → AllPortmaps ps
    → portmap_sections (dump_lines (lines ps)) ≡ some (eol ++ redirects ps)
unfolding portmap_sections
portmap_sections-redirects ps h =
    rw
      (
        read_lines-lines (length (dump_lines (lines ps))) (lines ps) (lines-AllOneLine ps h)
            (dump-le (lines ps)),
        portmap_loop_lem ps h,
      )
      refl
