-- ===== src/Cmd/Fw/Apply/Buffers.antt =====
-- Lines of words, as the loop over a file reads them.
use qr_wireguard_ui.Base.{
  ℕ, zero, suc, ◌*◌, ◌≤◌, ◌<◌, true, false, ◌≡◌, refl, ap, ◌∙◌, List, [], ◌∷◌, ◌++◌, arith, length,
  length-append, take,
}
use qr_wireguard_ui.Text.{CString}
use qr_wireguard_ui.Text.Words.{IsWord, AllWords, delimited}
use qr_wireguard_ui.Session.File.{newline, read_lines, dump_lines}
use qr_wireguard_ui.Session.File.Lines.{one_line, one_line-append, read_line, read_lines-nil}
use qr_wireguard_ui.Cmd.Fw.Apply.{chop, any_long, params, filled}

-- The words of a line: not empty, shorter than `size`, with no blank and no newline.
abbrev pub AllFields : ℕ → List CString → Type 0
AllFields size [] = Unit
AllFields size (s ∷ rest) =
    (IsWord b' ' s × (one_line s ≡ true) × (length s < size)) × AllFields size rest

pub fields_words : (size : ℕ) (ws : List CString) → AllFields size ws → AllWords b' ' ws
fields_words size [] h = tt
fields_words size (s ∷ rest) h = (h.0.0, fields_words size rest h.1)

pub fields_short : (size : ℕ) (ws : List CString) → AllFields size ws → any_long size ws ≡ false
fields_short size [] h = refl
fields_short size (s ∷ rest) h = ground (arith, fields_short size rest, h.0.2)

pub fields_one_line :
    (size : ℕ) (ws : List CString) → AllFields size ws → one_line (delimited b' ' ws) ≡ true
unfolding one_line
fields_one_line size [] h = refl
fields_one_line size (s ∷ rest) h =
    one_line-append s (delimited b' ' rest) ∙ ground (arith, fields_one_line size rest, h.0.1)

pub fields_length :
    (size : ℕ) (ws : List CString)
    → AllFields size ws
    → length (delimited b' ' ws) ≤ size * length ws
fields_length size [] h = omega arith
fields_length size (s ∷ rest) h =
    grind (arith, fields_length size rest h.1, length-append s (delimited b' ' rest), h.0.2)

pub chop-append : (s : CString) → chop (s ++ newline ∷ []) ≡ s
unfolding chop
chop-append [] = refl
chop-append (c ∷ []) = refl
chop-append (c ∷ d ∷ s) = ap (◌∷◌ c) (chop-append (d ∷ s))

-- The buffers of a file of lines that fit.
abbrev pub AllOneLine : List CString → Type 0
AllOneLine [] = Unit
AllOneLine (s ∷ rest) = ((one_line s ≡ true) × (length s < 1023)) × AllOneLine rest

abbrev pub ended : List CString → List CString
ended [] = []
ended (s ∷ rest) = (s ++ (newline ∷ [])) ∷ ended rest

pub read_lines-lines :
    (fuel : ℕ) (ls : List CString)
    → AllOneLine ls
    → length ls ≤ fuel
    → read_lines 1023 fuel (dump_lines ls) ≡ ended ls
unfolding dump_lines
read_lines-lines fuel [] h e = read_lines-nil 1023 fuel
read_lines-lines zero (s ∷ rest) h e = absurd (omega arith)
read_lines-lines (suc fuel) (s ∷ rest) h e =
    read_line 1023 fuel s (dump_lines rest) h.0.0 h.0.1
    ∙ ap (◌∷◌ (s ++ (newline ∷ []))) (read_lines-lines fuel rest h.1 (omega arith))

-- A line of a head and some fields.
abbrev pub line_of : CString → List CString → CString
line_of head ws = head ++ delimited b' ' ws

pub one_line-line_of :
    (size : ℕ) (head : CString) (ws : List CString)
    → one_line head ≡ true
    → AllFields size ws
    → one_line (line_of head ws) ≡ true
one_line-line_of size head ws h fields =
    one_line-append head (delimited b' ' ws) ∙ ground (arith, h, fields_one_line size ws fields)

pub params-filled :
    (count size : ℕ) (ws : List CString)
    → take count ws ≡ ws
    → length ws ≡ count
    → AllFields size ws
    → params count size ws ≡ filled ws
unfolding params
params-filled count size ws all full fields =
    rw (all, fields_short size ws fields) (ground (arith, full))
