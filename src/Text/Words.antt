-- ===== src/Text/Words.antt =====
-- `strtok` gives back the words that single delimiters keep apart.
use qr_wireguard_ui.Base.{
  ℕ, Bool, true, false, not, ◌&&◌, ◌≡◌, refl, ap, ◌∙◌, List, [], ◌∷◌, ◌++◌, ◌==◌, append-nil, arith,
}
use qr_wireguard_ui.Text.{CString}
use qr_wireguard_ui.Text.Strtok.{onto_first, pieces, drop_empty, strtok}

unfoldable pub lacks : ℕ → CString → Bool
lacks delim [] = true
lacks delim (c ∷ s) = not (c == delim) && lacks delim s

-- Not empty, and with no delimiter inside.
abbrev pub IsWord : ℕ → CString → Type 0
IsWord delim [] = ⊥
IsWord delim (c ∷ s) = lacks delim (c ∷ s) ≡ true

abbrev pub AllWords : ℕ → List CString → Type 0
AllWords delim [] = Unit
AllWords delim (s ∷ rest) = IsWord delim s × AllWords delim rest

-- The words, each with a delimiter in front.
abbrev pub delimited : ℕ → List CString → CString
delimited delim [] = []
delimited delim (s ∷ rest) = delim ∷ (s ++ delimited delim rest)

pieces-append :
    (delim : ℕ) (s t : CString)
    → lacks delim s ≡ true
    → pieces delim (s ++ delim ∷ t) ≡ s ∷ pieces delim t
unfolding pieces lacks
pieces-append delim [] t h = ground arith
pieces-append delim (c ∷ s) t h =
    let other : (c == delim) ≡ false = ground arith in
    rw other (ap (onto_first c) (pieces-append delim s t (ground arith)))

pieces_alone : (delim : ℕ) (s : CString) → lacks delim s ≡ true → pieces delim s ≡ s ∷ []
unfolding pieces lacks
pieces_alone delim [] h = refl
pieces_alone delim (c ∷ s) h =
    let other : (c == delim) ≡ false = ground arith in
    rw other (ap (onto_first c) (pieces_alone delim s (ground arith)))

pub strtok-delimited :
    (delim : ℕ) (s : CString) (rest : List CString)
    → AllWords delim (s ∷ rest)
    → strtok delim (s ++ delimited delim rest) ≡ s ∷ rest
unfolding strtok
strtok-delimited delim [] rest h = absurd h.0
strtok-delimited delim (c ∷ s) [] h =
    ap drop_empty (ap (pieces delim) (append-nil (c ∷ s)) ∙ pieces_alone delim (c ∷ s) h.0)
strtok-delimited delim (c ∷ s) (t ∷ rest) h =
    ap drop_empty (pieces-append delim (c ∷ s) (t ++ delimited delim rest) h.0)
    ∙ ap (◌∷◌ (c ∷ s)) (strtok-delimited delim t rest h.1)
