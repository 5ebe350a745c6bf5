-- ===== src/Text/Strtok.antt =====
-- `strtok` of <string.h> with one delimiter.
use qr_wireguard_ui.Base.{ℕ, List, [], ◌∷◌, ◌==◌, if◌then◌else◌}
use qr_wireguard_ui.Text.{CString}

-- The pieces between delimiters, empty ones included.
abbrev pub onto_first : ℕ → List CString → List CString
onto_first c [] = (c ∷ []) ∷ []
onto_first c (s ∷ rest) = (c ∷ s) ∷ rest

unfoldable pub pieces : ℕ → CString → List CString
pieces delim [] = [] ∷ []
pieces delim (c ∷ s) =
    let rest = pieces delim s in if c == delim then [] ∷ rest else onto_first c rest

abbrev pub drop_empty : List CString → List CString
drop_empty [] = []
drop_empty ([] ∷ rest) = drop_empty rest
drop_empty ((c ∷ s) ∷ rest) = (c ∷ s) ∷ drop_empty rest

-- What the calls return one after the other, up to the NULL: empty pieces are skipped.
unfoldable pub strtok : ℕ → CString → List CString
unfolding pieces
strtok delim s = drop_empty (pieces delim s)
