-- ===== src/Text/Digits.antt =====
-- Strings of digits, and what `atoi` reads from them.
use qr_wireguard_ui.Base.{◌≤◌, ◌&&◌, ◌≡◌, refl, [], ◌∷◌, ◌++◌, arith, length}
use qr_wireguard_ui.Text.{CString, all_digits, digits_value, atoi}

pub all_digits-append : (s t : CString) → all_digits (s ++ t) ≡ (all_digits s && all_digits t)
unfolding all_digits
all_digits-append [] t = refl
all_digits-append (c ∷ s) t = ground (arith, all_digits-append s t)

-- `atoi` of at most three digits neither saturates nor wraps.
pub atoi_short : (s : CString) → length s ≤ 3 → atoi s ≡ digits_value 0 s
unfolding atoi
atoi_short [] h = refl
atoi_short (a ∷ []) h = ground arith
atoi_short (a ∷ b ∷ []) h = ground arith
atoi_short (a ∷ b ∷ c ∷ []) h = ground arith
atoi_short (a ∷ b ∷ c ∷ d ∷ s) h = absurd (omega arith)
