-- ===== src/Text/Order.antt =====
-- `strcmp` is a strict total order on C strings.
use qr_wireguard_ui.Base.{true, false, ◌≡◌, refl, [], ◌∷◌, arith}
use qr_wireguard_ui.Text.{CString, str_lt}

pub str_lt_irrefl : (s : CString) → str_lt s s ≡ false
unfolding str_lt
str_lt_irrefl [] = refl
str_lt_irrefl (c ∷ s) = ground (arith, str_lt_irrefl s)

pub str_lt_trans : (s t u : CString) → str_lt s t ≡ true → str_lt t u ≡ true → str_lt s u ≡ true
unfolding str_lt
str_lt_trans s t [] h k = cc
str_lt_trans s [] (e ∷ u) h k = ground arith
str_lt_trans [] (d ∷ t) (e ∷ u) h k = refl
str_lt_trans (c ∷ s) (d ∷ t) (e ∷ u) h k = ground (arith, str_lt_trans s t u)

pub str_lt_asymm : (s t : CString) → str_lt s t ≡ true → str_lt t s ≡ false
unfolding str_lt
str_lt_asymm s [] h = cc
str_lt_asymm [] (d ∷ t) h = refl
str_lt_asymm (c ∷ s) (d ∷ t) h = ground (arith, str_lt_asymm s t)

-- What is smaller than neither is equal.
pub str_lt_total : (s t : CString) → str_lt s t ≡ false → str_lt t s ≡ false → s ≡ t
unfolding str_lt
str_lt_total [] [] h k = refl
str_lt_total [] (d ∷ t) h k = ground arith
str_lt_total (c ∷ s) [] h k = ground arith
str_lt_total (c ∷ s) (d ∷ t) h k = ground (arith, str_lt_total s t)

-- `s ≤ t < u` gives `s < u`, and `s < t ≤ u` gives `s < u`; `≤` is the negated test.
pub str_le_trans : (s t u : CString) → str_lt t s ≡ false → str_lt u t ≡ false → str_lt u s ≡ false
unfolding str_lt
str_le_trans [] t u h k = ground arith
str_le_trans (c ∷ s) [] u h k = ground arith
str_le_trans (c ∷ s) (d ∷ t) [] h k = ground arith
str_le_trans (c ∷ s) (d ∷ t) (e ∷ u) h k = ground (arith, str_le_trans s t u)
