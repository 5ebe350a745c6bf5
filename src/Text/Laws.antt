-- ===== src/Text/Laws.antt =====
-- Equality and prefix tests of C strings against the lists of bytes.
use qr_wireguard_ui.Base.{true, ◌≡◌, ◌↔◌, refl, [], ◌∷◌, ◌++◌, arith}
use qr_wireguard_ui.Text.{CString, str_eq, starts_with}

pub str_eq_iff : (s t : CString) → (str_eq s t ≡ true) ↔ (s ≡ t)
unfolding str_eq
str_eq_iff (x ∷ a) (y ∷ b) = ground (arith, str_eq_iff a b)
str_eq_iff _ _ = ground arith

pub str_eq_refl : (s : CString) → str_eq s s ≡ true
str_eq_refl s = (str_eq_iff s s).1 refl

pub starts_with_refl : (s : CString) → starts_with s s ≡ true
unfolding starts_with
starts_with_refl [] = refl
starts_with_refl (c ∷ s) = ground (arith, starts_with_refl s)

pub starts_with-append : (p s : CString) → starts_with p (p ++ s) ≡ true
unfolding starts_with
starts_with-append [] s = refl
starts_with-append (c ∷ p) s = ground (arith, starts_with-append p s)

-- A string that starts with `p` is `p` and a rest.
pub starts_with_split : (p s : CString) → starts_with p s ≡ true → (r : CString) × (s ≡ p ++ r)
unfolding starts_with
starts_with_split [] s h = (s, refl)
starts_with_split (c ∷ p) [] h = ground arith
starts_with_split (c ∷ p) (d ∷ s) h =
    let (r, e) = starts_with_split p s (ground arith) in (r, ground arith)
