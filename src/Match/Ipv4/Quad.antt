-- ===== src/Match/Ipv4/Quad.antt =====
-- The words that `cmd_ipv4_match` takes as a complete address: four fields with dots between them.
use qr_wireguard_ui.Base.{
  ℕ, zero, suc, ◌+◌, ◌<◌, true, false, ◌≡◌, ◌≢◌, ◌↔◌, inl, inr, refl, sym, ap, ◌∙◌, some, [], ◌∷◌,
  ◌++◌, ◌==◌, ltb, arith, length, append_assoc, append-nil,
}
use mathlib.Core.Path.{subst}
use qr_wireguard_ui.Text.{CString, first, is_digit, all_digits}
use qr_wireguard_ui.Match.{exact_match}
use qr_wireguard_ui.Match.Ipv4.{octet_too_big, scan, cmd_ipv4_match}
use qr_wireguard_ui.Match.Ipv4.Octets.{IsOctet, octet_lem, all_digits_nil, Behind, scan-field}

field-ne_nil :
    (b rest : CString) (dots nums : ℕ)
    → (b ++ rest) ≢ []
    → (first (b ++ rest) == b'.') ≡ false
    → Behind dots nums rest
    → b ≢ []
field-ne_nil [] rest dots nums ne other (inl (end, enough)) e = ne end
field-ne_nil [] rest dots nums ne other (inr (next, at, room, ne', other', h)) e =
    ground (arith, at, other)
field-ne_nil (c ∷ b) rest dots nums ne other behind e = absurd (ground arith)

-- Octets that are not empty, with `n` dots between them.
abbrev pub Fields : ℕ → CString → Type 0
Fields zero str = IsOctet str × (str ≢ [])
Fields (suc n) str =
    (a rest : CString) × (str ≡ a ++ b'.' ∷ rest) × IsOctet a × (a ≢ []) × Fields n rest

-- Four octets with dots between them, of which only the first may be empty.
abbrev pub IsQuad : CString → Type 0
IsQuad str = (a rest : CString) × (str ≡ a ++ b'.' ∷ rest) × IsOctet a × Fields 2 rest

module _ (str : CString) (dots : ℕ)
    (scan-next : (m : ℕ) (next : CString)
      → dots + 1 + m ≡ 3
      → next ≢ []
      → (first next == b'.') ≡ false
      → scan (dots + 1) (dots + 1) [] next ≡ exact_match
      → Fields m next) where
  Behind-Fields :
      (n : ℕ) (a rest : CString)
      → str ≡ a ++ rest
      → IsOctet a
      → a ≢ []
      → Behind dots dots rest
      → dots + n ≡ 3
      → Fields n str
  Behind-Fields zero a rest split octet filled (inl (e, enough)) at =
      let whole : str ≡ a = split ∙ ap (λ r. a ++ r) e ∙ append-nil a in
      subst (Fields zero) (sym whole) (octet, filled)
  Behind-Fields zero a rest split octet filled (inr (next, e, room, ne, other, h)) at =
      absurd (omega (arith, room))
  Behind-Fields (suc n) a rest split octet filled (inl (e, enough)) at = absurd (omega arith)
  Behind-Fields (suc n) a rest split octet filled (inr (next, e, room, ne, other, h)) at = (
    a,
    next,
    split ∙ ap (λ r. a ++ r) e,
    octet,
    filled,
    scan-next n next (omega arith) ne other h,
  )

scan-Fields :
    (n dots : ℕ) (str : CString)
    → dots + n ≡ 3
    → str ≢ []
    → (first str == b'.') ≡ false
    → scan dots dots [] str ≡ exact_match
    → Fields n str
scan-Fields zero dots str at ne other h =
    let (a, rest, split, octet, behind) = scan-field dots dots [] str all_digits_nil h in
    let filled =
      field-ne_nil a rest dots dots (λ e. ne (split ∙ e))
        (ap (λ s. first s == b'.') (sym split) ∙ other) behind in
    Behind-Fields str dots (λ m next at'. absurd (omega arith)) zero a rest split octet filled
      behind at
scan-Fields (suc n) dots str at ne other h =
    let (a, rest, split, octet, behind) = scan-field dots dots [] str all_digits_nil h in
    let filled =
      field-ne_nil a rest dots dots (λ e. ne (split ∙ e))
        (ap (λ s. first s == b'.') (sym split) ∙ other) behind in
    Behind-Fields str dots
      (λ m next at' ne' other' h'.
        subst (λ k. Fields k next) (omega arith)
          (scan-Fields n (dots + 1) next (omega arith) ne' other' h'))
      (suc n) a rest split octet filled behind at

scan_digit :
    (dots nums : ℕ) (buf str : CString) (c : ℕ)
    → is_digit c ≡ true
    → scan dots nums buf (c ∷ str) ≡ scan dots nums (buf ++ (c ∷ [])) str
unfolding scan is_digit
scan_digit dots nums buf str c d = ground arith

scan-digits :
    (dots nums : ℕ) (buf a rest : CString)
    → all_digits a ≡ true
    → scan dots nums buf (a ++ rest) ≡ scan dots nums (buf ++ a) rest
unfolding all_digits
scan-digits dots nums buf [] rest d = rw append-nil refl
scan-digits dots nums buf (c ∷ a) rest d =
    scan_digit dots nums buf (a ++ rest) c (ground arith)
    ∙ scan-digits dots nums (buf ++ (c ∷ [])) a rest (ground arith)
    ∙ ap (λ x. scan dots nums x rest) (append_assoc buf (c ∷ []) a)

octet-big : (s : CString) → IsOctet s → (octet_too_big s ≡ false) × (ltb 3 (length s) ≡ false)
octet-big s (d, l, v) = (ground (arith, octet_lem s l), ground arith)

scan_dot :
    (dots nums : ℕ) (buf rest : CString)
    → dots < 3
    → (first rest == b'.') ≡ false
    → (first rest == 0) ≡ false
    → IsOctet buf
    → scan dots nums buf (b'.' ∷ rest) ≡ scan (dots + 1) (nums + 1) [] rest
unfolding scan
scan_dot dots nums buf rest room dot end octet = ground (arith, octet-big buf octet)

scan_end : (buf : CString) → IsOctet buf → scan 3 3 buf [] ≡ exact_match
unfolding scan
scan_end buf octet = ground (arith, octet-big buf octet)

-- A field that is not empty begins with a digit.
digit_first :
    (a rest : CString)
    → IsOctet a
    → a ≢ []
    → ((first (a ++ rest) == b'.') ≡ false) × ((first (a ++ rest) == 0) ≡ false)
unfolding all_digits is_digit
digit_first [] rest octet ne = absurd (ne refl)
digit_first (c ∷ a) rest octet ne = ground arith

Fields-first :
    (n : ℕ) (str : CString)
    → Fields n str
    → ((first str == b'.') ≡ false) × ((first str == 0) ≡ false)
Fields-first zero str (octet, ne) = rw append-nil at (digit_first str [] octet ne)
Fields-first (suc n) str (a, rest, split, octet, ne, more) =
    rw split (digit_first a (b'.' ∷ rest) octet ne)

Fields-scan :
    (n dots : ℕ) (str : CString) → dots + n ≡ 3 → Fields n str → scan dots dots [] str ≡ exact_match
Fields-scan zero dots str at (octet, ne) =
    let three : dots ≡ 3 = omega arith in
    rw three (rw append-nil at (scan-digits 3 3 [] str [] octet.0) ∙ scan_end str octet)
Fields-scan (suc n) dots str at (a, rest, split, octet, ne, more) =
    let begins = Fields-first n rest more in
    rw split (
      scan-digits dots dots [] a (b'.' ∷ rest) octet.0
      ∙ scan_dot dots dots a rest (omega arith) begins.0 begins.1 octet
      ∙ Fields-scan n (dots + 1) rest (omega arith) more)

-- A word is a complete address for `cmd_ipv4_match` just when it is four octets with dots between
-- them, each of at most three digits and at most 255, and none but the first is empty.
pub cmd_ipv4_match-IsQuad : (str : CString) → (cmd_ipv4_match (some str) ≡ exact_match) ↔ IsQuad str
unfolding cmd_ipv4_match
cmd_ipv4_match-IsQuad str = (whole, back)
  where
    whole : scan 0 0 [] str ≡ exact_match → IsQuad str
    whole h =
        let (a, rest, split, octet, behind) = scan-field 0 0 [] str all_digits_nil h in
        elim behind [
          | inl (e, enough) ↦ absurd (omega arith)
          | inr (next, e, room, ne, other, h') ↦
              (a, next, split ∙ ap (λ r. a ++ r) e, octet, scan-Fields 2 1 next refl ne other h')
        ]

    back : IsQuad str → scan 0 0 [] str ≡ exact_match
    back (a, rest, split, octet, more) =
        let begins = Fields-first 2 rest more in
        rw split (
          scan-digits 0 0 [] a (b'.' ∷ rest) octet.0
          ∙ scan_dot 0 0 a rest (omega arith) begins.0 begins.1 octet
          ∙ Fields-scan 2 1 rest refl more)
