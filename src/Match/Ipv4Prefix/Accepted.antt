-- ===== src/Match/Ipv4Prefix/Accepted.antt =====
-- What `cmd_ipv4_prefix_match` makes of well-formed prefixes, and of a slash behind the first field.
use qr_wireguard_ui.Base.{
  ℕ, ◌+◌, ◌≤◌, ◌<◌, true, false, ◌≡◌, ◌≢◌, refl, ap, ◌∙◌, some, [], ◌∷◌, ◌++◌, arith, append_assoc,
  append-nil,
}
use qr_wireguard_ui.Text.{CString, first, is_digit, all_digits, digits_value}
use qr_wireguard_ui.Text.Digits.{atoi_short}
use qr_wireguard_ui.Match.{exact_match}
use qr_wireguard_ui.Match.Ipv4.Octets.{IsOctet}
use qr_wireguard_ui.Match.Ipv4Prefix.{bad_octet, mask, scan, cmd_ipv4_prefix_match}

-- An octet with a digit at least.
abbrev pub IsFilled : CString → Type 0
IsFilled s = IsOctet s × (s ≢ [])

filled_is_good : (s : CString) → IsFilled s → bad_octet s ≡ false
unfolding bad_octet
filled_is_good [] (octet, ne) = absurd (ne refl)
filled_is_good (c ∷ s) ((digits, short, small), ne) = ground (arith, atoi_short (c ∷ s) short)

scan_digit :
    (dots : ℕ) (buf str : CString) (c : ℕ)
    → is_digit c ≡ true
    → scan dots buf (c ∷ str) ≡ scan dots (buf ++ (c ∷ [])) str
unfolding scan is_digit
scan_digit dots buf str c d = ground arith

scan-digits :
    (dots : ℕ) (buf a rest : CString)
    → all_digits a ≡ true
    → scan dots buf (a ++ rest) ≡ scan dots (buf ++ a) rest
unfolding all_digits
scan-digits dots buf [] rest d = rw append-nil refl
scan-digits dots buf (c ∷ a) rest d =
    scan_digit dots buf (a ++ rest) c (ground arith)
    ∙ scan-digits dots (buf ++ (c ∷ [])) a rest (ground arith)
    ∙ ap (λ x. scan dots x rest) (append_assoc buf (c ∷ []) a)

scan_dot :
    (dots : ℕ) (buf rest : CString)
    → dots < 3
    → is_digit (first rest) ≡ true
    → IsFilled buf
    → scan dots buf (b'.' ∷ rest) ≡ scan (dots + 1) [] rest
unfolding scan is_digit
scan_dot dots buf rest room d filled = ground (arith, filled_is_good buf filled)

scan_slash :
    (dots : ℕ) (buf rest : CString)
    → dots < 3
    → IsFilled buf
    → scan dots buf (b'/' ∷ rest) ≡ scan dots [] rest
unfolding scan
scan_slash dots buf rest room filled = ground (arith, filled_is_good buf filled)

scan_last :
    (buf rest : CString)
    → is_digit (first rest) ≡ true
    → IsFilled buf
    → scan 3 buf (b'/' ∷ rest) ≡ mask rest
unfolding scan is_digit
scan_last buf rest d filled = ground (arith, filled_is_good buf filled)

first_digit : (a rest : CString) → IsFilled a → is_digit (first (a ++ rest)) ≡ true
unfolding all_digits
first_digit [] rest (octet, ne) = absurd (ne refl)
first_digit (c ∷ a) rest filled = ground arith

mask_good : (m : CString) → IsFilled m → digits_value 0 m ≤ 32 → mask m ≡ exact_match
unfolding mask
mask_good m ((digits, short, small), ne) low = ground (arith, atoi_short m short)

scan_field :
    (dots : ℕ) (a rest : CString)
    → dots < 3
    → is_digit (first rest) ≡ true
    → IsFilled a
    → scan dots [] (a ++ b'.' ∷ rest) ≡ scan (dots + 1) [] rest
scan_field dots a rest room d filled =
    scan-digits dots [] a (b'.' ∷ rest) filled.0.0 ∙ scan_dot dots a rest room d filled

-- Four octets that are not empty, with dots between them, a slash and a length of at most 32 in at
-- most three digits are a complete prefix.
pub cmd_ipv4_prefix_match-accepts :
    (a b c d m : CString)
    → IsFilled a
    → IsFilled b
    → IsFilled c
    → IsFilled d
    → IsFilled m
    → digits_value 0 m ≤ 32
    → cmd_ipv4_prefix_match (some (a ++ b'.' ∷ (b ++ b'.' ∷ (c ++ b'.' ∷ (d ++ b'/' ∷ m)))))
      ≡ exact_match
unfolding cmd_ipv4_prefix_match
cmd_ipv4_prefix_match-accepts a b c d m fa fb fc fd fm low =
    scan_field 0 a _ (omega arith) (first_digit b _ fb) fa
    ∙ scan_field 1 b _ (omega arith) (first_digit c _ fc) fb
    ∙ scan_field 2 c _ (omega arith) (first_digit d _ fd) fc
    ∙ scan-digits 3 [] d (b'/' ∷ m) fd.0.0
    ∙ scan_last d m (rw append-nil at (first_digit m [] fm)) fd
    ∙ mask_good m fm low

-- An octet and a slash in front of any word change nothing: the slash is taken as if the fields
-- began behind it.
pub cmd_ipv4_prefix_match-slash :
    (a rest : CString)
    → IsFilled a
    → cmd_ipv4_prefix_match (some (a ++ b'/' ∷ rest)) ≡ cmd_ipv4_prefix_match (some rest)
unfolding cmd_ipv4_prefix_match
cmd_ipv4_prefix_match-slash a rest filled =
    scan-digits 0 [] a (b'/' ∷ rest) filled.0.0 ∙ scan_slash 0 a rest (omega arith) filled
