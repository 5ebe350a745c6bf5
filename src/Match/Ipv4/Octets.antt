-- ===== src/Match/Ipv4/Octets.antt =====
-- What one field of an address is, as the loop of `cmd_ipv4_match` reads it.
use qr_wireguard_ui.Base.{
  ℕ, ◌+◌, ◌≤◌, ◌<◌, true, false, ◌≡◌, ◌≢◌, ◌⊎◌, inl, inr, refl, ap, ◌∙◌, [], ◌∷◌, ◌++◌, ◌==◌, ltb,
  arith, length, Bool-cases, append_assoc, append-nil,
}
use qr_wireguard_ui.Text.{CString, first, is_digit, all_digits, digits_value, atoi}
use qr_wireguard_ui.Text.Digits.{atoi_short, all_digits-append}
use qr_wireguard_ui.Match.{exact_match}
use qr_wireguard_ui.Match.Ipv4.{octet_too_big, scan}

-- At most three digits, of a number up to 255.
abbrev pub IsOctet : CString → Type 0
IsOctet s = (all_digits s ≡ true) × (length s ≤ 3) × (digits_value 0 s ≤ 255)

pub octet_lem : (s : CString) → length s ≤ 3 → octet_too_big s ≡ ltb 255 (digits_value 0 s)
unfolding octet_too_big digits_value is_digit atoi
octet_lem [] h = refl
octet_lem (a ∷ []) h = ground (arith, atoi_short (a ∷ []))
octet_lem (a ∷ b ∷ []) h = ground (arith, atoi_short (a ∷ b ∷ []))
octet_lem (a ∷ b ∷ c ∷ []) h = ground (arith, atoi_short (a ∷ b ∷ c ∷ []))
octet_lem (a ∷ b ∷ c ∷ d ∷ s) h = absurd (omega arith)

pub all_digits_nil : all_digits [] ≡ true
unfolding all_digits
all_digits_nil = refl

pub scanned-IsOctet :
    (buf : CString)
    → all_digits buf ≡ true
    → length buf ≤ 3
    → octet_too_big buf ≡ false
    → IsOctet buf
scanned-IsOctet buf d l small = (d, l, ground (arith, octet_lem buf l))

-- What is behind a field: the end, when there are enough, or a dot and the other fields.
abbrev pub Behind : ℕ → ℕ → CString → Type 0
Behind dots nums str =
    (str ≡ []) × (3 ≤ nums)
    ⊎ (rest : CString) × (str ≡ b'.' ∷ rest)
      × (dots < 3)
      × (rest ≢ [])
      × (first rest == b'.') ≡ false
      × (scan (dots + 1) (nums + 1) [] rest ≡ exact_match)

pub at_end :
    (dots nums : ℕ) (buf : CString)
    → scan dots nums buf [] ≡ exact_match
    → (length buf ≤ 3) × (octet_too_big buf ≡ false) × (3 ≤ nums)
unfolding scan
at_end dots nums buf h = ground (arith, h)

pub at_dot :
    (dots nums : ℕ) (buf str : CString) (c : ℕ)
    → (c == b'.') ≡ true
    → scan dots nums buf (c ∷ str) ≡ exact_match
    → (length buf ≤ 3)
      × (octet_too_big buf ≡ false)
      × (dots < 3)
      × ((first str == 0) ≡ false)
      × ((first str == b'.') ≡ false)
      × (scan (dots + 1) (nums + 1) [] str ≡ exact_match)
unfolding scan
at_dot dots nums buf str c dot h = ground (arith, h)

pub at_digit :
    (dots nums : ℕ) (buf str : CString) (c : ℕ)
    → (c == b'.') ≡ false
    → scan dots nums buf (c ∷ str) ≡ exact_match
    → (is_digit c ≡ true) × (scan dots nums (buf ++ (c ∷ [])) str ≡ exact_match)
unfolding scan
at_digit dots nums buf str c other h = ground (arith, h)

pub first-ne_nil : (s : CString) → (first s == 0) ≡ false → s ≢ []
first-ne_nil s h e = ground (arith, ap first e)

pub scan-field :
    (dots nums : ℕ) (buf str : CString)
    → all_digits buf ≡ true
    → scan dots nums buf str ≡ exact_match
    → (a rest : CString) × (str ≡ a ++ rest) × (IsOctet (buf ++ a)) × Behind dots nums rest
unfolding all_digits
scan-field dots nums buf [] d h =
    let (short, small, enough) = at_end dots nums buf h in
    ([], [], refl, rw append-nil (scanned-IsOctet buf d short small), inl (refl, enough))
scan-field dots nums buf (c ∷ str) d h = elim (Bool-cases (c == b'.')) [
  | inl dot ↦
      let (short, small, room, more, field, next) = at_dot dots nums buf str c dot h in
      (
        [],
        c ∷ str,
        refl,
        rw append-nil (scanned-IsOctet buf d short small),
        inr (str, ap (λ x. x ∷ str) (ground arith), room, first-ne_nil str more, field, next),
      )
  | inr other ↦
      let (digit, go_on) = at_digit dots nums buf str c other h in
      let (a, rest, split, octet, behind) =
        scan-field dots nums (buf ++ (c ∷ [])) str (all_digits-append buf (c ∷ []) ∙ ground arith)
          go_on in
      (c ∷ a, rest, ap (◌∷◌ c) split, rw append_assoc at octet, behind)
]
