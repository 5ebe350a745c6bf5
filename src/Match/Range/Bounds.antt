-- ===== src/Match/Range/Bounds.antt =====
-- `cmd_range_match` on a well-formed range and a number: the comparison with the two bounds.
use qr_wireguard_ui.Base.{
  ℕ, zero, suc, ◌+◌, ◌-◌, ==_iff, ◌*◌, ◌^◌, ◌≤◌, ◌<◌, true, false, ◌&&◌, ◌≡◌, ◌≢◌, refl, ap, ◌∙◌,
  some, [], ◌∷◌, ◌++◌, ◌==◌, ltb, leb, arith, length, if◌then◌else◌, Bool-cases, inl, inr,
}
use qr_wireguard_ui.Text.{
  CString, is_digit, is_space, all_digits, digits_value, skip_spaces, split_at,
}
use qr_wireguard_ui.Match.Range.{
  ulong_max, skip_digits, ulong_value, ulong_digits, ulong_sign, strtoul, bound, upper, lower,
  decimal_strlen_max, cmd_range_match,
}

-- `n` digits more behind a number below `x`.
abbrev scale : ℕ → ℕ → ℕ
scale zero x = x
scale (suc n) x = scale n (x * 10)

scale_mono : (n x y : ℕ) → x ≤ y → scale n x ≤ scale n y
scale_mono zero x y h = h
scale_mono (suc n) x y h = scale_mono n (x * 10) (y * 10) (omega arith)

scale_le : (n x : ℕ) → x ≤ scale n x
scale_le zero x = omega arith
scale_le (suc n) x = omega (arith, scale_le n (x * 10))

digit_step : (c acc : ℕ) → is_digit c ≡ true → acc * 10 + (c - b'0') + 1 ≤ (acc + 1) * 10
unfolding is_digit
digit_step c acc h = ground arith

digits_value_lt : (s : CString) (acc : ℕ) → digits_value acc s < scale (length s) (acc + 1)
unfolding digits_value
digits_value_lt [] acc = omega arith
digits_value_lt (c ∷ s) acc = elim (Bool-cases (is_digit c)) [
  | inl d ↦ rw d (
      omega (
        arith,
        digits_value_lt s (acc * 10 + (c - b'0')),
        scale_mono (length s) (acc * 10 + (c - b'0') + 1) ((acc + 1) * 10) (digit_step c acc d),
      ))
  | inr o ↦ rw o (omega (arith, scale_le (length s) ((acc + 1) * 10)))
]

-- A number: digits, at least one.
abbrev pub IsNumber : CString → Type 0
IsNumber s = (all_digits s ≡ true) × (s ≢ [])

skip_digits_all : (s : CString) → all_digits s ≡ true → skip_digits s ≡ []
unfolding skip_digits all_digits
skip_digits_all [] h = refl
skip_digits_all (c ∷ s) h = ground (arith, skip_digits_all s)

skip_spaces_digit : (c : ℕ) (s : CString) → is_digit c ≡ true → skip_spaces (c ∷ s) ≡ c ∷ s
unfolding skip_spaces is_space is_digit
skip_spaces_digit c s h = ground arith

ulong_sign_digit :
    (whole : CString) (c : ℕ) (s : CString)
    → is_digit c ≡ true
    → ulong_sign whole (c ∷ s) ≡ ulong_digits whole false (c ∷ s)
unfolding ulong_sign is_digit
ulong_sign_digit whole c s h = ground arith

ulong_digits_all :
    (whole : CString) (c : ℕ) (s : CString)
    → all_digits (c ∷ s) ≡ true
    → is_digit c ≡ true
    → ulong_digits whole false (c ∷ s) ≡ (ulong_value false (digits_value 0 (c ∷ s)), [])
unfolding ulong_digits
ulong_digits_all whole c s h d =
    ap
      (λ b.
        if b then (ulong_value false (digits_value 0 (c ∷ s)), skip_digits (c ∷ s)) else (0, whole))
      d
    ∙ ap (λ e. (ulong_value false (digits_value 0 (c ∷ s)), e)) (skip_digits_all (c ∷ s) h)

digit_head : (c : ℕ) (s : CString) → all_digits (c ∷ s) ≡ true → is_digit c ≡ true
unfolding all_digits
digit_head c s h = ground arith

strtoul-IsNumber :
    (s : CString) → IsNumber s → strtoul s ≡ (ulong_value false (digits_value 0 s), [])
unfolding strtoul
strtoul-IsNumber [] h = absurd (h.1 refl)
strtoul-IsNumber (c ∷ s) h =
    let d = digit_head c s h.0 in
    ap (ulong_sign (c ∷ s)) (skip_spaces_digit c s d)
    ∙ ulong_sign_digit (c ∷ s) c s d
    ∙ ulong_digits_all (c ∷ s) c s h.0 d

split_at-digits :
    (c : ℕ) (s rest : CString)
    → is_digit c ≡ false
    → all_digits s ≡ true
    → split_at c (s ++ c ∷ rest) ≡ some (s, rest)
unfolding split_at all_digits
split_at-digits c [] rest h d = ground arith
split_at-digits c (x ∷ s) rest h d =
    let other : (x == c) ≡ false = differs x c (ground arith) h in
    rw (other, split_at-digits c s rest h (ground arith)) refl
  where
    differs : (x c : ℕ) → is_digit x ≡ true → is_digit c ≡ false → (x == c) ≡ false
    differs x c p q = elim (Bool-cases (x == c)) [
      | inl same ↦ absurd (ground (arith, p, q, same, ap is_digit ((==_iff x c).0 same)))
      | inr other ↦ other
    ]

scale_upto : (k n : ℕ) → n + k ≡ 10 → scale n 1 ≤ 10 ^ 10
scale_upto zero n h = let ten : n ≡ 10 = omega arith in rw ten (omega arith)
scale_upto (suc k) n h =
    omega (arith, scale_mono n 1 10 (omega arith), scale_upto k (suc n) (omega arith))

number_short : (s : CString) → length s ≤ 10 → digits_value 0 s < 10 ^ 10
number_short s l =
    omega (arith, digits_value_lt s 0, scale_upto (10 - length s) (length s) (omega arith))

bound-IsNumber : (s : CString) → IsNumber s → length s ≤ 10 → bound s ≡ some (digits_value 0 s)
unfolding bound ulong_value
bound-IsNumber s h l =
    let long : ltb decimal_strlen_max (length s) ≡ false = ground arith in
    let small : ltb ulong_max (digits_value 0 s) ≡ false = ground (arith, number_short s l) in
    rw (long, strtoul-IsNumber s h, small) refl

-- A range of two numbers as it stands in a command, with anything behind it.
abbrev pub range_of : CString → CString → CString → CString
range_of low high rest = b'<' ∷ (low ++ b'-' ∷ (high ++ b'>' ∷ rest))

no_digit : (is_digit b'-' ≡ false) × (is_digit b'>' ≡ false)
unfolding is_digit
no_digit = (refl, refl)

lower-range :
    (val : ℕ) (low high rest : CString)
    → IsNumber low
    → length low ≤ 10
    → IsNumber high
    → length high ≤ 10
    → lower val (low ++ b'-' ∷ (high ++ b'>' ∷ rest))
      ≡ (leb (digits_value 0 low) val && leb val (digits_value 0 high))
unfolding lower upper
lower-range val low high rest nl ll nh lh =
    rw
      (
        split_at-digits b'-' low (high ++ b'>' ∷ rest) no_digit.0 nl.0,
        lower,
        bound-IsNumber low nl ll,
        split_at-digits b'>' high rest no_digit.1 nh.0,
        upper,
        bound-IsNumber high nh lh,
      )
      (ground arith)

saturated :
    (low high val : ℕ)
    → low < 10 ^ 10
    → high < 10 ^ 10
    → (leb low (ulong_value false val) && leb (ulong_value false val) high)
      ≡ (leb low val && leb val high)
unfolding ulong_value
saturated low high val l h = ground arith

-- A number is in a range of two numbers of at most ten digits just when it lies between them, the
-- bounds included; a number too large for `unsigned long` is in none.
pub cmd_range_match-bounds :
    (low high rest word : CString)
    → IsNumber low
    → length low ≤ 10
    → IsNumber high
    → length high ≤ 10
    → IsNumber word
    → cmd_range_match (range_of low high rest) (some word) ≡ (
        leb (digits_value 0 low) (digits_value 0 word)
        && leb (digits_value 0 word) (digits_value 0 high))
unfolding cmd_range_match
cmd_range_match-bounds low high rest word nl ll nh lh nw = rw (strtoul-IsNumber word nw) (
    lower-range (ulong_value false (digits_value 0 word)) low high rest nl ll nh lh
    ∙ saturated (digits_value 0 low) (digits_value 0 high) (digits_value 0 word)
        (number_short low ll) (number_short high lh))
