-- ===== src/Match/Range.antt =====
-- `cmd_range_match`, with `strtoul` of <stdlib.h>.
pub mod Bounds
use qr_wireguard_ui.Base.{
  ℕ, ◌+◌, ◌-◌, ◌*◌, ◌%◌, ◌^◌, Bool, true, false, not, ◌&&◌, ◌||◌, Option, none, some, List, [], ◌∷◌,
  length, ltb, leb, ◌==◌, if◌then◌else◌,
}
use qr_wireguard_ui.Text.{CString, first, is_digit, digits_value, skip_spaces, split_at}

abbrev pub ulong_max : ℕ
ulong_max = 2 ^ 64 - 1

-- What is behind the leading digits.
unfoldable pub skip_digits : CString → CString
unfolding is_digit
skip_digits [] = []
skip_digits (c ∷ s) = let rest = skip_digits s in if is_digit c then rest else c ∷ s

-- The value, which stops at `ULONG_MAX`; a minus sign negates it modulo 2 ^ 64.
unfoldable pub ulong_value : Bool → ℕ → ℕ
ulong_value negative v =
    if ltb ulong_max v
    then ulong_max
    else if negative
    then (ulong_max + 1 - v) % (ulong_max + 1)
    else v

-- Behind the sign; with no digit the end is the whole string.
unfoldable pub ulong_digits : CString → Bool → CString → ℕ × CString
unfolding ulong_value skip_digits digits_value
ulong_digits whole negative digits =
    if is_digit (first digits)
    then (ulong_value negative (digits_value 0 digits), skip_digits digits)
    else (0, whole)

unfoldable pub ulong_sign : CString → CString → ℕ × CString
unfolding ulong_digits
ulong_sign whole [] = ulong_digits whole false []
ulong_sign whole (c ∷ s) =
    if c == b'-'
    then ulong_digits whole true s
    else if c == b'+'
    then ulong_digits whole false s
    else ulong_digits whole false (c ∷ s)

-- `strtoul (s, &endptr, 10)`: the value and what `endptr` points at.
unfoldable pub strtoul : CString → ℕ × CString
unfolding skip_spaces ulong_sign
strtoul s = ulong_sign s (skip_spaces s)

abbrev pub decimal_strlen_max : ℕ
decimal_strlen_max = 10

-- `strtoul` of a bound copied into `buf`; `none` is `return 0`.
unfoldable pub bound : CString → Option ℕ
unfolding strtoul
bound buf =
    if ltb decimal_strlen_max (length buf)
    then none
    else let (v, end) = strtoul buf in if first end == 0 then some v else none

-- The part behind `range = p + 1`.
unfoldable pub upper : ℕ → ℕ → CString → Bool
unfolding split_at bound
upper val low range = elim (split_at b'>' range) [
  | none ↦ false
  | some (buf, _) ↦ elim (bound buf) [
    | none ↦ false
    | some high ↦ if ltb val low || ltb high val then false else true
  ]
]

abbrev pub tail : CString → CString
tail [] = []
tail (c ∷ s) = s

unfoldable pub lower : ℕ → CString → Bool
unfolding split_at bound upper
lower val range = elim (split_at b'-' range) [
  | none ↦ false
  | some (buf, behind) ↦ elim (bound buf) [ none ↦ false | some low ↦ upper val low behind ]
]

unfoldable pub cmd_range_match : CString → Option CString → Bool
unfolding strtoul lower
cmd_range_match range none = true
cmd_range_match range (some str) =
    let (val, end) = strtoul str in if not (first end == 0) then false else lower val (tail range)
