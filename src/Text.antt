-- ===== src/Text.antt =====
-- The C strings of wgshell/vtysh: the bytes before the terminating NUL, and the functions of
-- <string.h>, <ctype.h> and <stdlib.h> that the shell calls on them, in the C locale.
pub mod Laws
pub mod Order
pub mod Digits
pub mod Strtok
pub mod Words
use Prim.Native.Char.{code}
use Prim.Native.String.{String}
use qr_wireguard_ui.Base.{
  ℕ, zero, suc, ◌+◌, ◌-◌, ◌*◌, ◌/◌, ◌%◌, ◌^◌, Bool, true, false, ◌&&◌, ◌||◌, Option, none, some,
  List, [], ◌∷◌, ltb, leb, ◌==◌, if◌then◌else◌,
}

abbrev pub CString : Type 0
CString = List ℕ

-- A literal of the source, byte by byte; the literals are ASCII.
abbrev pub codes : String → CString
codes String.[] = []
codes (String.◌∷◌ c s) = code c ∷ codes s

-- `*s`: the terminating NUL at the end.
abbrev pub first : CString → ℕ
first [] = 0
first (c ∷ s) = c

unfoldable pub is_space : ℕ → Bool
is_space c = c == b' ' || (leb 9 c && leb c 13)

unfoldable pub is_digit : ℕ → Bool
is_digit c = leb b'0' c && leb c b'9'

-- `strcmp (s, t) == 0`
unfoldable pub str_eq : CString → CString → Bool
str_eq [] [] = true
str_eq [] (d ∷ t) = false
str_eq (c ∷ s) [] = false
str_eq (c ∷ s) (d ∷ t) = c == d && str_eq s t

-- `strcmp (s, t) < 0`
unfoldable pub str_lt : CString → CString → Bool
str_lt s [] = false
str_lt [] (d ∷ t) = true
str_lt (c ∷ s) (d ∷ t) = ltb c d || (c == d && str_lt s t)

-- `strncmp (p, s, strlen (p)) == 0`
unfoldable pub starts_with : CString → CString → Bool
starts_with [] s = true
starts_with (c ∷ p) [] = false
starts_with (c ∷ p) (d ∷ s) = c == d && starts_with p s

unfoldable pub all_digits : CString → Bool
unfolding is_digit
all_digits [] = true
all_digits (c ∷ s) = is_digit c && all_digits s

-- The number that the leading digits of a string spell, in base ten.
unfoldable pub digits_value : ℕ → CString → ℕ
unfolding is_digit
digits_value acc [] = acc
digits_value acc (c ∷ s) = if is_digit c then digits_value (acc * 10 + (c - b'0')) s else acc

-- What is behind the leading white space.
unfoldable pub skip_spaces : CString → CString
unfolding is_space
skip_spaces [] = []
skip_spaces (c ∷ s) = let rest = skip_spaces s in if is_space c then rest else c ∷ s

-- `strchr (s, c)`, as the bytes before the first `c` and those behind it.
unfoldable pub split_at : ℕ → CString → Option (CString × CString)
split_at c [] = none
split_at c (d ∷ s) =
    let later : Option (CString × CString) = elim (split_at c s) [
      | none ↦ none
      | some (before, behind) ↦ some (d ∷ before, behind)
    ] in
    if d == c then some ([], s) else later

abbrev pub u32_mod : ℕ
u32_mod = 2 ^ 32

abbrev pub long_max : ℕ
long_max = 2 ^ 63 - 1

-- `atoi` of a string with no sign and no leading space, as the 32 bits of the `int`:
-- `strtol` stops at `LONG_MAX`, and the cast keeps the low 32 bits.
unfoldable pub atoi : CString → ℕ
unfolding digits_value
atoi s = let v = digits_value 0 s in (if ltb long_max v then long_max else v) % u32_mod

abbrev negated : ℕ → ℕ
negated v = (u32_mod - (if ltb (long_max + 1) v then long_max + 1 else v) % u32_mod) % u32_mod

abbrev bits_at : CString → ℕ
bits_at [] = 0
bits_at (c ∷ s) =
    if c == b'-' then negated (digits_value 0 s) else if c == b'+' then atoi s else atoi (c ∷ s)

-- `atoi` of a word, which may have a sign in front.
unfoldable pub atoi_word : CString → ℕ
unfolding atoi digits_value
atoi_word s = bits_at s

-- The decimal digits of a number, in front of the ones that are there; the fuel is their number.
unfoldable pub digits_of : ℕ → ℕ → CString → CString
digits_of zero n behind = behind
digits_of (suc fuel) n behind =
    let more = digits_of fuel (n / 10) ((b'0' + n % 10) ∷ behind) in
    if ltb n 10 then (b'0' + n) ∷ behind else more

-- `%d` of an `int` given by its bits.
unfoldable pub print_int : ℕ → CString
print_int bits =
    if ltb bits (2 ^ 31) then digits_of 10 bits [] else b'-' ∷ digits_of 10 (u32_mod - bits) []

-- `x > k` for an `int` given by its bits, and a small constant `k`.
abbrev pub int_gt : ℕ → ℕ → Bool
int_gt bits k = ltb bits (2 ^ 31) && ltb k bits
