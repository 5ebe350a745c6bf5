-- ===== src/Match/Ipv6.antt =====
-- `cmd_ipv6_match`: a state machine over the bytes of the word.
use qr_wireguard_ui.Base.{
  ℕ, ◌+◌, Bool, true, false, not, ◌&&◌, ◌||◌, Option, none, some, [], ◌∷◌, ltb, leb, ◌==◌,
  if◌then◌else◌,
}
use qr_wireguard_ui.Text.{CString, first, is_digit}
use qr_wireguard_ui.Match.{MatchType, no_match, partly_match, exact_match}

pub data State : Type 0 where
  colon double addr dot : State

-- The variables of the loop. `colons` is kept one higher than in the source, where it is -1 for a
-- moment; `width` is `str - sp`.
pub record Scan : Type 0 where
  pub state : State
  pub colons : ℕ
  pub nums : ℕ
  pub double_colon : Bool
  pub width : ℕ

-- A byte of `IPV6_ADDR_STR`.
unfoldable pub is_addr_byte : ℕ → Bool
unfolding is_digit
is_addr_byte c =
    is_digit c
    || (leb b'a' c && leb c b'f')
    || (leb b'A' c && leb c b'F')
    || c == b':'
    || c == b'.'
    || c == b'%'

-- `strspn (str, IPV6_ADDR_STR) == strlen (str)`
unfoldable pub all_addr_bytes : CString → Bool
unfolding is_addr_byte
all_addr_bytes [] = true
all_addr_bytes (c ∷ s) = is_addr_byte c && all_addr_bytes s

-- `STATE_START`, which consumes nothing.
unfoldable pub begin : ℕ → ℕ → Option Scan
begin c next =
    if c == b':'
    then (if not (next == b':') && not (next == 0)
        then none
        else some (record { state = colon; colons = 0; nums = 0; double_colon = false; width = 0 }))
    else some (record { state = addr; colons = 1; nums = 0; double_colon = false; width = 0 })

-- The other states, on a byte and the byte behind it; `none` is `return no_match`.
unfoldable pub turn : State → Scan → ℕ → Option Scan
turn colon p next =
    if next == b':'
    then some (record p { state = double; colons = p.colons + 1; width = p.width + 1 })
    else some (record p { state = addr; colons = p.colons + 1; width = 0 })
turn double p next =
    if p.double_colon
    then none
    else if next == b':'
    then none
    else some (record p {
      state = addr;
      colons = if not (next == 0) then p.colons + 1 else p.colons;
      nums = p.nums + 1;
      double_colon = true;
      width = 0;
    })
turn addr p next =
    if next == b':' || next == 0
    then (if ltb 3 p.width
        then none
        else some (record p { state = colon; nums = p.nums + 1; width = p.width + 1 }))
    else if next == b'.'
    then some (record p { state = dot; width = p.width + 1 })
    else some (record p { width = p.width + 1 })
turn dot p next = some (record p { state = addr; width = p.width + 1 })

-- The tests at the end of the loop's body.
unfoldable pub within : Scan → Bool
within p = leb p.nums 8 && leb p.colons 8

unfoldable pub scan : Scan → CString → MatchType
unfolding turn within
scan p [] = exact_match
scan p (c ∷ rest) = elim (turn p.state p (first rest)) [
  | none ↦ no_match
  | some q ↦ let more = scan q rest in if within q then more else no_match
]

unfoldable pub started : CString → MatchType
unfolding begin scan
started [] = exact_match
started (c ∷ rest) = elim (begin c (first rest)) [ none ↦ no_match | some p ↦ scan p (c ∷ rest) ]

unfoldable pub cmd_ipv6_match : Option CString → MatchType
unfolding all_addr_bytes started
cmd_ipv6_match none = partly_match
cmd_ipv6_match (some str) = if not (all_addr_bytes str) then no_match else started str
