-- ===== src/Match/Ipv4Prefix.antt =====
-- `cmd_ipv4_prefix_match`.
pub mod Accepted
use qr_wireguard_ui.Base.{
  ℕ, ◌+◌, Bool, not, ◌||◌, Option, none, some, List, [], ◌∷◌, ◌++◌, length, ltb, ◌==◌,
  if◌then◌else◌,
}
use qr_wireguard_ui.Text.{CString, first, is_digit, all_digits, atoi, int_gt}
use qr_wireguard_ui.Match.{MatchType, no_match, partly_match, exact_match}

-- The checks behind the inner loop: more than three bytes, none, or a number above 255.
pub bad_octet : CString → Bool
bad_octet buf = ltb 3 (length buf) || length buf == 0 || int_gt (atoi buf) 255

-- The loop over the digits behind the slash, and the bound on the prefix length.
pub mask : CString → MatchType
mask sp =
    if not (all_digits sp) then no_match else if int_gt (atoi sp) 32 then no_match else exact_match

-- `scan dots buf str`: the two loops as one, with `buf` the bytes from `sp` to `str`.
pub scan : ℕ → CString → CString → MatchType
unfolding bad_octet mask
scan dots buf [] = if bad_octet buf then no_match else partly_match
scan dots buf (c ∷ rest) =
    let next = scan (dots + 1) [] rest in
    let go_on = scan dots (buf ++ (c ∷ [])) rest in
    let again = scan dots [] rest in
    if c == b'/'
    then (if bad_octet buf
        then no_match
        else if dots == 3
        then (if first rest == 0 then partly_match else mask rest)
        else again)
    else if c == b'.'
    then (if dots == 3
        then no_match
        else if first rest == b'.' || first rest == b'/'
        then no_match
        else if first rest == 0
        then partly_match
        else if bad_octet buf
        then no_match
        else next)
    else if not (is_digit c)
    then no_match
    else go_on

unfoldable pub cmd_ipv4_prefix_match : Option CString → MatchType
unfolding scan
cmd_ipv4_prefix_match none = partly_match
cmd_ipv4_prefix_match (some str) = scan 0 [] str
