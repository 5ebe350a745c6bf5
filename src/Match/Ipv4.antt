-- ===== src/Match/Ipv4.antt =====
-- `cmd_ipv4_match`.
pub mod Octets
pub mod Quad
use qr_wireguard_ui.Base.{
  ℕ, ◌+◌, Bool, not, Option, none, some, List, [], ◌∷◌, ◌++◌, length, ltb, leb, ◌==◌, if◌then◌else◌,
}
use qr_wireguard_ui.Text.{CString, first, is_digit, atoi, int_gt}
use qr_wireguard_ui.Match.{MatchType, no_match, partly_match, exact_match}

-- The checks behind the inner loop, on the bytes from `sp` to `str`.
pub octet_too_big : CString → Bool
octet_too_big buf = int_gt (atoi buf) 255

-- `scan dots nums buf str`: the two loops as one, with `buf` the bytes from `sp` to `str`.
pub scan : ℕ → ℕ → CString → CString → MatchType
unfolding octet_too_big
scan dots nums buf [] =
    if ltb 3 (length buf)
    then no_match
    else if octet_too_big buf
    then no_match
    else if ltb (nums + 1) 4
    then partly_match
    else exact_match
scan dots nums buf (c ∷ rest) =
    let next = scan (dots + 1) (nums + 1) [] rest in
    let go_on = scan dots nums (buf ++ (c ∷ [])) rest in
    if c == b'.'
    then (if leb 3 dots
        then no_match
        else if first rest == b'.'
        then no_match
        else if first rest == 0
        then partly_match
        else if ltb 3 (length buf)
        then no_match
        else if octet_too_big buf
        then no_match
        else next)
    else if not (is_digit c)
    then no_match
    else go_on

unfoldable pub cmd_ipv4_match : Option CString → MatchType
unfolding scan
cmd_ipv4_match none = partly_match
cmd_ipv4_match (some str) = scan 0 0 [] str
