-- ===== src/Command/Filter.antt =====
-- `cmd_filter_by_completion` and `cmd_filter_by_string`: the slots of the command vector whose
-- token at one position does not take the typed word are set to NULL.
pub mod Sound
pub mod Loop
use qr_wireguard_ui.Base.{
  ℕ, ◌+◌, Bool, true, false, not, ◌||◌, Option, none, some, List, [], ◌∷◌, ◌==◌, get_elem?,
  if◌then◌else◌,
}
use qr_wireguard_ui.Text.{CString, str_eq, starts_with}
use qr_wireguard_ui.Match.{
  MatchType, no_match, extend_match, ipv4_prefix_match, ipv4_match, ipv6_match, range_match,
  vararg_match, partly_match, exact_match, rank, raise_to,
}
use qr_wireguard_ui.Match.Ipv4.{cmd_ipv4_match}
use qr_wireguard_ui.Match.Ipv4Prefix.{cmd_ipv4_prefix_match}
use qr_wireguard_ui.Match.Ipv6.{cmd_ipv6_match}
use qr_wireguard_ui.Match.Range.{cmd_range_match}
use qr_wireguard_ui.Command.{
  Desc, CmdElement, cmd_option, cmd_variable, cmd_vararg, cmd_range, cmd_ipv4, cmd_ipv4_prefix,
  cmd_ipv6, cmd_ipv6_prefix,
}

-- A match type in a condition: `no_match` is 0.
abbrev pub holds : MatchType → Bool
holds m = not (rank m == 0)

abbrev pub is_exact : MatchType → Bool
is_exact m = rank m == 9

-- The ladder of macro tests on a token, the same in both functions.
pub data Kind : Type 0 where
  vararg range ipv6 ipv6_prefix ipv4 ipv4_prefix extend literal : Kind

unfoldable pub kind : CString → Kind
kind str =
    if cmd_vararg str
    then vararg
    else if cmd_range str
    then range
    else if cmd_ipv6 str
    then ipv6
    else if cmd_ipv6_prefix str
    then ipv6_prefix
    else if cmd_ipv4 str
    then ipv4
    else if cmd_ipv4_prefix str
    then ipv4_prefix
    else if cmd_option str || cmd_variable str
    then extend
    else literal

-- `if (match_type < t) match_type = t; matched++;`, under a test.
abbrev pub raise_if : Bool → MatchType → MatchType → Option MatchType
raise_if test t match_type = if test then some (raise_to t match_type) else none

-- What one token does to `match_type` and `matched`; `none` leaves both.
unfoldable pub take_completion : Kind → CString → MatchType → CString → Option MatchType
take_completion vararg command m str = some (raise_to vararg_match m)
take_completion range command m str = raise_if (cmd_range_match str (some command)) range_match m
take_completion ipv6 command m str = raise_if (holds (cmd_ipv6_match (some command))) ipv6_match m
take_completion ipv6_prefix command m str = none
take_completion ipv4 command m str = raise_if (holds (cmd_ipv4_match (some command))) ipv4_match m
take_completion ipv4_prefix command m str =
    raise_if (holds (cmd_ipv4_prefix_match (some command))) ipv4_prefix_match m
take_completion extend command m str = some (raise_to extend_match m)
take_completion literal command m str =
    if starts_with command str
    then some (if str_eq command str then exact_match else raise_to partly_match m)
    else none

unfoldable pub take_string : Kind → CString → MatchType → CString → Option MatchType
take_string vararg command m str = some (raise_to vararg_match m)
take_string range command m str = raise_if (cmd_range_match str (some command)) range_match m
take_string ipv6 command m str = raise_if (is_exact (cmd_ipv6_match (some command))) ipv6_match m
take_string ipv6_prefix command m str = none
take_string ipv4 command m str = raise_if (is_exact (cmd_ipv4_match (some command))) ipv4_match m
take_string ipv4_prefix command m str =
    raise_if (is_exact (cmd_ipv4_prefix_match (some command))) ipv4_prefix_match m
take_string extend command m str = some (raise_to extend_match m)
take_string literal command m str = if str_eq command str then some exact_match else none

unfoldable pub token_by_completion : CString → MatchType → CString → Option MatchType
unfolding kind take_completion
token_by_completion command m str = take_completion (kind str) command m str

unfoldable pub token_by_string : CString → MatchType → CString → Option MatchType
unfolding kind take_string
token_by_string command m str = take_string (kind str) command m str

-- Both functions are this loop over the slots, with the body for one token as a parameter.
module _ (token : MatchType → CString → Option MatchType) where
  -- The loop over `descvec`: `match_type`, and `matched` as a number.
  unfoldable pub filter_descs : List Desc → MatchType → ℕ → MatchType × ℕ
  filter_descs [] match_type matched = (match_type, matched)
  filter_descs (desc ∷ rest) match_type matched =
      let kept = filter_descs rest match_type matched in
      elim (token match_type desc.cmd) [
        | none ↦ kept
        | some raised ↦ filter_descs rest raised (matched + 1)
      ]

  -- What becomes of one slot; out of range, `index >= vector_max (cmd_element->strvec)`.
  unfoldable pub filter_slot :
      {F : Type 0} → ℕ → Option (CmdElement F) → MatchType → MatchType × Option (CmdElement F)
  unfolding filter_descs
  filter_slot index none match_type = (match_type, none)
  filter_slot index (some cmd_element) match_type = elim (get_elem? cmd_element.strvec index) [
    | none ↦ (match_type, none)
    | some descvec ↦
        let (raised, matched) = filter_descs descvec match_type 0 in
        (raised, if matched == 0 then none else some cmd_element)
  ]

  unfoldable pub filter_slots :
      {F : Type 0}
      → ℕ
      → List (Option (CmdElement F))
      → MatchType
      → MatchType × List (Option (CmdElement F))
  unfolding filter_slot
  filter_slots index [] match_type = (match_type, [])
  filter_slots index (slot ∷ rest) match_type =
      let (raised, slot') = filter_slot index slot match_type in
      let (final, rest') = filter_slots index rest raised in (final, slot' ∷ rest')

module _ {F : Type 0} where
  unfoldable pub cmd_filter_by_completion :
      CString → List (Option (CmdElement F)) → ℕ → MatchType × List (Option (CmdElement F))
  unfolding filter_slots token_by_completion raise_to
  cmd_filter_by_completion command v index =
      filter_slots (token_by_completion command) index v no_match

  unfoldable pub cmd_filter_by_string :
      CString → List (Option (CmdElement F)) → ℕ → MatchType × List (Option (CmdElement F))
  unfolding filter_slots token_by_string raise_to
  cmd_filter_by_string command v index = filter_slots (token_by_string command) index v no_match
