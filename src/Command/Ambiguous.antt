-- ===== src/Command/Ambiguous.antt =====
-- `is_cmd_ambiguous`: among the slots that a word left, keep those that match it in the best way,
-- and report two different completions.
pub mod Sound
use qr_wireguard_ui.Base.{
  ℕ, ◌+◌, Bool, true, false, not, ◌&&◌, ◌||◌, Option, none, some, List, [], ◌∷◌, ◌==◌, get_elem?,
  if◌then◌else◌,
}
use qr_wireguard_ui.Text.{CString, str_eq, starts_with}
use qr_wireguard_ui.Match.{
  MatchType, no_match, extend_match, ipv4_prefix_match, ipv4_match, ipv6_match, range_match,
  partly_match, exact_match, rank,
}
use qr_wireguard_ui.Match.Ipv4Prefix.{cmd_ipv4_prefix_match}
use qr_wireguard_ui.Match.Range.{cmd_range_match}
use qr_wireguard_ui.Command.{Desc, CmdElement, cmd_option, cmd_variable, cmd_ipv4, cmd_ipv6}

-- What one token does: the function returns 1 or 2, or goes on with `matched` and `match`.
pub data Turn : Type 0 where
  returns : ℕ → Turn
  skip : Turn
  hit : Option CString → Turn

-- `if (matched && strcmp (matched, str) != 0) return 1; else matched = str; match++;`
unfoldable pub hit_once : Option CString → CString → Turn
hit_once none str = hit (some str)
hit_once (some matched) str = if str_eq matched str then hit (some str) else returns 1

unfoldable pub literal : CString → Bool
literal str = not (cmd_option str || cmd_variable str)

-- The `switch (type)`.
unfoldable pub token_turn : MatchType → CString → Option CString → CString → Turn
unfolding hit_once literal
token_turn exact_match command matched str =
    if literal str && str_eq command str then hit matched else skip
token_turn partly_match command matched str =
    if literal str && starts_with command str then hit_once matched str else skip
token_turn range_match command matched str =
    if cmd_range_match str (some command) then hit_once matched str else skip
token_turn ipv6_match command matched str = if cmd_ipv6 str then hit matched else skip
token_turn ipv4_match command matched str = if cmd_ipv4 str then hit matched else skip
token_turn ipv4_prefix_match command matched str =
    let ret = rank (cmd_ipv4_prefix_match (some command)) in
    if ret == 0 then skip else if ret == 8 then returns 2 else hit matched
token_turn extend_match command matched str =
    if cmd_option str || cmd_variable str then hit matched else skip
token_turn _ command matched str = skip

-- What is left of a loop: the value returned from inside it, or the variables behind it.
pub data Ended (A : Type 0) : Type 0 where
  returned : ℕ → Ended A
  went_on : A → Ended A

-- The loop over `descvec`, with `matched` and `match`.
unfoldable pub descs_turn :
    MatchType → CString → List Desc → Option CString → ℕ → Ended (Option CString × ℕ)
unfolding token_turn
descs_turn type command [] matched match = went_on (matched, match)
descs_turn type command (desc ∷ rest) matched match =
    elim (token_turn type command matched desc.cmd) [
      | returns ret ↦ returned ret
      | skip ↦ descs_turn type command rest matched match
      | hit matched' ↦ descs_turn type command rest matched' (match + 1)
    ]

module _ {F : Type 0} where
  -- `none`: `vector_slot (cmd_element->strvec, index)` out of bounds.
  unfoldable pub slot_turn :
      MatchType
      → CString
      → ℕ
      → Option (CmdElement F)
      → Option CString
      → Option (Ended (Option CString × Option (CmdElement F)))
  unfolding descs_turn
  slot_turn type command index none matched = some (went_on (matched, none))
  slot_turn type command index (some cmd_element) matched =
      elim (get_elem? cmd_element.strvec index) [
        | none ↦ none
        | some descvec ↦ some (elim (descs_turn type command descvec matched 0) [
          | returned ret ↦ returned ret
          | went_on (matched', match) ↦
              went_on (matched', if match == 0 then none else some cmd_element)
        ])
      ]

  abbrev pub cons_slot :
      Option (CmdElement F)
      → Option (Ended (List (Option (CmdElement F))))
      → Option (Ended (List (Option (CmdElement F))))
  cons_slot slot none = none
  cons_slot slot (some (returned ret)) = some (returned ret)
  cons_slot slot (some (went_on v)) = some (went_on (slot ∷ v))

  unfoldable pub slots_turn :
      MatchType
      → CString
      → ℕ
      → List (Option (CmdElement F))
      → Option CString
      → Option (Ended (List (Option (CmdElement F))))
  unfolding slot_turn
  slots_turn type command index [] matched = some (went_on [])
  slots_turn type command index (slot ∷ rest) matched =
      elim (slot_turn type command index slot matched) [
        | none ↦ none
        | some (returned ret) ↦ some (returned ret)
        | some (went_on (matched', slot')) ↦
            cons_slot slot' (slots_turn type command index rest matched')
      ]

  -- `went_on v` is `return 0`, with the vector that the call leaves.
  unfoldable pub is_cmd_ambiguous :
      CString
      → List (Option (CmdElement F))
      → ℕ
      → MatchType
      → Option (Ended (List (Option (CmdElement F))))
  unfolding slots_turn
  is_cmd_ambiguous command v index type = slots_turn type command index v none
