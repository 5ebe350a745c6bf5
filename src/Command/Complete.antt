-- ===== src/Command/Complete.antt =====
-- `cmd_complete_command`: what the words of the current position can be completed to.
pub mod Lcd
pub mod Sound
pub mod Entry
pub mod Finds
pub mod Promise
pub mod Offers
use qr_wireguard_ui.Base.{
  ℕ, ◌+◌, ◌-◌, Bool, true, false, not, ◌&&◌, ◌||◌, Option, none, some, List, [], ◌∷◌, ◌++◌, ◌==◌,
  ltb, length, take, get_elem?, if◌then◌else◌,
}
use qr_wireguard_ui.Text.{CString, str_eq, starts_with}
use qr_wireguard_ui.Match.{MatchType}
use qr_wireguard_ui.Command.{
  Desc, CmdElement, Code, cmd_err_ambiguous, cmd_err_no_match, cmd_err_nothing_todo,
  cmd_complete_full_match, cmd_complete_match, cmd_complete_list_match, cmd_option, cmd_variable,
  cmd_vararg, cmd_range, cmd_ipv4, cmd_ipv4_prefix,
}
use qr_wireguard_ui.Command.Filter.{cmd_filter_by_completion}
use qr_wireguard_ui.Command.Ambiguous.{Ended, returned, went_on, slot_turn, is_cmd_ambiguous}
use qr_wireguard_ui.Command.Execute.{CmdVector}
use qr_wireguard_ui.Command.Complete.Lcd.{cmd_lcd}

-- `cmd_entry_function`, with the word that is typed or NULL; the result is `dst` or NULL.
unfoldable pub cmd_entry_function : Option CString → CString → Bool
cmd_entry_function src dst =
    let typed : Bool = elim src [ none ↦ true | some s ↦ starts_with s dst ] in
    if cmd_option dst
      || cmd_variable dst
      || cmd_vararg dst
      || cmd_ipv4 dst
      || cmd_ipv4_prefix dst
      || cmd_range dst
    then false
    else typed

unfoldable pub cmd_unique_string : List CString → CString → Bool
cmd_unique_string [] str = true
cmd_unique_string (match ∷ v) str = if str_eq match str then false else cmd_unique_string v str

-- The loop over the tokens of a position.
unfoldable pub match_descs : Option CString → List Desc → List CString → List CString
unfolding cmd_entry_function cmd_unique_string
match_descs src [] matchvec = matchvec
match_descs src (desc ∷ rest) matchvec = match_descs src rest (
    if cmd_entry_function src desc.cmd && cmd_unique_string matchvec desc.cmd
    then matchvec ++ (desc.cmd ∷ [])
    else matchvec)

-- How a completion ends, with the status and the strings.
pub data Completion : Type 0 where
  reads_outside : Completion
  fails_with : Code → Completion
  completes : Code → List CString → Completion

-- What is done with the matched strings.
unfoldable pub finish_matches : Option CString → List CString → Completion
unfolding cmd_lcd
finish_matches none [] = fails_with cmd_err_nothing_todo
finish_matches (some typed) [] = fails_with cmd_err_no_match
finish_matches src (s ∷ []) = completes cmd_complete_full_match (s ∷ [])
finish_matches none (s ∷ t ∷ rest) = completes cmd_complete_list_match (s ∷ t ∷ rest)
finish_matches (some typed) (s ∷ t ∷ rest) =
    let lcd = cmd_lcd (s ∷ t ∷ rest) in
    if not (lcd == 0) && ltb (length typed) lcd
    then completes cmd_complete_match (take lcd s ∷ [])
    else completes cmd_complete_list_match (s ∷ t ∷ rest)

-- The vector behind the words in front of the current one, if the loop over them gets there.
pub data Before (F : Type 0) : Type 0 where
  out_of_reach is_ambiguous : Before F
  left : CmdVector F → Before F

module _ {F : Type 0} where
  -- The loop over the elements.
  unfoldable pub match_slots : Option CString → ℕ → CmdVector F → List CString → List CString
  unfolding match_descs
  match_slots src index [] matchvec = matchvec
  match_slots src index (none ∷ v) matchvec = match_slots src index v matchvec
  match_slots src index (some e ∷ v) matchvec =
      match_slots src index v (elim (get_elem? e.strvec index) [
        | none ↦ matchvec
        | some descvec ↦ match_descs src descvec matchvec
      ])

  -- The vector that `is_cmd_ambiguous` leaves when it returns 2 in the middle.
  unfoldable pub slots_until : MatchType → CString → ℕ → CmdVector F → Option CString → CmdVector F
  unfolding slot_turn
  slots_until type command index [] matched = []
  slots_until type command index (slot ∷ rest) matched =
      elim (slot_turn type command index slot matched) [
        | none ↦ slot ∷ rest
        | some (returned ret) ↦ slot ∷ rest
        | some (went_on (matched', slot')) ↦ slot' ∷ slots_until type command index rest matched'
      ]

  -- The vector behind `is_cmd_ambiguous`; after a 2 the loop goes on.
  abbrev pub after_word :
      MatchType → CString → ℕ → CmdVector F → Option (Ended (CmdVector F)) → Before F
  after_word type command index v none = out_of_reach
  after_word type command index v (some (went_on v')) = left v'
  after_word type command index v (some (returned ret)) =
      if ret == 1 then is_ambiguous else left (slots_until type command index v none)

  -- The loop over the words in front of the current one.
  unfoldable pub filter_before : List CString → ℕ → CmdVector F → Before F
  unfolding slots_until
  filter_before [] index v = left v
  filter_before (command ∷ words) index v =
      let (match, v') = cmd_filter_by_completion command v index in
      elim (after_word match command index v' (is_cmd_ambiguous command v' index match)) [
        | out_of_reach ↦ out_of_reach
        | is_ambiguous ↦ is_ambiguous
        | left v'' ↦ filter_before words (index + 1) v''
      ]

  -- On the words in front of the current one, and the current one or NULL.
  unfoldable pub cmd_complete_command : List CString → Option CString → CmdVector F → Completion
  unfolding filter_before match_slots finish_matches cmd_filter_by_completion is_cmd_ambiguous
  cmd_complete_command words current cmd_vector = elim (filter_before words 0 cmd_vector) [
    | out_of_reach ↦ reads_outside
    | is_ambiguous ↦ fails_with cmd_err_ambiguous
    | left v ↦ finish_matches current (match_slots current (length words) v [])
  ]
