-- ===== src/Command/Execute.antt =====
-- `cmd_execute_command` and `cmd_execute_command_strict`.
pub mod Args
pub mod Safe
pub mod Counted
pub mod Sound
pub mod Dispatch
use mathlib.Core.Option
use qr_wireguard_ui.Base.{
  ℕ, zero, suc, ◌+◌, Bool, true, false, not, ◌&&◌, ◌||◌, Option, none, some, List, [], ◌∷◌, ◌++◌,
  ◌⊎◌, inl, inr, ◌==◌, ltb, leb, length, get_elem?, if◌then◌else◌,
}
use qr_wireguard_ui.Text.{CString, str_eq, starts_with}
use qr_wireguard_ui.Match.{MatchType, no_match, rank}
use qr_wireguard_ui.Command.{
  cmd_vararg, cmd_range, cmd_ipv6, cmd_ipv6_prefix, cmd_ipv4, cmd_ipv4_prefix, cmd_option,
  cmd_variable, Desc, CmdElement, Code, cmd_err_no_match, cmd_err_ambiguous, cmd_err_incomplete,
  cmd_err_exeed_argc_max, cmd_argc_max, cmd_option, cmd_variable, cmd_vararg,
}
use qr_wireguard_ui.Command.Ambiguous.{Ended, returned, went_on, is_cmd_ambiguous}
use qr_wireguard_ui.Command.Filter.{cmd_filter_by_completion, cmd_filter_by_string}

abbrev pub is_vararg : MatchType → Bool
is_vararg match = rank match == 7

-- How the execution of a line ends: a read outside a vector, a code returned before any command is
-- run, the element of a daemon (`CMD_SUCCESS_DAEMON`, with `*cmd` set), or a call of `func`.
pub data Outcome (F : Type 0) : Type 0 where
  fault : Outcome F
  fails : Code → Outcome F
  daemon_success : CmdElement F → Outcome F
  calls : CmdElement F → List CString → Outcome F

-- The command vector: a slot is NULL, or an element.
abbrev pub CmdVector : Type 0 → Type 0
CmdVector F = List (Option (CmdElement F))

abbrev pub FilterBy : Type 0 → Type 0
FilterBy F = CString → CmdVector F → ℕ → MatchType × CmdVector F

-- Where the loop over the words stops: a read out of bounds, a returned code, or the vector with
-- `index` and `match`.
pub data Filtered (F : Type 0) : Type 0 where
  out_of_bounds : Filtered F
  stops : Code → Filtered F
  filtered : CmdVector F → ℕ → MatchType → Filtered F

-- `matched_element`, `matched_count` and `incomplete_count`.
pub record Counts (F : Type 0) : Type 0 where
  pub matched_element : Option (CmdElement F)
  pub matched_count : ℕ
  pub incomplete_count : ℕ

-- How the argument loop ends: it reads behind `strvec`, it has too many arguments, or `argv`.
pub data Arguments : Type 0 where
  bad_read too_many : Arguments
  arguments : List CString → Arguments

-- Whether the word at a position is an argument, and the new `varflag`.
unfoldable pub takes_word : List Desc → Bool × Bool
takes_word (desc ∷ []) =
    let varflag = cmd_vararg desc.cmd in
    (varflag || cmd_variable desc.cmd || cmd_option desc.cmd, varflag)
takes_word _ = (true, false)

unfoldable pub position : List (List Desc) → ℕ → Bool → Option (Bool × Bool)
unfolding takes_word
position strvec i varflag =
    if varflag then some (true, true) else Option.map takes_word (get_elem? strvec i)

-- The loop over the words that fills `argv`.
unfoldable pub collect : List (List Desc) → ℕ → Bool → List CString → List CString → Arguments
unfolding position
collect strvec i varflag argv [] = arguments argv
collect strvec i varflag argv (word ∷ rest) = elim (position strvec i varflag) [
  | none ↦ bad_read
  | some (takes, varflag') ↦
      let argv' = if takes then argv ++ (word ∷ []) else argv in
      let more = collect strvec (i + 1) varflag' argv' rest in
      if leb cmd_argc_max (length argv') then too_many else more
]

module _ {F : Type 0} where
  -- The loop over the words, with the filter of either function.
  unfoldable pub filter_words : FilterBy F → List CString → CmdVector F → ℕ → MatchType → Filtered F
  filter_words filter [] v index match = filtered v index match
  filter_words filter (command ∷ rest) v index match =
      let (match', v') = filter command v index in
      let next : Filtered F = elim (is_cmd_ambiguous command v' index match') [
        | none ↦ out_of_bounds
        | some (returned ret) ↦ stops (if ret == 1 then cmd_err_ambiguous else cmd_err_no_match)
        | some (went_on v'') ↦ filter_words filter rest v'' (index + 1) match'
      ] in
      if is_vararg match' then filtered v' index match' else next

  -- The body of the loop that counts, on one slot.
  unfoldable pub count_slot : ℕ → MatchType → Option (CmdElement F) → Counts F → Counts F
  count_slot index match none n = n
  count_slot index match (some cmd_element) n =
      if is_vararg match || leb cmd_element.cmdsize index
      then record n { matched_element = some cmd_element; matched_count = n.matched_count + 1 }
      else record n { incomplete_count = n.incomplete_count + 1 }

  unfoldable pub count_slots : ℕ → MatchType → CmdVector F → Counts F → Counts F
  count_slots index match [] n = n
  count_slots index match (slot ∷ rest) n =
      count_slots index match rest (count_slot index match slot n)

  -- The tests on the counts.
  unfoldable pub choose : Counts F → Code ⊎ CmdElement F
  choose n =
      if n.matched_count == 0
      then inl (if n.incomplete_count == 0 then cmd_err_no_match else cmd_err_incomplete)
      else if ltb 1 n.matched_count
      then inl cmd_err_ambiguous
      else elim n.matched_element [ none ↦ inl cmd_err_no_match | some e ↦ inr e ]

  unfoldable pub run_element : CmdElement F → List CString → Outcome F
  unfolding collect
  run_element e vline = elim (collect e.strvec 0 false [] vline) [
    | bad_read ↦ fault
    | too_many ↦ fails cmd_err_exeed_argc_max
    | arguments argv ↦ if e.daemon == 0 then calls e argv else daemon_success e
  ]

  abbrev pub no_counts : Counts F
  no_counts = record { matched_element = none; matched_count = 0; incomplete_count = 0 }

  -- What either function does behind the loop over the words.
  unfoldable pub finish : List CString → Filtered F → Outcome F
  unfolding count_slots count_slot choose run_element
  finish vline out_of_bounds = fault
  finish vline (stops code) = fails code
  finish vline (filtered v index match) = elim (choose (count_slots index match v no_counts)) [
    | inl code ↦ fails code
    | inr e ↦ run_element e vline
  ]

  -- On the words of the line, and the command vector of the node.
  unfoldable pub cmd_execute_command : List CString → CmdVector F → Outcome F
  unfolding filter_words finish cmd_filter_by_completion is_cmd_ambiguous cmd_vararg cmd_range
      cmd_ipv6 cmd_ipv6_prefix cmd_ipv4 cmd_ipv4_prefix cmd_option cmd_variable str_eq starts_with
  cmd_execute_command vline cmd_vector =
      finish vline (filter_words cmd_filter_by_completion vline cmd_vector 0 no_match)

  unfoldable pub cmd_execute_command_strict : List CString → CmdVector F → Outcome F
  unfolding filter_words finish cmd_filter_by_string is_cmd_ambiguous cmd_vararg cmd_range cmd_ipv6
      cmd_ipv6_prefix cmd_ipv4 cmd_ipv4_prefix cmd_option cmd_variable str_eq starts_with
  cmd_execute_command_strict vline cmd_vector =
      finish vline (filter_words cmd_filter_by_string vline cmd_vector 0 no_match)
