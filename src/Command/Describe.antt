-- ===== src/Command/Describe.antt =====
-- `cmd_describe_command`: what may stand at the current position, for the `?` key.
pub mod Entry
pub mod Matched
pub mod Current
pub mod Finds
pub mod Promise
pub mod Sound
use qr_wireguard_ui.Base.{
  ℕ, Bool, true, false, not, ◌&&◌, ◌||◌, Option, none, some, List, [], ◌∷◌, ◌++◌, ◌==◌, length,
  get_elem?, if◌then◌else◌,
}
use mathlib.Core.Option
use qr_wireguard_ui.Text.{CString, codes, str_eq, starts_with}
use qr_wireguard_ui.Match.{no_match}
use qr_wireguard_ui.Match.Ipv4.{cmd_ipv4_match}
use qr_wireguard_ui.Match.Ipv4Prefix.{cmd_ipv4_prefix_match}
use qr_wireguard_ui.Match.Ipv6.{cmd_ipv6_match}
use qr_wireguard_ui.Match.Range.{cmd_range_match}
use qr_wireguard_ui.Command.{
  Desc, CmdElement, Code, cmd_success, cmd_err_no_match, cmd_option, cmd_variable, cmd_vararg,
  cmd_range, cmd_ipv4, cmd_ipv4_prefix, cmd_ipv6,
}
use qr_wireguard_ui.Command.Filter.{holds, cmd_filter_by_completion}
use qr_wireguard_ui.Command.Execute.{
  CmdVector, Filtered, out_of_bounds, stops, filtered, filter_words, is_vararg,
}

-- `cmd_entry_function_desc`, with the word that is typed or NULL; the result is `dst` or NULL.
unfoldable pub cmd_entry_function_desc : Option CString → CString → Bool
cmd_entry_function_desc src dst =
    let typed : Bool = elim src [ none ↦ true | some s ↦ starts_with s dst ] in
    if cmd_vararg dst
    then true
    else if cmd_range dst
    then cmd_range_match dst src
    else if cmd_ipv6 dst
    then holds (cmd_ipv6_match src)
    else if cmd_ipv4 dst
    then holds (cmd_ipv4_match src)
    else if cmd_ipv4_prefix dst
    then holds (cmd_ipv4_prefix_match src)
    else if cmd_option dst || cmd_variable dst
    then true
    else typed

unfoldable pub desc_unique_string : List Desc → CString → Bool
desc_unique_string [] str = false
desc_unique_string (desc ∷ v) str = if str_eq desc.cmd str then true else desc_unique_string v str

abbrev pub desc_cr : Desc
desc_cr = record { cmd = codes "<cr>"; str = some [] }

-- The end of a line is described once.
unfoldable pub set_cr : List Desc → List Desc
unfolding desc_unique_string
set_cr matchvec =
    if desc_unique_string matchvec desc_cr.cmd then matchvec else matchvec ++ (desc_cr ∷ [])

-- The loop over the tokens of a position.
unfoldable pub describe_descs : Option CString → List Desc → List Desc → List Desc
unfolding cmd_entry_function_desc desc_unique_string
describe_descs src [] matchvec = matchvec
describe_descs src (desc ∷ rest) matchvec = describe_descs src rest (
    if cmd_entry_function_desc src desc.cmd && not (desc_unique_string matchvec desc.cmd)
    then matchvec ++ (desc ∷ [])
    else matchvec)

-- One element whose vector ends at the position or in front of it; `none` is a read behind it.
unfoldable pub describe_end : Option CString → ℕ → ℕ → List Desc → Option (List Desc)
unfolding set_cr
describe_end (some word) index max matchvec = some matchvec
describe_end none index max matchvec = if index == max then some (set_cr matchvec) else none

-- How a description ends: with the status, if it is set, and the tokens.
pub data Description : Type 0 where
  reads_past : Description
  refuses : Code → Description
  describes : Option Code → List Desc → Description

-- `vector_slot (strvec, vector_max (strvec) - 1)`
abbrev pub last_descs : List (List Desc) → Option (List Desc)
last_descs [] = none
last_descs (descvec ∷ []) = some descvec
last_descs (descvec ∷ next ∷ strvec) = last_descs (next ∷ strvec)

unfoldable pub finish_descs : Option (List Desc) → Description
finish_descs none = reads_past
finish_descs (some []) = refuses cmd_err_no_match
finish_descs (some (desc ∷ matchvec)) = describes (some cmd_success) (desc ∷ matchvec)

-- This return leaves the status as it is.
abbrev pub finish_vararg : Option (List Desc) → Description
finish_vararg none = reads_past
finish_vararg (some matchvec) = describes none matchvec

module _ {F : Type 0} where
  -- Behind a variable argument: all tokens of the last positions, and the end of the line.
  unfoldable pub vararg_slots : CmdVector F → Option (List Desc)
  vararg_slots [] = some (desc_cr ∷ [])
  vararg_slots (none ∷ v) = vararg_slots v
  vararg_slots (some e ∷ v) =
      Option.bind (last_descs e.strvec)
        (λ descvec. Option.map (λ more. descvec ++ more) (vararg_slots v))

  unfoldable pub describe_slot : Option CString → ℕ → CmdElement F → List Desc → Option (List Desc)
  unfolding describe_descs describe_end
  describe_slot src index e matchvec = elim (get_elem? e.strvec index) [
    | none ↦ describe_end src index (length e.strvec) matchvec
    | some descvec ↦ some (describe_descs src descvec matchvec)
  ]

  -- The loop over the elements.
  unfoldable pub describe_slots : Option CString → ℕ → CmdVector F → List Desc → Option (List Desc)
  unfolding describe_slot
  describe_slots src index [] matchvec = some matchvec
  describe_slots src index (none ∷ v) matchvec = describe_slots src index v matchvec
  describe_slots src index (some e ∷ v) matchvec =
      Option.bind (describe_slot src index e matchvec) (describe_slots src index v)

  -- `if (command) match = cmd_filter_by_completion (command, cmd_vector, index);`
  unfoldable pub filter_current : Option CString → CmdVector F → ℕ → CmdVector F
  unfolding cmd_filter_by_completion
  filter_current none v index = v
  filter_current (some command) v index = (cmd_filter_by_completion command v index).1

  -- On the words in front of the current one, and the current one or NULL. The loop over the words
  -- is that of `cmd_execute_command`.
  unfoldable pub cmd_describe_command : List CString → Option CString → CmdVector F → Description
  unfolding filter_words cmd_filter_by_completion vararg_slots filter_current describe_slots
      finish_descs
  cmd_describe_command words current cmd_vector =
      let index = length words in
      elim (filter_words cmd_filter_by_completion words cmd_vector 0 no_match) [
        | out_of_bounds ↦ reads_past
        | stops code ↦ refuses code
        | filtered v reached match ↦
            if is_vararg match
            then finish_vararg (vararg_slots v)
            else finish_descs (describe_slots current index (filter_current current v index) [])
      ]
