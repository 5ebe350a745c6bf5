-- ===== src/Tests/Matching.antt =====
-- The matchers and the spelled commands, with their theorems at concrete words.
use qr_wireguard_ui.Base.{
  ℕ, ◌≤◌, true, false, ◌&&◌, ◌≡◌, ◌≢◌, ◌↔◌, refl, none, some, List, [], ◌∷◌, leb, arith, inl,
  length,
}
use qr_wireguard_ui.Text.{CString, codes, all_digits, digits_value, is_digit, str_eq}
use qr_wireguard_ui.Match.{exact_match, no_match}
use qr_wireguard_ui.Match.Ipv4.{cmd_ipv4_match}
use qr_wireguard_ui.Match.Ipv4.Quad.{IsQuad, cmd_ipv4_match-IsQuad}
use qr_wireguard_ui.Match.Ipv4Prefix.{cmd_ipv4_prefix_match}
use qr_wireguard_ui.Match.Ipv4Prefix.Accepted.{
  IsFilled, cmd_ipv4_prefix_match-accepts, cmd_ipv4_prefix_match-slash,
}
use qr_wireguard_ui.Match.Range.{cmd_range_match}
use qr_wireguard_ui.Match.Range.Bounds.{IsNumber, cmd_range_match-bounds}
use qr_wireguard_ui.Command.{Desc, CmdElement, cmd_vararg, cmd_option, cmd_variable}
use qr_wireguard_ui.Command.Spec.{AnySlot}
use qr_wireguard_ui.Command.Execute.{
  CmdVector, run_element, finish, filtered, cmd_execute_command, cmd_execute_command_strict,
}
use qr_wireguard_ui.Command.Spelled.{spelled_at, is_spelled}
use qr_wireguard_ui.Command.Spelled.Agree.{
  spells, spelled_left, last_match, AllPlain, spelled_agree,
}
use qr_wireguard_ui.Command.Spelled.Runs.{is_complete, spelled_runs}

filled : (c : ℕ) → is_digit c ≡ true → IsFilled (c ∷ [])
unfolding all_digits digits_value is_digit
filled c d = ((ground arith, omega arith, ground arith), not_nil)
  where
    not_nil : (c ∷ []) ≢ []
    not_nil e = absurd (ground arith)

one : IsFilled (codes "1")
unfolding is_digit
one = filled 49 refl

nine : IsFilled (codes "9")
unfolding is_digit
nine = filled 57 refl

one_low : digits_value 0 (codes "1") ≤ 32
unfolding digits_value is_digit
one_low = omega arith

cmd_ipv4_match-IsQuad_example :
    (cmd_ipv4_match (some (codes ".1.1.1")) ≡ exact_match) ↔ IsQuad (codes ".1.1.1")
cmd_ipv4_match-IsQuad_example = cmd_ipv4_match-IsQuad (codes ".1.1.1")

empty_first : cmd_ipv4_match (some (codes ".1.1.1")) ≡ exact_match
unfolding cmd_ipv4_match all_digits digits_value
empty_first = (cmd_ipv4_match-IsQuad (codes ".1.1.1")).1 (
  [],
  codes "1.1.1",
  refl,
  (refl, omega arith, omega arith),
  (codes "1", codes "1.1", refl, one.0, one.1, (codes "1", codes "1", refl, one.0, one.1, one)),
)

cmd_ipv4_prefix_match-accepts_example :
    cmd_ipv4_prefix_match (some (codes "1.1.1.1/1")) ≡ exact_match
cmd_ipv4_prefix_match-accepts_example =
    cmd_ipv4_prefix_match-accepts (codes "1") (codes "1") (codes "1") (codes "1") (codes "1") one
      one one one one one_low

cmd_ipv4_prefix_match-slash_example :
    cmd_ipv4_prefix_match (some (codes "1/1.1.1.1/1"))
    ≡ cmd_ipv4_prefix_match (some (codes "1.1.1.1/1"))
cmd_ipv4_prefix_match-slash_example =
    cmd_ipv4_prefix_match-slash (codes "1") (codes "1.1.1.1/1") one

one-IsNumber : IsNumber (codes "1")
one-IsNumber = (one.0.0, one.1)

nine-IsNumber : IsNumber (codes "9")
nine-IsNumber = (nine.0.0, nine.1)

cmd_range_match-bounds_example : cmd_range_match (codes "<1-9>") (some (codes "9")) ≡ (
    leb (digits_value 0 (codes "1")) (digits_value 0 (codes "9"))
    && leb (digits_value 0 (codes "9")) (digits_value 0 (codes "9")))
cmd_range_match-bounds_example =
    cmd_range_match-bounds (codes "1") (codes "9") [] (codes "9") one-IsNumber (omega arith)
      nine-IsNumber (omega arith) nine-IsNumber

abbrev pub keyword : CString → List Desc
keyword cmd = record { cmd = cmd; str = none } ∷ []

abbrev pub element : CString → List (List Desc) → CmdElement ℕ
element string strvec = record {
  string = string;
  func = 0;
  doc = [];
  daemon = 0;
  strvec = strvec;
  cmdsize = length strvec;
}

abbrev pub write_file : CmdElement ℕ
write_file = element (codes "write file") (keyword (codes "write") ∷ keyword (codes "file") ∷ [])

abbrev pub write_only : CmdElement ℕ
write_only = element (codes "write") (keyword (codes "write") ∷ [])

abbrev pub write_memory : CmdElement ℕ
write_memory =
    element (codes "write memory") (keyword (codes "write") ∷ keyword (codes "memory") ∷ [])

abbrev pub write_commands : CmdVector ℕ
write_commands = some write_file ∷ some write_only ∷ some write_memory ∷ []

abbrev write : List CString
write = codes "write" ∷ []

write_plain : AllPlain write
unfolding cmd_vararg
write_plain = (refl, tt)

write_spelled : AnySlot (λ e. spells write 0 e ≡ true) write_commands
unfolding spells spelled_at is_spelled cmd_option cmd_variable str_eq
write_spelled = inl refl

spelled_agree_example :
    (cmd_execute_command write write_commands
      ≡ finish write (filtered (spelled_left write 0 write_commands) 1 (last_match write no_match)))
    × (cmd_execute_command_strict write write_commands ≡ cmd_execute_command write write_commands)
spelled_agree_example = spelled_agree write write_commands write_plain write_spelled

write_complete : is_complete write write_only ≡ true
unfolding spells spelled_at is_spelled cmd_option cmd_variable str_eq
write_complete = refl

write_file_incomplete : is_complete write write_file ≡ false
unfolding spells spelled_at is_spelled cmd_option cmd_variable str_eq
write_file_incomplete = refl

write_memory_incomplete : is_complete write write_memory ≡ false
unfolding spells spelled_at is_spelled cmd_option cmd_variable str_eq
write_memory_incomplete = refl

spelled_runs_example :
    (cmd_execute_command write (some write_file ∷ some write_only ∷ some write_memory ∷ [])
      ≡ run_element write_only write)
    × (cmd_execute_command_strict write (some write_file ∷ some write_only ∷ some write_memory ∷ [])
        ≡ run_element write_only write)
spelled_runs_example =
    spelled_runs (codes "write") [] (some write_file ∷ []) (some write_memory ∷ []) write_only
      write_plain write_complete (write_file_incomplete, tt) (write_memory_incomplete, tt)
