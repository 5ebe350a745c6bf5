-- ===== src/Cmd/Fw/Rule.antt =====
-- `sfirewall filter` with its thirteen arguments, and the same with `no` in front.
pub mod Valid
pub mod Exclusive
use qr_wireguard_ui.Base.{
  ℕ, ◌+◌, Bool, true, false, not, ◌&&◌, ◌||◌, Option, none, some, List, [], ◌∷◌, ◌++◌, ◌==◌, leb,
  ltb, length, if◌then◌else◌,
}
use qr_wireguard_ui.Text.{CString, codes, first, is_digit, str_eq, atoi, atoi_word, split_at}
use qr_wireguard_ui.Text.Strtok.{strtok}
use qr_wireguard_ui.Command.{Code, cmd_success, cmd_warning, cmd_err_nothing_todo}
use qr_wireguard_ui.Cmd.{M, pure, ◌>>=◌, ◌>>◌, sprintf, del_line, add_line, ensure_config}

-- `argv[0]` to `argv[12]`
pub record FilterRule : Type 0 where
  pub num : CString
  pub zone : CString
  pub direction : CString
  pub position : CString
  pub action : CString
  pub protocol : CString
  pub sip : CString
  pub sport : CString
  pub dip : CString
  pub dport : CString
  pub day : CString
  pub from_time : CString
  pub to_time : CString

-- What the sanity checks come to; `overruns` is a `sprintf` into a buffer that is too small.
pub data Check : Type 0 where
  passes overruns : Check
  refused : Code → Check

infixr 20 ◌then_check◌
abbrev pub ◌then_check◌ : Check → Check → Check
passes then_check c = c
overruns then_check c = overruns
(refused code) then_check c = refused code

-- `if (...) return code;`
abbrev pub refuse_if : Bool → Code → Check
refuse_if bad code = if bad then refused code else passes

abbrev pub is_one_of : CString → List CString → Bool
is_one_of s [] = false
is_one_of s (t ∷ rest) = str_eq s t || is_one_of s rest

abbrev pub any : CString
any = codes "any"

-- `sport <= 0 || sport > 65535`, on the bits of an `int`.
unfoldable pub bad_port : ℕ → Bool
bad_port bits = ltb bits 1 || ltb 65535 bits

unfoldable pub check_port : CString → Check
unfolding bad_port
check_port port =
    if str_eq port any
    then passes
    else refuse_if (not (is_digit (first port))) cmd_err_nothing_todo
      then_check refuse_if (bad_port (atoi port)) cmd_err_nothing_todo

-- `strstr (sip, "/")`: from the slash on there are three bytes at most.
abbrev slash_check : Option (CString × CString) → Check
slash_check none = refused cmd_err_nothing_todo
slash_check (some (before, mask)) = refuse_if (ltb 3 (length mask + 1)) cmd_err_nothing_todo

unfoldable pub check_address : CString → Check
check_address address =
    refuse_if (not (is_digit (first address))) cmd_err_nothing_todo
    then_check (if ltb (length address) 256 then passes else overruns)
    then_check slash_check (split_at b'/' address)

-- The loop over the days.
unfoldable pub check_days : List CString → ℕ → Check
check_days [] day_count = refuse_if (ltb 7 day_count) cmd_err_nothing_todo
check_days (s ∷ rest) day_count =
    let more = check_days rest (day_count + 1) in
    if length s == 3 then more else refused cmd_err_nothing_todo

unfoldable pub check_day : CString → Check
unfolding check_days strtok
check_day day =
    if str_eq day any
    then passes
    else if ltb (length day) 128
    then check_days (strtok b'|' day) 0
    else overruns

-- A part of a time: two bytes that spell no more than a bound.
unfoldable pub check_two : CString → ℕ → Check
check_two s bound =
    refuse_if (not (length s == 2)) cmd_err_nothing_todo
    then_check refuse_if (ltb bound (atoi_word s)) cmd_err_nothing_todo

abbrev check_parts : List CString → Check
check_parts [] = refused cmd_err_nothing_todo
check_parts (hour ∷ []) = check_two hour 23 then_check refused cmd_err_nothing_todo
check_parts (hour ∷ minute ∷ rest) = check_two hour 23 then_check check_two minute 59

unfoldable pub check_time : CString → Check
unfolding check_two strtok
check_time time =
    if str_eq time any
    then passes
    else if ltb (length time) 128
    then check_parts (strtok b':' time)
    else overruns

abbrev pub zones : List CString
zones = codes "lan2wan" ∷ codes "wan2lan" ∷ []

abbrev pub directions : List CString
directions = codes "in" ∷ codes "out" ∷ codes "fw" ∷ []

abbrev pub positions : List CString
positions = codes "insert" ∷ codes "append" ∷ []

abbrev pub actions : List CString
actions = codes "permit" ∷ codes "deny" ∷ codes "reject" ∷ []

-- `if (strcmp (s, ...) && strcmp (s, ...)) return CMD_WARNING;`
abbrev pub check_one_of : CString → List CString → Check
check_one_of s names = refuse_if (not (is_one_of s names)) cmd_warning

-- The checks, in the order of the source; both commands have them.
unfoldable pub check_rule : FilterRule → Check
unfolding check_port check_address check_day check_time
check_rule r =
    refuse_if (not (is_digit (first r.num))) cmd_err_nothing_todo
    then_check check_one_of r.zone zones
    then_check check_one_of r.direction directions
    then_check check_one_of r.position positions
    then_check check_one_of r.action actions
    then_check check_port r.sport
    then_check check_port r.dport
    then_check check_address r.sip
    then_check check_address r.dip
    then_check check_day r.day
    then_check check_time r.from_time
    then_check check_time r.to_time

abbrev pub words : List CString → List CString
words [] = []
words (s ∷ rest) = codes " " ∷ s ∷ words rest

abbrev pub arguments : FilterRule → List CString
arguments r =
    r.num ∷ r.zone ∷ r.direction ∷ r.position ∷ r.action ∷ r.protocol ∷ r.sip ∷ r.sport ∷ r.dip
    ∷ r.dport ∷ r.day ∷ r.from_time ∷ r.to_time ∷ []

-- The line of a rule, with another `insert` or `append`.
abbrev pub rule_parts : FilterRule → CString → List CString
rule_parts r position =
    codes "sfirewall filter"
    ∷ words (
        r.num ∷ r.zone ∷ r.direction ∷ position ∷ r.action ∷ r.protocol ∷ r.sip ∷ r.sport ∷ r.dip
        ∷ r.dport ∷ r.day ∷ r.from_time ∷ r.to_time ∷ [])

unfoldable pub del_rule : FilterRule → CString → M Unit
unfolding ◌>>=◌
del_rule r position = do line ← sprintf 1024 (rule_parts r position); del_line line

-- The rule with the contrary `insert` or `append` goes.
unfoldable pub del_contrary : FilterRule → M Unit
unfolding del_rule pure
del_contrary r =
    if str_eq r.position (codes "append")
    then del_rule r (codes "insert")
    else if str_eq r.position (codes "insert")
    then del_rule r (codes "append")
    else pure tt

unfoldable pub set_rule : FilterRule → M Code
unfolding ◌>>=◌
set_rule r = do
  del_contrary r
  line ← sprintf 1024 (rule_parts r r.position)
  del_line line
  add_line line []
  ensure_config (pure cmd_success)

unfoldable pub clear_rule : FilterRule → M Code
unfolding ◌>>=◌
clear_rule r = do del_rule r r.position; ensure_config (pure cmd_success)

abbrev pub checked : Check → M Code → M Code
checked passes m = m
checked overruns m = λ w. none
checked (refused code) m = pure code

unfoldable pub sfirewall_filter_rules : FilterRule → M Code
sfirewall_filter_rules r = checked (check_rule r) (set_rule r)

unfoldable pub no_sfirewall_filter_rules : FilterRule → M Code
no_sfirewall_filter_rules r = checked (check_rule r) (clear_rule r)
