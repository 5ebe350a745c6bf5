-- ===== src/Cmd/Fw/Rule/Valid.antt =====
-- What a filter rule is that passes the checks.
use qr_wireguard_ui.Base.{
  ℕ, ◌+◌, ◌≤◌, Bool, true, false, not, ◌≡◌, ◌⊎◌, inl, inr, refl, Option, none, some, List, [], ◌∷◌,
  arith, length, Bool-cases,
}
use qr_wireguard_ui.Text.{CString, codes, first, is_digit, str_eq, atoi, atoi_word, split_at}
use qr_wireguard_ui.Text.Laws.{str_eq_iff}
use qr_wireguard_ui.Text.Strtok.{strtok}
use qr_wireguard_ui.Command.{Code, cmd_err_nothing_todo}
use qr_wireguard_ui.Cmd.Fw.Rule.{
  FilterRule, Check, passes, overruns, refused, ◌then_check◌, refuse_if, is_one_of, any, bad_port,
  check_port, check_address, check_days, check_day, check_two, check_time, check_rule, slash_check,
  check_parts, check_one_of, zones, directions, positions, actions,
}

then_check-passes : (a b : Check) → (a then_check b) ≡ passes → (a ≡ passes) × (b ≡ passes)
then_check-passes passes b h = (refl, h)
then_check-passes overruns b h = absurd (ground arith)
then_check-passes (refused code) b h = absurd (ground arith)

refuse_if-passes : (bad : Bool) (code : Code) → refuse_if bad code ≡ passes → bad ≡ false
refuse_if-passes true code h = absurd (ground arith)
refuse_if-passes false code h = refl

-- `any`, or a number in the range of a port.
abbrev pub IsPort : CString → Type 0
IsPort port = (port ≡ any) ⊎ ((1 ≤ atoi port) × (atoi port ≤ 65535))

-- A digit in front, and a mask of at most two bytes behind a slash.
abbrev pub IsNetwork : CString → Type 0
IsNetwork address =
    (is_digit (first address) ≡ true)
    × ((before mask : CString) × (split_at b'/' address ≡ some (before, mask)) × (length mask ≤ 2))

abbrev pub AllThree : List CString → Type 0
AllThree [] = Unit
AllThree (s ∷ rest) = (length s ≡ 3) × AllThree rest

-- `any`, or at most seven words of three bytes.
abbrev pub IsDays : CString → Type 0
IsDays day = (day ≡ any) ⊎ (AllThree (strtok b'|' day) × (length (strtok b'|' day) ≤ 7))

-- `any`, or an hour and a minute of two bytes each, with more parts perhaps.
abbrev pub IsTime : CString → Type 0
IsTime time =
    (time ≡ any)
    ⊎ ((hour minute : CString) × (rest : List CString) × (strtok b':' time ≡ hour ∷ minute ∷ rest)
        × ((length hour ≡ 2) × (atoi_word hour ≤ 23))
        × ((length minute ≡ 2) × (atoi_word minute ≤ 59)))

check_port-IsPort : (port : CString) → check_port port ≡ passes → IsPort port
unfolding check_port bad_port
check_port-IsPort port h = elim (Bool-cases (str_eq port any)) [
  | inl is_any ↦ inl ((str_eq_iff port any).0 is_any)
  | inr number ↦ inr (ground (arith, h))
]

slash_check_lem :
    (split : Option (CString × CString))
    → slash_check split ≡ passes
    → (before mask : CString) × (split ≡ some (before, mask)) × (length mask ≤ 2)
slash_check_lem none h = absurd (ground arith)
slash_check_lem (some (before, mask)) h = (before, mask, refl, ground arith)

check_address-IsNetwork : (address : CString) → check_address address ≡ passes → IsNetwork address
unfolding check_address
check_address-IsNetwork address h =
    let (digit, rest) = then_check-passes (refuse_if (not (is_digit (first address))) _) _ h in
    let (_, split) = then_check-passes _ (slash_check (split_at b'/' address)) rest in
    (ground (arith, digit), slash_check_lem (split_at b'/' address) split)

check_days_lem :
    (days : List CString) (n : ℕ)
    → check_days days n ≡ passes
    → AllThree days × (length days + n ≤ 7)
unfolding check_days
check_days_lem [] n h = (tt, ground arith)
check_days_lem (s ∷ rest) n h = ground (arith, check_days_lem rest (n + 1))

check_day-IsDays : (day : CString) → check_day day ≡ passes → IsDays day
unfolding check_day
check_day-IsDays day h = elim (Bool-cases (str_eq day any)) [
  | inl is_any ↦ inl ((str_eq_iff day any).0 is_any)
  | inr days ↦ inr (ground (arith, check_days_lem (strtok b'|' day) 0))
]

check_two_lem :
    (s : CString) (bound : ℕ) → check_two s bound ≡ passes → (length s ≡ 2) × (atoi_word s ≤ bound)
unfolding check_two
check_two_lem s bound h = ground arith

check_parts_lem :
    (parts : List CString)
    → check_parts parts ≡ passes
    → (hour minute : CString) × (rest : List CString) × (parts ≡ hour ∷ minute ∷ rest)
      × ((length hour ≡ 2) × (atoi_word hour ≤ 23))
      × ((length minute ≡ 2) × (atoi_word minute ≤ 59))
check_parts_lem [] h = absurd (ground arith)
check_parts_lem (hour ∷ []) h =
    absurd
      (ground (arith, (then_check-passes (check_two hour 23) (refused cmd_err_nothing_todo) h).1))
check_parts_lem (hour ∷ minute ∷ rest) h =
    let (a, b) = then_check-passes (check_two hour 23) (check_two minute 59) h in
    (hour, minute, rest, refl, check_two_lem hour 23 a, check_two_lem minute 59 b)

check_time-IsTime : (time : CString) → check_time time ≡ passes → IsTime time
unfolding check_time
check_time-IsTime time h = elim (Bool-cases (str_eq time any)) [
  | inl is_any ↦ inl ((str_eq_iff time any).0 is_any)
  | inr parts ↦ inr (check_parts_lem (strtok b':' time) (ground (arith, h)))
]

-- A rule as the commands take it.
pub record IsValid (r : FilterRule) : Type 0 where
  pub numbered : is_digit (first r.num) ≡ true
  pub zone : (r.zone ≡ codes "lan2wan") ⊎ (r.zone ≡ codes "wan2lan")
  pub position : (r.position ≡ codes "insert") ⊎ (r.position ≡ codes "append")
  pub sport : IsPort r.sport
  pub dport : IsPort r.dport
  pub sip : IsNetwork r.sip
  pub dip : IsNetwork r.dip
  pub day : IsDays r.day
  pub from_time : IsTime r.from_time
  pub to_time : IsTime r.to_time

is_one_of_two : (s a b : CString) → is_one_of s (a ∷ b ∷ []) ≡ true → (s ≡ a) ⊎ (s ≡ b)
is_one_of_two s a b h = elim (Bool-cases (str_eq s a)) [
  | inl here ↦ inl ((str_eq_iff s a).0 here)
  | inr other ↦ inr ((str_eq_iff s b).0 (ground (arith, h)))
]

-- A rule that passes the checks begins with a digit, its zone and its position are one of two words,
-- each port is `any` or from 1 to 65535, each address begins with a digit and has a slash with at
-- most two bytes behind it, the days are `any` or at most seven words of three bytes, and each time
-- is `any` or begins with an hour up to 23 and a minute up to 59, of two bytes each.
pub check_rule-IsValid : (r : FilterRule) → check_rule r ≡ passes → IsValid r
unfolding check_rule
check_rule-IsValid r h0 =
    let (num, h1) = then_check-passes (refuse_if (not (is_digit (first r.num))) _) _ h0 in
    let (zone, h2) = then_check-passes (check_one_of r.zone zones) _ h1 in
    let (direction, h3) = then_check-passes (check_one_of r.direction directions) _ h2 in
    let (position, h4) = then_check-passes (check_one_of r.position positions) _ h3 in
    let (action, h5) = then_check-passes (check_one_of r.action actions) _ h4 in
    let (sport, h6) = then_check-passes (check_port r.sport) _ h5 in
    let (dport, h7) = then_check-passes (check_port r.dport) _ h6 in
    let (sip, h8) = then_check-passes (check_address r.sip) _ h7 in
    let (dip, h9) = then_check-passes (check_address r.dip) _ h8 in
    let (day, h10) = then_check-passes (check_day r.day) _ h9 in
    let (from, to) = then_check-passes (check_time r.from_time) (check_time r.to_time) h10 in
    record {
      numbered = ground (arith, num);
      zone = is_one_of_two r.zone _ _ (ground (arith, zone));
      position = is_one_of_two r.position _ _ (ground (arith, position));
      sport = check_port-IsPort r.sport sport;
      dport = check_port-IsPort r.dport dport;
      sip = check_address-IsNetwork r.sip sip;
      dip = check_address-IsNetwork r.dip dip;
      day = check_day-IsDays r.day day;
      from_time = check_time-IsTime r.from_time from;
      to_time = check_time-IsTime r.to_time to;
    }
