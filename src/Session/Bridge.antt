-- ===== src/Session/Bridge.antt =====
-- cmd/cmd_bridge.c: `bridge NUM WORD WORD` and `no bridge NUM`. The programs that they run are a
-- parameter: what `system` returns may depend on the commands that ran before, the last one first.
use qr_wireguard_ui.Base.{
  ℕ, ◌+◌, ◌≤◌, Bool, true, false, not, ◌||◌, ◌≡◌, ◌≢◌, refl, ◌∙◌, Option, none, some, List, [], ◌∷◌,
  ◌++◌, ◌==◌, ltb, arith, take, if◌then◌else◌,
}
use qr_wireguard_ui.Text.{CString, codes, str_eq, starts_with, atoi_word}
use qr_wireguard_ui.Text.Laws.{starts_with-append}
use qr_wireguard_ui.Config.{config_add_line, config_del_line_byleft}
use qr_wireguard_ui.Config.Printf.{no_percent, vasprintf-no_percent}
use qr_wireguard_ui.Config.Lines.{
  count, occurrences, count-delete_first, count-delete_first_other, starts_differ, replace_byleft,
}
use qr_wireguard_ui.Command.{Code, cmd_warning}
use qr_wireguard_ui.Session.{Session, Step, faults, returns}
use qr_wireguard_ui.Session.Common.{succeeds, is_file}
use qr_wireguard_ui.Session.Portmap.{overflows}

unfoldable pub bridge_number : CString → ℕ
unfolding atoi_word
bridge_number s = atoi_word s

-- `nNum < 1 || nNum > 9`: a negative number has bits above 9.
unfoldable pub is_no_bridge : ℕ → Bool
is_no_bridge n = ltb n 1 || ltb 9 n

-- `bridge %d`
abbrev pub bridge_left : ℕ → CString
bridge_left n = codes "bridge " ++ ((b'0' + n) ∷ [])

-- `snprintf (szInfo, 1024, "bridge %d %s %s", ...)`
abbrev pub bridge_line : ℕ → CString → CString → CString
bridge_line n eth1 eth2 = take 1023 (bridge_left n ++ (b' ' ∷ (eth1 ++ (b' ' ∷ eth2))))

abbrev has_quote : CString → Bool
has_quote [] = false
has_quote (c ∷ s) = c == b'"' || has_quote s

abbrev probe : CString → CString
probe eth = codes "ifconfig " ++ (b'"' ∷ (eth ++ (b'"' ∷ codes " > /dev/null 2>&1")))

abbrev reset : CString → CString
reset eth = codes "ifconfig " ++ eth ++ codes " 0.0.0.0 > /dev/null 2>&1"

abbrev addbr : ℕ → CString
addbr n = codes "brctl addbr brad" ++ ((b'0' + n) ∷ [])

abbrev addif : ℕ → CString → CString → CString
addif n eth1 eth2 =
    codes "brctl addif brad"
    ++ ((b'0' + n) ∷ b' ' ∷ (eth1 ++ (b' ' ∷ (eth2 ++ codes " > /dev/null 2>&1"))))

module _ (system : List CString → CString → ℕ) where
  abbrev bridge_down : ℕ → Session → Session
  bridge_down n s = record s { config_top = config_del_line_byleft s.config_top (bridge_left n) }

  -- What follows `ENSURE_CONFIG`.
  abbrev bridge_up : ℕ → CString → CString → Session → Step
  bridge_up n eth1 eth2 s =
      let ran = addbr n ∷ reset eth2 ∷ reset eth1 ∷ probe eth2 ∷ probe eth1 ∷ [] in
      if is_file s.vty.type
      then succeeds s
      else if overflows (reset eth1) || overflows (reset eth2) || overflows (addif n eth1 eth2)
      then faults
      else if system ran (addif n eth1 eth2) == 0
      then succeeds s
      else succeeds (bridge_down n s)

  abbrev bridge_added : ℕ → CString → CString → Session → Option (List CString) → Step
  bridge_added n eth1 eth2 s none = faults
  bridge_added n eth1 eth2 s (some config) =
      bridge_up n eth1 eth2 (record s { config_top = config })

  unfoldable pub bridge_add : CString → CString → CString → Session → Step
  unfolding bridge_number is_no_bridge config_add_line config_del_line_byleft
  bridge_add num eth1 eth2 s =
      let n = bridge_number num in
      if is_no_bridge n
      then returns (some cmd_warning) s
      else if overflows (probe eth1)
      then faults
      else if has_quote eth1 || not (system [] (probe eth1) == 0)
      then returns (some cmd_warning) s
      else if overflows (probe eth2)
      then faults
      else if has_quote eth2 || not (system (probe eth1 ∷ []) (probe eth2) == 0)
      then returns (some cmd_warning) s
      else bridge_added n eth1 eth2 s (
          config_add_line (config_del_line_byleft s.config_top (bridge_left n))
            (bridge_line n eth1 eth2) [])

unfoldable pub no_bridge_add : CString → Session → Step
unfolding bridge_number is_no_bridge config_del_line_byleft
no_bridge_add num s =
    let n = bridge_number num in
    if is_no_bridge n
    then returns (some cmd_warning) s
    else succeeds (record s { config_top = config_del_line_byleft s.config_top (bridge_left n) })

-- At most one line is of the bridge, and every other line occurs as often as before.
abbrev pub HasOneBridge : ℕ → Session → Session → Type 0
HasOneBridge n s s' =
    (count (starts_with (bridge_left n)) s'.config_top ≤ 1)
    × ((l : CString)
        → starts_with (bridge_left n) l ≡ false
        → occurrences l s'.config_top ≡ occurrences l s.config_top)

-- So it is where a step returns; a step that is undefined says nothing, and one that leaves the
-- process is excluded.
pub data KeepsBridge (n : ℕ) (s : Session) : Step → Type 0 where
  undefined : KeepsBridge n s faults
  returned :
      {code : Option Code} {s' : Session} → HasOneBridge n s s' → KeepsBridge n s (returns code s')

deleted-HasOneBridge :
    (n : ℕ) (s s' : Session)
    → HasOneBridge n s s'
    → HasOneBridge n s
        (record s' { config_top = config_del_line_byleft s'.config_top (bridge_left n) })
unfolding config_del_line_byleft
deleted-HasOneBridge n s s' (once, others) = (
  omega (arith, count-delete_first (starts_with (bridge_left n)) s'.config_top),
  λ l other.
      count-delete_first_other (λ pnt. str_eq pnt l) (starts_with (bridge_left n)) s'.config_top
        (λ x h. starts_differ (bridge_left n) x l h other)
      ∙ others l other,
)

bridge_left-ne_nil : (n : ℕ) → bridge_left n ≢ []
bridge_left-ne_nil n e = absurd (ground arith)

bridge_line_starts :
    (n : ℕ) (eth1 eth2 : CString) → starts_with (bridge_left n) (bridge_line n eth1 eth2) ≡ true
bridge_line_starts n eth1 eth2 =
    starts_with-append (bridge_left n) (take 1015 (b' ' ∷ (eth1 ++ (b' ' ∷ eth2))))

module _ (system : List CString → CString → ℕ) (num eth1 eth2 : CString) (s : Session)
    (once : count (starts_with (bridge_left (bridge_number num))) s.config_top ≤ 1)
    (plain : no_percent (bridge_line (bridge_number num) eth1 eth2) ≡ true) where
  abbrev n : ℕ
  n = bridge_number num

  same-HasOneBridge : HasOneBridge n s s
  same-HasOneBridge = (once, λ l other. refl)

  if_keeps :
      (b : Bool) (x y : Step)
      → KeepsBridge n s x
      → KeepsBridge n s y
      → KeepsBridge n s (if b then x else y)
  if_keeps true x y h k = h
  if_keeps false x y h k = k

  up_keeps :
      (s' : Session) → HasOneBridge n s s' → KeepsBridge n s (bridge_up system n eth1 eth2 s')
  up_keeps s' one = search (if_keeps, undefined, returned, one, deleted-HasOneBridge n s s')

  at_most : {k : ℕ} → k ≡ 1 → k ≤ 1
  at_most h = omega (arith, h)

  added_keeps : KeepsBridge n s (
      bridge_added system n eth1 eth2 s (
        config_add_line
          (config_del_line_byleft s.config_top (bridge_left n))
          (bridge_line n eth1 eth2)
          []))
  added_keeps =
      let (d, added, one, found, others) =
        replace_byleft s.config_top (bridge_left n) (bridge_line n eth1 eth2) []
          (bridge_line n eth1 eth2) (bridge_left-ne_nil n)
          (vasprintf-no_percent (bridge_line n eth1 eth2) plain) (bridge_line_starts n eth1 eth2)
          once in
      rw added (up_keeps (record s { config_top = d }) (at_most one, others))

  add_keeps : KeepsBridge n s (bridge_add system num eth1 eth2 s)
  unfolding bridge_add
  add_keeps = search (if_keeps, undefined, returned, same-HasOneBridge, added_keeps) depth 9

  no_keeps : KeepsBridge n s (no_bridge_add num s)
  unfolding no_bridge_add
  no_keeps = search (if_keeps, returned, same-HasOneBridge, deleted-HasOneBridge n s s)

  -- If at most one line of the configuration starts with `bridge` and the number, and the line to
  -- add has no `%`, then whatever the programs return, so it is where setting or deleting the
  -- bridge returns, with an error or not, and every other line occurs as often as before.
  pub bridge_once :
      KeepsBridge n s (bridge_add system num eth1 eth2 s) × KeepsBridge n s (no_bridge_add num s)
  bridge_once = (add_keeps, no_keeps)
