-- ===== src/Session/Portmap.antt =====
-- cmd/cmd_fw.c: `sfirewall nat portmap` and `no sfirewall nat portmap`.
use qr_wireguard_ui.Base.{
  ◌<◌, Bool, true, false, not, ◌&&◌, ◌||◌, ◌≡◌, ◌≢◌, ap, ◌∙◌, Option, none, some, List, [], ◌∷◌,
  ◌++◌, leb, arith, length, if◌then◌else◌,
}
use qr_wireguard_ui.Text.{CString, codes, first, is_digit, str_eq, str_lt}
use qr_wireguard_ui.Text.Laws.{str_eq_refl}
use qr_wireguard_ui.Config.{add_before, config_add_line, config_del_line}
use qr_wireguard_ui.Config.Printf.{no_percent, vasprintf-no_percent}
use qr_wireguard_ui.Config.Order.{IsSorted, delete_first-add_before}
use qr_wireguard_ui.Config.Lines.{
  occurrences, count-add_before, config_add_line_lem, delete_first_none,
}
use qr_wireguard_ui.Command.{cmd_success, cmd_err_nothing_todo}
use qr_wireguard_ui.Session.{Session, Step, faults, returns}

-- The arguments of either command.
pub record Portmap : Type 0 where
  pub num : CString
  pub interface : CString
  pub address : CString
  pub protocol : CString
  pub port1 : CString
  pub port2 : CString

-- The three tests at the start: a rule for all protocols has no ports.
unfoldable pub is_refused : Portmap → Bool
is_refused p =
    not (is_digit (first p.num))
    || (str_eq p.protocol (codes "all") && not (str_eq p.port1 (codes "0")))
    || (str_eq p.protocol (codes "all") && not (str_eq p.port2 (codes "0")))

abbrev blank : CString → CString → CString
blank s t = s ++ (b' ' ∷ t)

-- `sprintf (line, "sfirewall nat portmap %s %s %s %s %s %s", ...)`
unfoldable pub portmap_line : Portmap → CString
portmap_line p =
    codes "sfirewall nat portmap "
    ++ blank p.num (blank p.interface (blank p.address (blank p.protocol (blank p.port1 p.port2))))

-- `line` has 1024 bytes, one for the NUL.
abbrev pub overflows : CString → Bool
overflows line = leb 1024 (length line)

abbrev pub added : Session → Option (List CString) → Step
added s none = faults
added s (some config) = returns (some cmd_success) (record s { config_top = config })

unfoldable pub sfirewall_nat_portmap : Portmap → Session → Step
unfolding is_refused portmap_line config_add_line config_del_line
sfirewall_nat_portmap p s =
    if is_refused p
    then returns (some cmd_err_nothing_todo) s
    else if overflows (portmap_line p)
    then faults
    else added s
        (config_add_line (config_del_line s.config_top (portmap_line p)) (portmap_line p) [])

unfoldable pub no_sfirewall_nat_portmap : Portmap → Session → Step
unfolding is_refused portmap_line config_del_line
no_sfirewall_nat_portmap p s =
    if is_refused p
    then returns (some cmd_err_nothing_todo) s
    else if overflows (portmap_line p)
    then faults
    else returns (some cmd_success)
        (record s { config_top = config_del_line s.config_top (portmap_line p) })

portmap_line-ne_nil : (p : Portmap) → portmap_line p ≢ []
unfolding portmap_line
portmap_line-ne_nil p e = absurd (ground arith)

module _ (p : Portmap) (s : Session) (accepted : is_refused p ≡ false)
    (short : length (portmap_line p) < 1024) (plain : no_percent (portmap_line p) ≡ true)
    (sorted : IsSorted s.config_top) (new : occurrences (portmap_line p) s.config_top ≡ 0) where
  fits : overflows (portmap_line p) ≡ false
  fits = ground (arith, short)

  abbrev with_rule : Session
  with_rule = record s { config_top = add_before str_lt (portmap_line p) s.config_top }

  rule_added :
      config_add_line (config_del_line s.config_top (portmap_line p)) (portmap_line p) []
      ≡ some (add_before str_lt (portmap_line p) s.config_top)
  unfolding config_del_line
  rule_added =
      ap (λ c. config_add_line c (portmap_line p) [])
        (delete_first_none (λ pnt. str_eq pnt (portmap_line p)) s.config_top new)
      ∙ config_add_line_lem s.config_top (portmap_line p) [] (portmap_line p)
          (vasprintf-no_percent (portmap_line p) plain) (portmap_line-ne_nil p)

  rule_set : sfirewall_nat_portmap p s ≡ returns (some cmd_success) with_rule
  unfolding sfirewall_nat_portmap
  rule_set = rw (accepted, sfirewall_nat_portmap, fits) (ap (added s) rule_added)

  rule_cleared : no_sfirewall_nat_portmap p with_rule ≡ returns (some cmd_success) s
  unfolding no_sfirewall_nat_portmap
  rule_cleared =
      rw (accepted, no_sfirewall_nat_portmap, fits)
        (ap (λ c. returns (some cmd_success) (record s { config_top = c }))
          (unfold config_del_line in delete_first-add_before (portmap_line p) s.config_top sorted))

  -- If the rule is not refused, its line fits the buffer, has no `%` and is not in the sorted
  -- configuration yet, then setting the rule succeeds with exactly one line for it, and clearing it
  -- from there succeeds and gives the session back.
  pub portmap_set_clear :
      (s' : Session) × (sfirewall_nat_portmap p s ≡ returns (some cmd_success) s')
      × (occurrences (portmap_line p) s'.config_top ≡ 1)
      × (no_sfirewall_nat_portmap p s' ≡ returns (some cmd_success) s)
  portmap_set_clear = (
    with_rule,
    rule_set,
    count-add_before (λ pnt. str_eq pnt (portmap_line p)) str_lt (portmap_line p) s.config_top
        ∙ ground (arith, str_eq_refl (portmap_line p), new),
    rule_cleared,
  )
