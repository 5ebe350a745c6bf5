-- ===== src/Cmd/Vpn/Link.antt =====
-- `wg (link-up|link-down)`: one line says what the link is.
use qr_wireguard_ui.Base.{
  ◌≤◌, true, false, ◌≡◌, ◌≢◌, refl, ap, sym, ◌∙◌, some, List, [], arith, length,
}
use mathlib.Core.Path.{subst}
use qr_wireguard_ui.Text.{CString, codes, str_eq, str_lt, starts_with}
use qr_wireguard_ui.Text.Laws.{starts_with_split}
use qr_wireguard_ui.Command.{cmd_success}
use qr_wireguard_ui.Config.{add_before, config_del_line_byleft}
use qr_wireguard_ui.Config.Printf.{no_percent}
use qr_wireguard_ui.Config.Lines.{
  count, occurrences, count-add_before, count-delete_first_other, starts_differ,
}
use qr_wireguard_ui.Config.Prefixes.{count-delete_self, count-delete_other}
use qr_wireguard_ui.Session.{Session}
use qr_wireguard_ui.Session.Common.{is_file}
use qr_wireguard_ui.Cmd.{World, System, ◌>>=◌, set_config, config_of, del_line_byleft}
use qr_wireguard_ui.Cmd.Parts.{cons-ne-nil}
use qr_wireguard_ui.Cmd.Quiet.{Succeeds, Succeeds-bind, Succeeds-pure, Quiet-run}
use qr_wireguard_ui.Cmd.Replace.{add_line_lem, ensure_config_lem}
use qr_wireguard_ui.Cmd.Vpn.{link_up, link_down, link_set, set_link, wg_link, link_parts}

up_not_down : (x : CString) → starts_with link_up x ≡ true → starts_with link_down x ≡ false
unfolding starts_with
up_not_down x h =
    let (r, e) = starts_with_split link_up x h in
    subst (λ s. starts_with link_down s ≡ false) (sym e) refl

down_not_up : (x : CString) → starts_with link_down x ≡ true → starts_with link_up x ≡ false
unfolding starts_with
down_not_up x h =
    let (r, e) = starts_with_split link_down x h in
    subst (λ s. starts_with link_up s ≡ false) (sym e) refl

link_set-Succeeds :
    (sys : System) (direction : CString)
    → length direction ≤ 200
    → Succeeds (link_set sys direction)
unfolding link_set
link_set-Succeeds sys direction h =
    Succeeds-bind _ _ (Quiet-run sys 1024 (link_parts direction) (omega (arith, h)))
      (λ _. Succeeds-pure)

-- The session behind `set_link`, exactly.
pub set_link_lem :
    (sys : System) (line direction : CString) (w : World)
    → no_percent line ≡ true
    → line ≢ []
    → length direction ≤ 200
    → (w' : World) × (set_link sys line direction w ≡ some (cmd_success, w'))
      × (w'.session ≡ record w.session {
        config_top =
            add_before str_lt line
              (config_del_line_byleft (config_del_line_byleft (config_of w) link_up) link_down);
      })
      × (is_file w.session.vty.type ≡ true → w'.ran ≡ w.ran)
unfolding set_link del_line_byleft
set_link_lem sys line direction w plain ne short =
    let c = config_del_line_byleft (config_del_line_byleft (config_of w) link_up) link_down in
    let (w', ran, same, loads) =
      ensure_config_lem (link_set sys direction) (set_config w (add_before str_lt line c))
        (link_set-Succeeds sys direction short) in
    (w', rw (add_line_lem line (set_config w c) plain ne, ◌>>=◌) ran, same, loads)

-- One line says what the link is, it is `line`, and no line says the contrary.
abbrev pub HasLink : CString → CString → List CString → List CString → Type 0
HasLink line contrary c d =
    (count (starts_with line) d ≡ 1)
    × (count (starts_with contrary) d ≡ 0)
    × ((l : CString)
        → starts_with line l ≡ false
        → starts_with contrary l ≡ false
        → occurrences l d ≡ occurrences l c)

module _ (c : List CString) (ups : count (starts_with link_up) c ≤ 1)
    (downs : count (starts_with link_down) c ≤ 1) where
  abbrev rest : List CString
  rest = config_del_line_byleft (config_del_line_byleft c link_up) link_down

  no_up : count (starts_with link_up) rest ≡ 0
  no_up =
      count-delete_other link_down link_up down_not_up (config_del_line_byleft c link_up)
      ∙ count-delete_self link_up c ups

  no_down : count (starts_with link_down) rest ≡ 0
  no_down =
      count-delete_self link_down (config_del_line_byleft c link_up)
        (rw (count-delete_other link_up link_down up_not_down c) downs)

  kept :
      (l : CString)
      → starts_with link_up l ≡ false
      → starts_with link_down l ≡ false
      → (line : CString) → str_eq line l ≡ false
      → occurrences l (add_before str_lt line rest) ≡ occurrences l c
  unfolding config_del_line_byleft
  kept l not_up not_down line other =
      let is_l = λ (pnt : CString). str_eq pnt l in
      rw (count-add_before is_l str_lt line rest, other)
        (omega (
          arith,
          count-delete_first_other is_l (starts_with link_down) (config_del_line_byleft c link_up)
              (λ x h. starts_differ link_down x l h not_down),
          count-delete_first_other is_l (starts_with link_up) c
              (λ x h. starts_differ link_up x l h not_up),
        ))

  up_HasLink : HasLink link_up link_down c (add_before str_lt link_up rest)
  unfolding starts_with
  up_HasLink = (
    rw (count-add_before (starts_with link_up) str_lt link_up rest, no_up) refl,
    rw (count-add_before (starts_with link_down) str_lt link_up rest, no_down) refl,
    λ l not_up not_down.
        kept l not_up not_down link_up (starts_differ link_up link_up l refl not_up),
  )

  down_HasLink : HasLink link_down link_up c (add_before str_lt link_down rest)
  unfolding starts_with
  down_HasLink = (
    rw (count-add_before (starts_with link_down) str_lt link_down rest, no_down) refl,
    rw (count-add_before (starts_with link_up) str_lt link_down rest, no_up) refl,
    λ l not_down not_up.
        kept l not_up not_down link_down (starts_differ link_down link_down l refl not_down),
  )

-- If each of the two lines of the link is there at most once, then `wg link-up` and `wg link-down`
-- succeed: the line of the command is there once, the contrary one is gone, every other line occurs
-- as often as before, and nothing runs while a file is loaded.
pub wg_link-HasLink :
    (sys : System) (w : World)
    → count (starts_with link_up) (config_of w) ≤ 1
    → count (starts_with link_down) (config_of w) ≤ 1
    → ((w' : World) × (wg_link sys (codes "link-up") w ≡ some (cmd_success, w'))
        × HasLink link_up link_down (config_of w) (config_of w')
        × (is_file w.session.vty.type ≡ true → w'.ran ≡ w.ran))
      × ((w' : World) × (wg_link sys (codes "link-down") w ≡ some (cmd_success, w'))
          × HasLink link_down link_up (config_of w) (config_of w')
          × (is_file w.session.vty.type ≡ true → w'.ran ≡ w.ran))
unfolding wg_link str_eq no_percent
wg_link-HasLink sys w ups downs =
    let (u, ran, config, loads) =
      set_link_lem sys link_up (codes "up") w refl (cons-ne-nil _ _) (omega arith) in
    let (d, ran', config', loads') =
      set_link_lem sys link_down (codes "down") w refl (cons-ne-nil _ _) (omega arith) in
    (
      (
        u,
        ran,
        subst (HasLink link_up link_down (config_of w))
            (sym (ap (λ (s : Session). s.config_top) config)) (up_HasLink _ ups downs),
        loads,
      ),
      (
        d,
        ran',
        subst (HasLink link_down link_up (config_of w))
            (sym (ap (λ (s : Session). s.config_top) config')) (down_HasLink _ ups downs),
        loads',
      ),
    )
