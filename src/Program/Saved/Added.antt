-- ===== src/Program/Saved/Added.antt =====
-- What the handler of each line does while a file is loaded: it adds the line.
use qr_wireguard_ui.Base.{
  ◌≤◌, Bool, true, ◌||◌, ◌≡◌, ◌≢◌, refl, ap, ◌∙◌, Option, some, List, [], ◌∷◌, arith, length,
}
use qr_wireguard_ui.Text.{CString, codes, str_eq, str_lt, starts_with}
use qr_wireguard_ui.Command.{Code, cmd_success}
use qr_wireguard_ui.Config.{add_before, config_del_line_byleft, config_del_line}
use qr_wireguard_ui.Config.Printf.{no_percent}
use qr_wireguard_ui.Config.Lines.{count, delete_first_none}
use qr_wireguard_ui.Session.{vty_file, Session, returns}
use qr_wireguard_ui.Session.Common.{is_file, succeeds}
use qr_wireguard_ui.Session.Common.Hostname.{config_hostname_file}
use qr_wireguard_ui.Session.Shell.{run}
use qr_wireguard_ui.Cmd.{World, System, M, set_config, del_line}
use qr_wireguard_ui.Cmd.Parts.{AllPlain, cons-ne-nil}
use qr_wireguard_ui.Cmd.Quiet.{bind_some}
use qr_wireguard_ui.Cmd.Replace.{add_line_lem, ensure_success}
use qr_wireguard_ui.Cmd.Bridge.{bridge_disable}
use qr_wireguard_ui.Cmd.Vpn.{
  public_key, allowed_ips, link_up, link_down, Peer, set_peer, set_link, wg_link,
  wg_peer_public_key, wg_peer_allowed_ips, is_public_key, is_allowed_ips,
}
use qr_wireguard_ui.Cmd.Vpn.Peers.{left_of, line_of, AllShort, values, set_peer_lem}
use qr_wireguard_ui.Cmd.Vpn.Link.{set_link_lem}
use qr_wireguard_ui.Program.{step, handle}
use qr_wireguard_ui.Program.Install.{cmdvec}
use qr_wireguard_ui.Program.Saved.{
  Saved, hostname, bridge_disabled, wg_link_up, wg_link_down, wg_peer, wg_peer_ips, line, clash,
  IsSavable,
}
use qr_wireguard_ui.Program.Saved.Dispatched.{arguments_of, func_of}

-- A line is added to the configuration of a session.
abbrev pub add : CString → Session → Session
add l s = record s { config_top = add_before str_lt l s.config_top }

-- A handler that succeeds.
step-some :
    (m : M Code) (s : Session) (w : World)
    → m (record { session = s; ran = [] }) ≡ some (cmd_success, w)
    → step m s ≡ succeeds w.session
step-some m s w h = rw (h, step) refl

del_byleft_none :
    (c : List CString) (left : CString)
    → count (starts_with left) c ≡ 0
    → config_del_line_byleft c left ≡ c
unfolding config_del_line_byleft
del_byleft_none c left h = delete_first_none (starts_with left) c h

count_or :
    (a b : CString → Bool) (c : List CString)
    → count (λ x. a x || b x) c ≡ 0
    → (count a c ≡ 0) × (count b c ≡ 0)
unfolding count
count_or a b [] h = (refl, refl)
count_or a b (x ∷ c) h = (ground (arith, count_or a b c), ground (arith, count_or a b c))

module _ (sys : System) (s : Session) where
  abbrev start : World
  start = record { session = s; ran = [] }

  bridge_adds :
      count (λ x. str_eq x (codes "bridge disable")) s.config_top ≡ 0
      → step bridge_disable s ≡ succeeds (add (codes "bridge disable") s)
  unfolding bridge_disable del_line config_del_line no_percent
  bridge_adds fresh =
      step-some bridge_disable s
        (set_config start (add_before str_lt (codes "bridge disable") s.config_top))
        (bind_some (del_line (codes "bridge disable")) _ {w = start} (
            ap (λ c. some (tt, set_config start c))
              (delete_first_none (λ x. str_eq x (codes "bridge disable")) s.config_top fresh))
          ∙ bind_some _ _ (add_line_lem (codes "bridge disable") start refl (cons-ne-nil _ _))
          ∙ ensure_success _)

  -- The two lines of the link are not there.
  link_gone :
      count (λ x. starts_with link_up x || starts_with link_down x) s.config_top ≡ 0
      → config_del_line_byleft (config_del_line_byleft s.config_top link_up) link_down
        ≡ s.config_top
  link_gone fresh =
      let (ups, downs) =
        count_or (starts_with link_up) (starts_with link_down) s.config_top fresh in
      rw (del_byleft_none s.config_top link_up ups) (del_byleft_none s.config_top link_down downs)

  link_adds :
      (l direction : CString)
      → no_percent l ≡ true
      → l ≢ []
      → length direction ≤ 200
      → count (λ x. starts_with link_up x || starts_with link_down x) s.config_top ≡ 0
      → step (set_link sys l direction) s ≡ succeeds (add l s)
  link_adds l direction plain ne short fresh =
      let (w', ran, same, _) = set_link_lem sys l direction start plain ne short in
      step-some (set_link sys l direction) s w' ran
      ∙ ap succeeds same
      ∙ ap (λ c. succeeds (record s { config_top = add_before str_lt l c })) (link_gone fresh)

  peer_adds :
      (key : CString) (peer : Peer)
      → AllShort (key ∷ values peer)
      → AllPlain (key ∷ values peer)
      → count (starts_with (left_of key)) s.config_top ≡ 0
      → step (set_peer sys key peer) s ≡ succeeds (add (line_of key peer) s)
  peer_adds key peer short plain fresh =
      let (w', ran, same) = set_peer_lem sys key peer start short plain in
      step-some (set_peer sys key peer) s w' ran
      ∙ ap succeeds same
      ∙ ap (λ c. succeeds (record s { config_top = add_before str_lt (line_of key peer) c }))
          (del_byleft_none s.config_top (left_of key) fresh)

module _ (sys : System) (key : CString) (good : is_public_key key ≡ true) where
  key_set : wg_peer_public_key sys key ≡ set_peer sys key public_key
  unfolding wg_peer_public_key
  key_set = rw good refl

  ips_set :
      (ips : CString)
      → is_allowed_ips ips ≡ true
      → wg_peer_allowed_ips sys key ips ≡ set_peer sys key (allowed_ips ips)
  unfolding wg_peer_allowed_ips
  ips_set ips h = rw (good, h) refl

module _ (crypt : CString → CString → Option CString) (systems : Session → System)
    (stdin : Session → Option CString) where
  -- The handler of a line adds it while a file is loaded and no line clashes with it.
  pub run_adds :
      (x : Saved) (s : Session)
      → IsSavable x
      → s.vty.type ≡ vty_file
      → count (clash x) s.config_top ≡ 0
      → run crypt (handle systems stdin) cmdvec (func_of x) (arguments_of x) s
        ≡ returns (some cmd_success) (add (line x) s)
  unfolding run handle no_percent wg_link str_eq
  run_adds (hostname name) s h file fresh = config_hostname_file name s h.1 (ap is_file file) fresh
  run_adds bridge_disabled s h file fresh = bridge_adds (systems s) s fresh
  run_adds wg_link_up s h file fresh =
      link_adds (systems s) s link_up (codes "up") refl (cons-ne-nil _ _) (omega arith) fresh
  run_adds wg_link_down s h file fresh =
      link_adds (systems s) s link_down (codes "down") refl (cons-ne-nil _ _) (omega arith) fresh
  run_adds (wg_peer key) s h file fresh =
      ap (λ (m : M Code). step m s) (key_set (systems s) key h.1)
      ∙ peer_adds (systems s) s key public_key (h.0.3, tt) (h.0.2, tt) fresh
  run_adds (wg_peer_ips key ips) s h file fresh =
      ap (λ (m : M Code). step m s) (ips_set (systems s) key h.1 ips h.3)
      ∙ peer_adds (systems s) s key (allowed_ips ips) (h.0.3, (h.2.3, tt)) (h.0.2, (h.2.2, tt))
          fresh
