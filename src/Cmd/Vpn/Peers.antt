-- ===== src/Cmd/Vpn/Peers.antt =====
-- Setting and removing a peer, on the configuration: the line of one key changes.
use qr_wireguard_ui.Base.{
  ◌+◌, ◌≤◌, ◌<◌, true, false, ◌≡◌, refl, ap, ◌∙◌, some, List, [], ◌∷◌, ◌++◌, arith, append-nil,
  length, length-append, inl, inr, Bool-cases,
}
use qr_wireguard_ui.Text.{CString, codes, str_eq, str_lt, starts_with}
use qr_wireguard_ui.Command.{cmd_success}
use qr_wireguard_ui.Config.{add_before, config_del_line_byleft}
use qr_wireguard_ui.Config.Printf.{no_percent, vasprintf-no_percent}
use qr_wireguard_ui.Config.Prefixes.{str_eq-append_both, starts_same}
use qr_wireguard_ui.Session.{Session}
use qr_wireguard_ui.Cmd.{
  World, System, pure, ◌>>=◌, ◌>>◌, set_config, config_of, concat, total, replace_line,
  del_line_byleft, run,
}
use qr_wireguard_ui.Cmd.Parts.{AllPlain, no_percent-concat, starts_with-concat, cons-ne-nil}
use qr_wireguard_ui.Cmd.Quiet.{
  Quiet, Succeeds, Succeeds-bind, Succeeds-pure, Quiet-run, Quiet-bind, Quiet-pure, snprintf-fits,
}
use qr_wireguard_ui.Cmd.Replace.{ensure_config_lem, replace_line_config}
use qr_wireguard_ui.Cmd.Vpn.{
  Peer, public_key, allowed_ips, endpoint, persistent_keepalive, settings, peer_left, peer_line,
  privatekey_path, genkey, wg_set_parts, wg_remove_parts, ensure_privatekey, wg_set, set_peer,
  wg_remove, no_wg_peer,
}

-- What the line of a key begins with, and the line.
abbrev pub left_of : CString → CString
left_of key = concat (peer_left key)

abbrev pub line_of : CString → Peer → CString
line_of key peer = concat (peer_line key peer)

abbrev pub AllShort : List CString → Type 0
AllShort [] = Unit
AllShort (s ∷ rest) = (length s ≤ 200) × AllShort rest

abbrev pub values : Peer → List CString
values public_key = []
values (allowed_ips ips) = ips ∷ []
values (endpoint ips end) = ips ∷ end ∷ []
values (persistent_keepalive ips end time) = ips ∷ end ∷ time ∷ []

total-peer_line :
    (key : CString) (peer : Peer) → AllShort (key ∷ values peer) → total (peer_line key peer) < 1000
total-peer_line key public_key h = omega arith
total-peer_line key (allowed_ips ips) h = omega arith
total-peer_line key (endpoint ips end) h = omega arith
total-peer_line key (persistent_keepalive ips end time) h = omega arith

peer_line_plain :
    (key : CString) (peer : Peer) → AllPlain (key ∷ values peer) → AllPlain (peer_line key peer)
unfolding no_percent
peer_line_plain key public_key h = ground (arith, h)
peer_line_plain key (allowed_ips ips) h = ground (arith, h)
peer_line_plain key (endpoint ips end) h = ground (arith, h)
peer_line_plain key (persistent_keepalive ips end time) h = ground (arith, h)

wg_set_total :
    (key : CString) (peer : Peer)
    → AllShort (key ∷ values peer)
    → total (wg_set_parts key peer) < 2048
wg_set_total key public_key h = omega arith
wg_set_total key (allowed_ips ips) h = omega arith
wg_set_total key (endpoint ips end) h = omega arith
wg_set_total key (persistent_keepalive ips end time) h = omega arith

pub line_starts :
    (key : CString) (peer : Peer) → starts_with (left_of key) (line_of key peer) ≡ true
line_starts key peer = starts_with-concat (peer_left key) (settings peer)

length-left_of : (key : CString) → length (left_of key) ≡ length key + 8
length-left_of key = omega (arith, length-append key [])

str_eq-left_of : (k j : CString) → str_eq (left_of k) (left_of j) ≡ str_eq k j
str_eq-left_of k j =
    str_eq-append_both (codes "wg peer ") (k ++ []) (j ++ []) ∙ rw (append-nil k, append-nil j) refl

-- Keys of one length that differ have no line in common.
pub keys_apart :
    (k j l : CString)
    → length k ≡ length j
    → str_eq k j ≡ false
    → starts_with (left_of k) l ≡ true
    → starts_with (left_of j) l ≡ false
keys_apart k j l e other h =
    starts_same (left_of k) (left_of j) l (omega (arith, length-left_of k, length-left_of j)) h
      (str_eq-left_of k j ∙ other)

ensure_privatekey-Quiet : (sys : System) → Quiet (ensure_privatekey sys)
unfolding ensure_privatekey
ensure_privatekey-Quiet sys =
    let makes : Quiet (run sys 2048 (genkey ∷ []) >> pure tt) =
      Quiet-bind _ _ (Quiet-run sys 2048 (genkey ∷ []) (omega arith)) (λ _. Quiet-pure tt) in
    record {
      at = λ w.
          let (a, w', made, same) = makes.at w in
          elim (Bool-cases (sys.is_there w.ran privatekey_path)) [
            | inl there ↦ (tt, w, rw there refl, refl)
            | inr missing ↦ (a, w', rw missing made, same)
          ];
    }

module _ (sys : System) (key : CString) where
  wg_set-Succeeds : (peer : Peer) → AllShort (key ∷ values peer) → Succeeds (wg_set sys key peer)
  unfolding wg_set
  wg_set-Succeeds peer h =
      Succeeds-bind _ _ (Quiet-run sys 2048 (wg_set_parts key peer) (wg_set_total key peer h))
        (λ _. Succeeds-pure)

  wg_remove-Succeeds : length key ≤ 200 → Succeeds (wg_remove sys key)
  unfolding wg_remove
  wg_remove-Succeeds h =
      Succeeds-bind _ _ (Quiet-run sys 1024 (wg_remove_parts key) (omega (arith, h)))
        (λ _. Succeeds-pure)

  pub set_peer_lem :
      (peer : Peer) (w : World)
      → AllShort (key ∷ values peer)
      → AllPlain (key ∷ values peer)
      → (w' : World) × (set_peer sys key peer w ≡ some (cmd_success, w'))
        × (w'.session ≡ record w.session {
          config_top =
              add_before str_lt
                (line_of key peer)
                (config_del_line_byleft (config_of w) (left_of key));
        })
  unfolding set_peer
  set_peer_lem peer w short plain =
      let (_, w1, made, same) = (ensure_privatekey-Quiet sys).at w in
      let w2 = set_config w1 (
        add_before str_lt (line_of key peer)
          (config_del_line_byleft (config_of w1) (left_of key))) in
      let (w3, ran, same', _) =
        ensure_config_lem (wg_set sys key peer) w2 (wg_set-Succeeds peer short) in
      let replaced : replace_line (pure (left_of key)) (pure (line_of key peer)) [] w1
          ≡ some (tt, w2) =
        replace_line_config (left_of key) (line_of key peer) (line_of key peer) [] w1
          (vasprintf-no_percent _
            (no_percent-concat (peer_line key peer) (peer_line_plain key peer plain)))
          (cons-ne-nil _ _) in
      (
        w3,
        rw (made, ◌>>=◌)
            (rw
              (
                snprintf-fits 2048 (peer_left key) (omega (arith, short.0)),
                snprintf-fits 2048 (peer_line key peer)
                    (omega (arith, total-peer_line key peer short)),
              )
              (rw (replaced, ◌>>=◌) ran)),
        same'
            ∙ ap
                (λ (s : Session). record s {
                  config_top =
                      add_before str_lt (line_of key peer)
                        (config_del_line_byleft s.config_top (left_of key));
                })
                same,
      )

  pub no_wg_peer_lem :
      (w : World)
      → length key ≤ 200
      → (w' : World) × (no_wg_peer sys key w ≡ some (cmd_success, w'))
        × (config_of w' ≡ config_del_line_byleft (config_of w) (left_of key))
  unfolding no_wg_peer del_line_byleft pure
  no_wg_peer_lem w short =
      let w1 = set_config w (config_del_line_byleft (config_of w) (left_of key)) in
      let (w2, ran, same, _) =
        ensure_config_lem (wg_remove sys key) w1 (wg_remove-Succeeds short) in
      (
        w2,
        rw (snprintf-fits 1024 (peer_left key) (omega (arith, short))) ran,
        ap (λ (s : Session). s.config_top) same,
      )
