-- ===== src/Cmd/Vpn.antt =====
-- cmd/cmd_vpn.c: the handlers on their arguments. `wg_peer_full` is compiled out in the source, and
-- the show commands only run a program.
pub mod Listen
pub mod Port
pub mod Link
pub mod Peers
pub mod Spec
pub mod Shows
pub mod Refines
use qr_wireguard_ui.Base.{
  ℕ, ◌+◌, ◌^◌, ◌-◌, Bool, true, false, not, ◌&&◌, ◌||◌, Option, none, some, List, [], ◌∷◌, ◌++◌,
  ◌==◌, ltb, length, if◌then◌else◌,
}
use mathlib.Core.Option
use qr_wireguard_ui.Text.{
  CString, codes, first, is_digit, str_eq, atoi, atoi_word, print_int, split_at,
}
use qr_wireguard_ui.Command.{Code, cmd_success, cmd_warning, cmd_err_nothing_todo}
use qr_wireguard_ui.Session.File.{fgets}
use qr_wireguard_ui.Cmd.{
  World, Request, System, M, pure, ◌>>=◌, ◌>>◌, sprintf, snprintf, system, run, call, call_printed,
  unlink, del_line_byleft, add_line, replace_line, ensure_config, concat,
}

-- `CONFIG_DIR`
abbrev config_dir : CString
config_dir = codes "/qrwg/config"

abbrev pub privatekey_path : CString
privatekey_path = codes "/qrwg/config/privatekey"

abbrev publickey_max_len : ℕ
publickey_max_len = 44

abbrev pub to_null : CString
to_null = codes " > /dev/null 2>&1"

-- `s[strlen (s) - 1]`, and the byte in front of the string where it is empty.
abbrev last_or : ℕ → CString → ℕ
last_or c [] = c
last_or c (d ∷ s) = last_or d s

-- The sanity check of a public key; where the length is wrong, the last byte is not read.
unfoldable pub is_public_key : CString → Bool
is_public_key key = length key == publickey_max_len && last_or 0 key == b'='

-- `isdigit (argv[1][0])`
unfoldable pub is_allowed_ips : CString → Bool
is_allowed_ips ips = is_digit (first ips)

unfoldable pub has_slash : CString → Bool
has_slash [] = false
has_slash (c ∷ s) = c == b'/' || has_slash s

unfoldable pub is_keepalive : CString → Bool
unfolding is_digit atoi
is_keepalive time =
    not (is_digit (first time)) || (not (ltb (atoi time) 1) && not (ltb 1800 (atoi time)))

abbrev pub genkey : CString
genkey = codes "wg genkey | tee /qrwg/config/privatekey | wg pubkey > /qrwg/config/publickey"

abbrev pub peer_left : CString → List CString
peer_left key = codes "wg peer " ∷ key ∷ []

-- The settings of a peer, as they stand in its line.
pub data Peer : Type 0 where
  public_key : Peer
  allowed_ips : CString → Peer
  endpoint : CString → CString → Peer
  persistent_keepalive : CString → CString → CString → Peer

abbrev pub settings : Peer → List CString
settings public_key = []
settings (allowed_ips ips) = codes " allowed-ips " ∷ ips ∷ []
settings (endpoint ips end) = codes " allowed-ips " ∷ ips ∷ codes " endpoint " ∷ end ∷ []
settings (persistent_keepalive ips end time) =
    codes " allowed-ips "
    ∷ ips
    ∷ codes " endpoint "
    ∷ end
    ∷ codes " persistent-keepalive "
    ∷ time
    ∷ []

abbrev pub peer_line : CString → Peer → List CString
peer_line key peer = codes "wg peer " ∷ key ∷ settings peer

abbrev pub wg_set_parts : CString → Peer → List CString
wg_set_parts key peer =
    (codes "wg set wg0 private-key " ∷ privatekey_path ∷ codes " peer " ∷ key ∷ settings peer)
    ++ (to_null ∷ [])

abbrev pub wg_remove_parts : CString → List CString
wg_remove_parts key = codes "wg set wg0 peer " ∷ key ∷ codes " remove" ∷ to_null ∷ []

abbrev pub link_parts : CString → List CString
link_parts direction = codes "ip link set " ∷ direction ∷ codes " dev wg0" ∷ to_null ∷ []

abbrev pub link_up : CString
link_up = codes "wg link-up"

abbrev pub link_down : CString
link_down = codes "wg link-down"

module _ (sys : System) where
  -- `if (stat (PRIVATEKEY_PATH, &sb) == -1)` the keys are made.
  unfoldable pub ensure_privatekey : M Unit
  unfolding run pure ◌>>=◌
  ensure_privatekey w =
      let made = (run sys 2048 (genkey ∷ []) >> pure tt) w in
      if sys.is_there w.ran privatekey_path then some (tt, w) else made

  -- Behind ENSURE_CONFIG.
  unfoldable pub wg_set : CString → Peer → M Code
  unfolding run pure ◌>>=◌
  wg_set key peer = do run sys 2048 (wg_set_parts key peer); pure cmd_success

  unfoldable pub set_peer : CString → Peer → M Code
  unfolding ◌>>=◌
  set_peer key peer = do
    ensure_privatekey
    replace_line (snprintf 2048 (peer_left key)) (snprintf 2048 (peer_line key peer)) []
    ensure_config (wg_set key peer)

  unfoldable pub wg_peer_public_key : CString → M Code
  unfolding is_public_key
  wg_peer_public_key key =
      if not (is_public_key key) then pure cmd_err_nothing_todo else set_peer key public_key

  unfoldable pub wg_peer_allowed_ips : CString → CString → M Code
  unfolding is_public_key is_allowed_ips
  wg_peer_allowed_ips key ips =
      if not (is_public_key key)
      then pure cmd_err_nothing_todo
      else if not (is_allowed_ips ips)
      then pure cmd_err_nothing_todo
      else set_peer key (allowed_ips ips)

  unfoldable pub wg_peer_endpoint : CString → CString → CString → M Code
  unfolding is_public_key is_allowed_ips has_slash
  wg_peer_endpoint key ips end =
      if not (is_public_key key)
      then pure cmd_err_nothing_todo
      else if not (is_allowed_ips ips)
      then pure cmd_err_nothing_todo
      else if ltb 128 (length end)
      then pure cmd_err_nothing_todo
      else if has_slash end
      then pure cmd_warning
      else set_peer key (endpoint ips end)

  unfoldable pub wg_peer_persistent_keepalive : CString → CString → CString → CString → M Code
  unfolding is_public_key is_allowed_ips has_slash is_keepalive
  wg_peer_persistent_keepalive key ips end time =
      if not (is_public_key key)
      then pure cmd_err_nothing_todo
      else if not (is_allowed_ips ips)
      then pure cmd_err_nothing_todo
      else if ltb 128 (length end)
      then pure cmd_err_nothing_todo
      else if has_slash end
      then pure cmd_warning
      else if not (is_keepalive time)
      then pure cmd_err_nothing_todo
      else set_peer key (persistent_keepalive ips end time)

  unfoldable pub wg_remove : CString → M Code
  unfolding run pure ◌>>=◌
  wg_remove key = do run sys 1024 (wg_remove_parts key); pure cmd_success

  unfoldable pub no_wg_peer : CString → M Code
  unfolding ◌>>=◌
  no_wg_peer key = do
    left ← snprintf 1024 (peer_left key)
    del_line_byleft left
    ensure_config (wg_remove key)

  unfoldable pub link_set : CString → M Code
  unfolding run pure ◌>>=◌
  link_set direction = do run sys 1024 (link_parts direction); pure cmd_success

  -- Both lines go, and the new one comes.
  unfoldable pub set_link : CString → CString → M Code
  unfolding ◌>>=◌
  set_link line direction = do
    del_line_byleft link_up
    del_line_byleft link_down
    add_line line []
    ensure_config (link_set direction)

  unfoldable pub wg_link : CString → M Code
  unfolding set_link
  wg_link direction =
      if str_eq direction (codes "link-up")
      then set_link link_up (codes "up")
      else set_link link_down (codes "down")

  unfoldable pub wg_rekey : M Code
  unfolding system pure ◌>>=◌
  wg_rekey = do
    system sys genkey
    system sys (codes "wg set wg0 private-key /qrwg/config/privatekey")
    pure cmd_success

  unfoldable pub wg_clearkey : M Code
  unfolding system pure ◌>>=◌
  wg_clearkey = do
    system sys (codes "rm /qrwg/config/publickey > /dev/null 2>&1")
    system sys (codes "rm /qrwg/config/privatekey > /dev/null 2>&1")
    pure cmd_success
