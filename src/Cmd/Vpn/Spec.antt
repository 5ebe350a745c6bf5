-- ===== src/Cmd/Vpn/Spec.antt =====
-- The handlers on peers, one call after the other, and the finite map that they are about.
use qr_wireguard_ui.Base.{
  ◌≤◌, Bool, true, not, ◌&&◌, ◌≡◌, Option, none, some, List, [], ◌∷◌, ltb, length, if◌then◌else◌,
}
use qr_wireguard_ui.Text.{CString, str_eq, starts_with}
use qr_wireguard_ui.Command.{Code}
use qr_wireguard_ui.Config.{config_get_line_byleft}
use qr_wireguard_ui.Config.Lines.{count}
use qr_wireguard_ui.Cmd.{System, M, pure, ◌>>=◌, ◌>>◌}
use qr_wireguard_ui.Cmd.Parts.{AllPlain}
use qr_wireguard_ui.Cmd.Vpn.{
  Peer, public_key, allowed_ips, endpoint, persistent_keepalive, is_public_key, is_allowed_ips,
  has_slash, is_keepalive, wg_peer_public_key, wg_peer_allowed_ips, wg_peer_endpoint,
  wg_peer_persistent_keepalive, no_wg_peer,
}
use qr_wireguard_ui.Cmd.Vpn.Peers.{left_of, line_of, AllShort, values}

-- A call of one of the handlers on peers.
pub data PeerCall : Type 0 where
  wg_peer : CString → Peer → PeerCall
  no_peer : CString → PeerCall

module _ (sys : System) where
  unfoldable pub handle : PeerCall → M Code
  handle (wg_peer key public_key) = wg_peer_public_key sys key
  handle (wg_peer key (allowed_ips ips)) = wg_peer_allowed_ips sys key ips
  handle (wg_peer key (endpoint ips end)) = wg_peer_endpoint sys key ips end
  handle (wg_peer key (persistent_keepalive ips end time)) =
      wg_peer_persistent_keepalive sys key ips end time
  handle (no_peer key) = no_wg_peer sys key

  unfoldable pub handle_all : List PeerCall → M Unit
  unfolding ◌>>=◌ pure
  handle_all [] = pure tt
  handle_all (call ∷ rest) = do handle call; handle_all rest

-- The abstract state: the line of a key.
abbrev pub Peers : Type 0
Peers = CString → Option CString

abbrev valid : Peer → Bool
valid public_key = true
valid (allowed_ips ips) = is_allowed_ips ips
valid (endpoint ips end) = is_allowed_ips ips && (not (ltb 128 (length end)) && not (has_slash end))
valid (persistent_keepalive ips end time) =
    is_allowed_ips ips && (not (ltb 128 (length end)) && (not (has_slash end) && is_keepalive time))

unfoldable pub accepts : CString → Peer → Bool
accepts key peer = is_public_key key && valid peer

unfoldable pub spec_step : PeerCall → Peers → Peers
spec_step (wg_peer key peer) peers k =
    if accepts key peer && str_eq key k then some (line_of key peer) else peers k
spec_step (no_peer key) peers k = if str_eq key k then none else peers k

unfoldable pub spec_run : List PeerCall → Peers → Peers
spec_run [] peers = peers
spec_run (call ∷ rest) peers = spec_run rest (spec_step call peers)

-- The abstraction.
unfoldable pub view : List CString → Peers
view config key = config_get_line_byleft config (left_of key)

-- The arguments are no longer than 200 bytes and hold no `%`; a key to remove has 44 bytes.
abbrev pub IsTame : PeerCall → Type 0
IsTame (wg_peer key peer) = AllShort (key ∷ values peer) × AllPlain (key ∷ values peer)
IsTame (no_peer key) = length key ≡ 44

abbrev pub AllTame : List PeerCall → Type 0
AllTame [] = Unit
AllTame (call ∷ rest) = IsTame call × AllTame rest

-- At most one line for each key.
abbrev pub HasUniquePeers : List CString → Type 0
HasUniquePeers config = (k : CString) → length k ≡ 44 → count (starts_with (left_of k)) config ≤ 1

-- The configuration `d` has unique peers, and its view is `m`, on the keys of 44 bytes.
abbrev pub Shows : List CString → Peers → Type 0
Shows d m = HasUniquePeers d × ((k : CString) → length k ≡ 44 → view d k ≡ m k)
