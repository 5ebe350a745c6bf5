-- ===== src/Cmd/Vpn/Refines.antt =====
-- The handlers on peers keep what the finite map says.
use qr_wireguard_ui.Base.{
  Bool, true, false, not, ◌&&◌, ◌≡◌, refl, ap, sym, ◌∙◌, none, some, List, [], ◌∷◌, ltb, arith,
  length, inl, inr, Bool-cases, if◌then◌else◌,
}
use mathlib.Core.Path.{subst}
use qr_wireguard_ui.Text.{CString, str_eq}
use qr_wireguard_ui.Command.{Code, cmd_success, cmd_warning, cmd_err_nothing_todo}
use qr_wireguard_ui.Session.{Session}
use qr_wireguard_ui.Cmd.{World, System, M, pure, ◌>>=◌, config_of}
use qr_wireguard_ui.Cmd.Vpn.{
  Peer, public_key, allowed_ips, endpoint, persistent_keepalive, is_public_key, is_allowed_ips,
  has_slash, is_keepalive, wg_peer_public_key, wg_peer_allowed_ips, wg_peer_endpoint,
  wg_peer_persistent_keepalive, set_peer,
}
use qr_wireguard_ui.Cmd.Vpn.Peers.{line_of, set_peer_lem, no_wg_peer_lem}
use qr_wireguard_ui.Cmd.Vpn.Spec.{
  PeerCall, wg_peer, no_peer, handle, handle_all, Peers, accepts, spec_step, spec_run, view, IsTame,
  AllTame, HasUniquePeers, Shows,
}
use qr_wireguard_ui.Cmd.Vpn.Shows.{set_Shows, removed_Shows}

-- A call of a handler does what the specification says.
abbrev Simulates : M Code → World → Peers → Type 0
Simulates m w peers =
    (code : Code) × (w' : World) × (m w ≡ some (code, w')) × Shows (config_of w') peers

-- An action that does what `set` does if `good` holds, and is refused with a code if it does not.
abbrev Guarded : M Code → Bool → M Code → Type 0
Guarded set good m = (good ≡ true → m ≡ set) × (good ≡ false → (code : Code) × (m ≡ pure code))

module _ (set : M Code) (b : Bool) (code : Code) where
  Guarded-last : Guarded set b (if not b then pure code else set)
  Guarded-last = (λ h. rw h refl, λ h. (code, rw h refl))

  Guarded-last_if : Guarded set (not b) (if b then pure code else set)
  Guarded-last_if = elim (Bool-cases b) [
    | inl holds ↦ rw holds ((λ h. absurd (ground arith)), λ h. (code, refl))
    | inr fails ↦ rw fails ((λ h. refl), λ h. absurd (ground arith))
  ]

  module _ (good : Bool) (m : M Code) (g : Guarded set good m) where
    Guarded-unless : Guarded set (b && good) (if not b then pure code else m)
    Guarded-unless = elim (Bool-cases b) [
      | inl holds ↦ rw holds g
      | inr fails ↦ rw fails ((λ h. absurd (ground arith)), λ h. (code, refl))
    ]

    Guarded-if : Guarded set (not b && good) (if b then pure code else m)
    Guarded-if = elim (Bool-cases b) [
      | inl holds ↦ rw holds ((λ h. absurd (ground arith)), λ h. (code, refl))
      | inr fails ↦ rw fails g
    ]

module _ (sys : System) where
  handle-Guarded :
      (key : CString) (peer : Peer)
      → Guarded (set_peer sys key peer) (accepts key peer) (handle sys (wg_peer key peer))
  unfolding handle accepts wg_peer_public_key wg_peer_allowed_ips wg_peer_endpoint
      wg_peer_persistent_keepalive
  handle-Guarded key public_key =
      Guarded-unless (set_peer sys key public_key) (is_public_key key) cmd_err_nothing_todo true
        (set_peer sys key public_key) ((λ h. refl), λ h. absurd (ground arith))
  handle-Guarded key (allowed_ips ips) =
      let set = set_peer sys key (allowed_ips ips) in
      Guarded-unless set (is_public_key key) cmd_err_nothing_todo (is_allowed_ips ips) _
        (Guarded-last set (is_allowed_ips ips) cmd_err_nothing_todo)
  handle-Guarded key (endpoint ips end) =
      let set = set_peer sys key (endpoint ips end) in
      Guarded-unless set (is_public_key key) cmd_err_nothing_todo _ _ (
        Guarded-unless set (is_allowed_ips ips) cmd_err_nothing_todo _ _ (
          Guarded-if set (ltb 128 (length end)) cmd_err_nothing_todo _ _
            (Guarded-last_if set (has_slash end) cmd_warning)))
  handle-Guarded key (persistent_keepalive ips end time) =
      let set = set_peer sys key (persistent_keepalive ips end time) in
      Guarded-unless set (is_public_key key) cmd_err_nothing_todo _ _ (
        Guarded-unless set (is_allowed_ips ips) cmd_err_nothing_todo _ _ (
          Guarded-if set (ltb 128 (length end)) cmd_err_nothing_todo _ _ (
            Guarded-if set (has_slash end) cmd_warning _ _
              (Guarded-last set (is_keepalive time) cmd_err_nothing_todo))))

accepts-key : (key : CString) (peer : Peer) → accepts key peer ≡ true → is_public_key key ≡ true
unfolding accepts
accepts-key key peer h = ground arith

module _ (sys : System) (w : World) (unique : HasUniquePeers (config_of w)) where
  same_Shows : Shows (config_of w) (view (config_of w))
  same_Shows = (unique, λ k h. refl)

  set_Simulates :
      (key : CString) (peer : Peer)
      → is_public_key key ≡ true
      → IsTame (wg_peer key peer)
      → Simulates
          (set_peer sys key peer)
          w
          (λ k. if str_eq key k then some (line_of key peer) else view (config_of w) k)
  unfolding is_public_key
  set_Simulates key peer good (short, plain) =
      let (w', ran, same) = set_peer_lem sys key peer w short plain in
      let config = ap (λ (s : Session). s.config_top) same in
      (
        cmd_success,
        w',
        ran,
        subst
            (λ d.
              Shows d (λ k. if str_eq key k then some (line_of key peer) else view (config_of w) k))
            (sym config) (set_Shows (config_of w) unique key (ground (arith, good)) peer),
      )

  handle-Simulates :
      (call : PeerCall)
      → IsTame call
      → Simulates (handle sys call) w (spec_step call (view (config_of w)))
  unfolding handle spec_step pure
  handle-Simulates (wg_peer key peer) tame =
      let guarded = handle-Guarded sys key peer in
      elim (Bool-cases (accepts key peer)) [
        | inl good ↦
            rw (guarded.0 good, spec_step, good)
              (set_Simulates key peer (accepts-key key peer good) tame)
        | inr bad ↦
            let (code, refused) = guarded.1 bad in
            rw (refused, spec_step, bad) (code, w, refl, same_Shows)
      ]
  handle-Simulates (no_peer key) long =
      let (w', ran, config) = no_wg_peer_lem sys key w (omega (arith, long)) in
      (
        cmd_success,
        w',
        ran,
        subst (λ d. Shows d (λ k. if str_eq key k then none else view (config_of w) k)) (sym config)
            (removed_Shows (config_of w) unique key long),
      )

abbrev SamePeers : Peers → Peers → Type 0
SamePeers m m' = (k : CString) → length k ≡ 44 → m k ≡ m' k

spec_step_congr :
    (call : PeerCall) (m m' : Peers)
    → SamePeers m m'
    → SamePeers (spec_step call m) (spec_step call m')
unfolding spec_step
spec_step_congr (wg_peer key peer) m m' same k h = rw (same k h) refl
spec_step_congr (no_peer key) m m' same k h = rw (same k h) refl

spec_run_congr :
    (calls : List PeerCall) (m m' : Peers)
    → SamePeers m m'
    → SamePeers (spec_run calls m) (spec_run calls m')
unfolding spec_run
spec_run_congr [] m m' same = same
spec_run_congr (call ∷ rest) m m' same =
    spec_run_congr rest (spec_step call m) (spec_step call m') (spec_step_congr call m m' same)

-- Whatever handlers on peers are called, one after the other, accepted or refused, where no argument
-- of a setting is longer than 200 bytes or has a percent sign and a key to remove has 44 bytes, on a
-- configuration with at most one line for each key of 44 bytes: all calls return, there is still at
-- most one line for each such key, and the line of each is the one that the finite map says.
pub handle_all-Shows :
    (sys : System) (calls : List PeerCall) (w : World)
    → HasUniquePeers (config_of w)
    → AllTame calls
    → (w' : World) × (handle_all sys calls w ≡ some (tt, w'))
      × Shows (config_of w') (spec_run calls (view (config_of w)))
unfolding handle_all spec_run
handle_all-Shows sys [] w unique tame = (w, refl, same_Shows sys w unique)
handle_all-Shows sys (call ∷ calls) w unique (tame, others) =
    let (code, w1, ran, (unique', shown)) = handle-Simulates sys w unique call tame in
    let (w2, ran', (unique'', shown')) = handle_all-Shows sys calls w1 unique' others in
    (
      w2,
      rw (ran, ◌>>=◌) ran',
      (
        unique'',
        λ k h.
            shown' k h
            ∙ spec_run_congr calls (view (config_of w1)) (spec_step call (view (config_of w))) shown
                k h,
      ),
    )
