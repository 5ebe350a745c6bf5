-- ===== src/Cmd/Vpn/Shows.antt =====
-- What replacing or deleting the line of one key does to the map.
use qr_wireguard_ui.Base.{
  ◌≤◌, true, false, ◌≡◌, sym, ◌∙◌, none, some, List, arith, length, inl, inr, Bool-cases,
  if◌then◌else◌,
}
use mathlib.Core.Path.{subst}
use qr_wireguard_ui.Text.{CString, str_eq, str_lt, starts_with}
use qr_wireguard_ui.Text.Laws.{str_eq_iff}
use qr_wireguard_ui.Config.{add_before, config_del_line_byleft}
use qr_wireguard_ui.Config.Lines.{count, count-add_before}
use qr_wireguard_ui.Config.Prefixes.{
  get_byleft-delete_other, count-delete_other, get_byleft-add_other, count-delete_self,
  get_byleft-delete_self, get_byleft-replace_self, count-replace_self,
}
use qr_wireguard_ui.Cmd.Vpn.{Peer}
use qr_wireguard_ui.Cmd.Vpn.Peers.{left_of, line_of, line_starts, keys_apart}
use qr_wireguard_ui.Cmd.Vpn.Spec.{view, HasUniquePeers, Shows}

module _ (c : List CString) (unique : HasUniquePeers c) (key : CString)
    (long : length key ≡ 44) where
  abbrev pub rest : List CString
  rest = config_del_line_byleft c (left_of key)

  module _ (k : CString) (h : length k ≡ 44) (other : str_eq key k ≡ false) where
    apart : (x : CString) → starts_with (left_of key) x ≡ true → starts_with (left_of k) x ≡ false
    apart x starts = keys_apart key k x (long ∙ sym h) other starts

    count_other : count (starts_with (left_of k)) rest ≤ 1
    count_other = rw (count-delete_other (left_of key) (left_of k) apart c) (unique k h)

    view_other : view rest k ≡ view c k
    unfolding view
    view_other = get_byleft-delete_other (left_of key) (left_of k) apart c

    module _ (peer : Peer) where
      not_its : starts_with (left_of k) (line_of key peer) ≡ false
      not_its = apart (line_of key peer) (line_starts key peer)

      count_set_other :
          count (starts_with (left_of k)) (add_before str_lt (line_of key peer) rest) ≤ 1
      count_set_other =
          rw (count-add_before (starts_with (left_of k)) str_lt (line_of key peer) rest, not_its)
            (omega (arith, count_other))

      view_set_other : view (add_before str_lt (line_of key peer) rest) k ≡ view c k
      unfolding view
      view_set_other = get_byleft-add_other (left_of k) (line_of key peer) rest not_its ∙ view_other

  once : count (starts_with (left_of key)) c ≤ 1
  once = unique key long

  pub set_Shows :
      (peer : Peer)
      → Shows
          (add_before str_lt (line_of key peer) rest)
          (λ k. if str_eq key k then some (line_of key peer) else view c k)
  unfolding view
  set_Shows peer = (
    λ k h. elim (Bool-cases (str_eq key k)) [
      | inl here ↦
          subst
            (λ k. count (starts_with (left_of k)) (add_before str_lt (line_of key peer) rest) ≤ 1)
            ((str_eq_iff key k).0 here)
            (omega (
              arith,
              count-replace_self (left_of key) c once (line_of key peer) (line_starts key peer),
            ))
      | inr other ↦ count_set_other k h other peer
    ],
    λ k h. elim (Bool-cases (str_eq key k)) [
      | inl here ↦ rw here (
          subst (λ k. view (add_before str_lt (line_of key peer) rest) k ≡ some (line_of key peer))
            ((str_eq_iff key k).0 here)
            (get_byleft-replace_self (left_of key) c once (line_of key peer)
              (line_starts key peer)))
      | inr other ↦ rw other (view_set_other k h other peer)
    ],
  )

  pub removed_Shows : Shows rest (λ k. if str_eq key k then none else view c k)
  unfolding view
  removed_Shows = (
    λ k h. elim (Bool-cases (str_eq key k)) [
      | inl here ↦
          subst (λ k. count (starts_with (left_of k)) rest ≤ 1) ((str_eq_iff key k).0 here)
            (omega (arith, count-delete_self (left_of key) c once))
      | inr other ↦ count_other k h other
    ],
    λ k h. elim (Bool-cases (str_eq key k)) [
      | inl here ↦ rw here (
          subst (λ k. view rest k ≡ none) ((str_eq_iff key k).0 here)
            (get_byleft-delete_self (left_of key) c once))
      | inr other ↦ rw other (view_other k h other)
    ],
  )
