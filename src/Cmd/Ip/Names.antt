-- ===== src/Cmd/Ip/Names.antt =====
-- Which names of interfaces the handlers take.
use qr_wireguard_ui.Base.{
  ◌≤◌, true, false, ◌≡◌, ◌⊎◌, inl, inr, refl, ap, ◌∙◌, Option, some, [], ◌∷◌, ◌++◌, arith, length,
  Bool-cases,
}
use qr_wireguard_ui.Text.{CString, codes, starts_with, str_eq}
use qr_wireguard_ui.Text.Laws.{str_eq_iff, starts_with_split, starts_with-append}
use qr_wireguard_ui.Command.{Code, cmd_warning}
use qr_wireguard_ui.Config.Lines.{count}
use qr_wireguard_ui.Cmd.{World, System, M, pure, config_of, concat}
use qr_wireguard_ui.Cmd.Parts.{AllPlain}
use qr_wireguard_ui.Cmd.Replace.{Replaces}
use qr_wireguard_ui.Cmd.Ip.{
  is_interface, ip_address, ip_address_dhcp, no_ip_address, ip_route, ip_left, ip_line,
}
use qr_wireguard_ui.Cmd.Ip.Sets.{ip_address-Replaces}

-- The interfaces: lan, wan, and all that begin with wg0 or wg1.
abbrev pub IsInterface : CString → Type 0
IsInterface name =
    (name ≡ codes "lan")
    ⊎ (name ≡ codes "wan")
    ⊎ ((number : CString) × (name ≡ codes "wg0" ++ number))
    ⊎ ((number : CString) × (name ≡ codes "wg1" ++ number))

IsInterface-known : (name : CString) → IsInterface name → is_interface name ≡ true
unfolding is_interface
IsInterface-known name (inl at) = ground (arith, (str_eq_iff name (codes "lan")).1 at)
IsInterface-known name (inr (inl at)) = ground (arith, (str_eq_iff name (codes "wan")).1 at)
IsInterface-known name (inr (inr (inl (number, split)))) =
    ground (arith, ap (starts_with (codes "wg0")) split ∙ starts_with-append (codes "wg0") number)
IsInterface-known name (inr (inr (inr (number, split)))) =
    ground (arith, ap (starts_with (codes "wg1")) split ∙ starts_with-append (codes "wg1") number)

known-IsInterface : (name : CString) → is_interface name ≡ true → IsInterface name
unfolding is_interface
known-IsInterface name h = elim (Bool-cases (str_eq name (codes "lan"))) [
  | inl lan ↦ inl ((str_eq_iff name _).0 lan)
  | inr no_lan ↦ elim (Bool-cases (str_eq name (codes "wan"))) [
    | inl wan ↦ inr (inl ((str_eq_iff name _).0 wan))
    | inr no_wan ↦ elim (Bool-cases (starts_with (codes "wg0") name)) [
      | inl wg0 ↦ inr (inr (inl (starts_with_split (codes "wg0") name wg0)))
      | inr no_wg0 ↦ inr (
          inr (
            inr (starts_with_split (codes "wg1") name (ground (arith, h, no_lan, no_wan, no_wg0)))))
    ]
  ]
]

-- What an action does when it warns and leaves all as it was.
abbrev pub Warns : M Code → World → Type 0
Warns m w = m w ≡ some (cmd_warning, w)

-- Setting an address, with a name, an address and a mask of at most 200 bytes and with no percent
-- sign, and at most one line that begins with `ip address` and the name: either the name is lan,
-- wan, or begins with wg0 or wg1, and the line of the interface is replaced; or it is none of these,
-- and every handler that takes a name warns, with the session as before and no program run.
pub ip_address-IsInterface :
    (sys : System) (name addr mask target gateway : CString) (answer : Option CString) (w : World)
    → length name ≤ 200
    → length addr ≤ 200
    → length mask ≤ 200
    → AllPlain (name ∷ addr ∷ mask ∷ [])
    → count (starts_with (concat (ip_left name))) (config_of w) ≤ 1
    → IsInterface name
        × Replaces
            (concat (ip_left name))
            (concat (ip_line name addr mask))
            (ip_address sys name addr mask)
            w
      ⊎ (¬ IsInterface name)
        × Warns (ip_address sys name addr mask) w
        × Warns (ip_address_dhcp sys name) w
        × Warns (no_ip_address sys answer name) w
        × Warns (ip_route sys target mask gateway name) w
unfolding ip_address ip_address_dhcp no_ip_address ip_route pure is_interface
ip_address-IsInterface sys name addr mask target gateway answer w a b c plain once =
    elim (Bool-cases (is_interface name)) [
      | inl known ↦ inl (
        known-IsInterface name known,
        ip_address-Replaces sys name addr mask a b c w known plain once,
      )
      | inr unknown ↦
          let other : str_eq name (codes "wan") ≡ false = ground (arith, unknown) in
          inr (
            λ i. absurd (ground (arith, unknown, IsInterface-known name i)),
            rw unknown refl,
            rw other refl,
            rw unknown refl,
            rw unknown refl,
          )
    ]
