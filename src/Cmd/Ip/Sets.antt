-- ===== src/Cmd/Ip/Sets.antt =====
-- Setting an address, DHCP or the name servers: one line of the configuration is replaced.
use qr_wireguard_ui.Base.{
  ◌≤◌, true, ◌≡◌, refl, ap, some, List, [], ◌∷◌, ◌++◌, append-nil, arith, length, ltb, ltb→lt,
  Bool-cases, inl, inr,
}
use qr_wireguard_ui.Text.{CString, codes, starts_with, str_eq}
use qr_wireguard_ui.Command.{cmd_success}
use qr_wireguard_ui.Config.Printf.{vasprintf, no_percent}
use qr_wireguard_ui.Config.Lines.{count}
use qr_wireguard_ui.Cmd.{Request, write_file, World, System, pure, ◌>>◌, config_of, concat}
use qr_wireguard_ui.Cmd.Quiet.{Quiet, Quiet-bind, Quiet-pure, Quiet-run, Succeeds, quiet_rules}
use qr_wireguard_ui.Cmd.Parts.{AllPlain, cons-ne-nil}
use qr_wireguard_ui.Cmd.Replace.{Replaces, replace_printed, replace_line-Replaces}
use qr_wireguard_ui.Cmd.Ip.{
  is_wg, is_interface, ip_left, ip_line, uci_set, ifconfig, ip_address_lan, ip_address_wan,
  ip_address_up, ip_address, ip_address_dhcp_up, ip_address_dhcp, write_resolv, config_dns,
}

uci_set-Quiet :
    (sys : System) (option value : CString)
    → length value ≤ 200
    → ltb (length option) 100 ≡ true
    → Quiet (uci_set sys option value)
unfolding uci_set
uci_set-Quiet sys option value h k =
    Quiet-bind _ _ (Quiet-run sys 1024 _ (omega (arith, h, ltb→lt _ _ k))) (λ _. Quiet-pure tt)

ifconfig-Succeeds :
    (sys : System) (name addr mask : CString) → Succeeds (ifconfig sys name addr mask)
unfolding ifconfig
ifconfig-Succeeds sys name addr mask = search quiet_rules

module _ (sys : System) (name addr mask : CString) (short_name : length name ≤ 200)
    (short_addr : length addr ≤ 200) (short_mask : length mask ≤ 200) where
  ip_address_lan-Succeeds : Succeeds (ip_address_lan sys addr mask)
  unfolding ip_address_lan
  ip_address_lan-Succeeds = search (quiet_rules, uci_set-Quiet, ifconfig-Succeeds) depth 9

  ip_address_wan-Succeeds : Succeeds (ip_address_wan sys addr mask)
  unfolding ip_address_wan
  ip_address_wan-Succeeds = search (quiet_rules, uci_set-Quiet, ifconfig-Succeeds) depth 9

  ip_address_up-Succeeds : is_interface name ≡ true → Succeeds (ip_address_up sys name addr mask)
  unfolding ip_address_up is_interface
  ip_address_up-Succeeds known = elim (Bool-cases (str_eq name (codes "lan"))) [
    | inl at_lan ↦ rw at_lan ip_address_lan-Succeeds
    | inr not_lan ↦ elim (Bool-cases (str_eq name (codes "wan"))) [
      | inl at_wan ↦ rw not_lan (rw at_wan ip_address_wan-Succeeds)
      | inr not_wan ↦
          let at_wg : is_wg name ≡ true = ground arith in
          rw not_lan (rw not_wan (rw at_wg (ifconfig-Succeeds sys name addr mask)))
    ]
  ]

  -- If the interface is known, no argument is longer than 200 bytes or has a percent sign, and at
  -- most one line begins with `ip address` and the name, then setting the address succeeds: one
  -- line begins so and it is the new one, every other line occurs as often as before, the vty and
  -- the host are as before, and nothing runs while a file is loaded.
  pub ip_address-Replaces :
      (w : World)
      → is_interface name ≡ true
      → AllPlain (name ∷ addr ∷ mask ∷ [])
      → count (starts_with (concat (ip_left name))) (config_of w) ≤ 1
      → Replaces
          (concat (ip_left name))
          (concat (ip_line name addr mask))
          (ip_address sys name addr mask)
          w
  unfolding ip_address no_percent
  ip_address-Replaces w known plain once = rw known (
      replace_printed (ip_left name) (codes " " ∷ addr ∷ codes " " ∷ mask ∷ []) w 1024 (omega arith)
        (ground (arith, plain)) (cons-ne-nil _ _) once (ip_address_up sys name addr mask)
        (ip_address_up-Succeeds known))

wan-IsInterface : is_interface (codes "wan") ≡ true
unfolding is_interface str_eq
wan-IsInterface = refl

ip_address_dhcp_up-Succeeds : (sys : System) → Succeeds (ip_address_dhcp_up sys)
unfolding ip_address_dhcp_up
ip_address_dhcp_up-Succeeds sys = search (quiet_rules) depth 9

-- If at most one line begins with `ip address wan`, then setting DHCP on wan succeeds: one line
-- begins so and it is `ip address wan dhcp`, every other line occurs as often as before, the vty and
-- the host are as before, and nothing runs while a file is loaded.
pub ip_address_dhcp-Replaces :
    (sys : System) (w : World)
    → count (starts_with (codes "ip address wan")) (config_of w) ≤ 1
    → Replaces
        (codes "ip address wan")
        (codes "ip address wan dhcp")
        (ip_address_dhcp sys (codes "wan"))
        w
unfolding ip_address_dhcp no_percent str_eq
ip_address_dhcp-Replaces sys w once =
    replace_printed (ip_left (codes "wan")) (codes " dhcp" ∷ []) w 1024 (omega arith) (ground arith)
      (cons-ne-nil _ _) once (ip_address_dhcp_up sys) (ip_address_dhcp_up-Succeeds sys)

write_resolv-Succeeds :
    (sys : System) (text : CString)
    → ((ran : List Request) → sys.opens ran (codes "/etc/resolv.conf") ≡ true)
    → Succeeds (write_resolv sys text)
unfolding write_resolv
write_resolv-Succeeds sys text opens =
    let written : Succeeds (write_file (codes "/etc/resolv.conf") text >> pure cmd_success) =
      search quiet_rules in
    record { at = λ w. rw (opens w.ran) (written.at w) }

abbrev pub nameserver_line : CString → CString → CString
nameserver_line addr1 addr2 = codes "nameserver " ++ (addr1 ++ (b' ' ∷ addr2))

nameserver_printed :
    (addr1 addr2 : CString)
    → vasprintf (codes "nameserver %s %s") (addr1 ∷ addr2 ∷ []) ≡ some (nameserver_line addr1 addr2)
unfolding vasprintf
nameserver_printed addr1 addr2 =
    ap (λ rest. some (codes "nameserver " ++ (addr1 ++ (b' ' ∷ rest)))) (append-nil addr2)

nameserver_starts :
    (addr1 addr2 : CString) → starts_with (codes "nameserver") (nameserver_line addr1 addr2) ≡ true
unfolding starts_with
nameserver_starts addr1 addr2 = refl

-- If the file of the resolver opens and at most one line begins with `nameserver`, then setting the
-- name servers succeeds: one line begins so and it is the new one, every other line occurs as often
-- as before, the vty and the host are as before, and nothing is written while a file is loaded.
pub config_dns-Replaces :
    (sys : System) (addr1 addr2 : CString) (w : World)
    → ((ran : List Request) → sys.opens ran (codes "/etc/resolv.conf") ≡ true)
    → count (starts_with (codes "nameserver")) (config_of w) ≤ 1
    → Replaces (codes "nameserver") (nameserver_line addr1 addr2) (config_dns sys addr1 addr2) w
unfolding config_dns
config_dns-Replaces sys addr1 addr2 w opens once =
    replace_line-Replaces (codes "nameserver") (nameserver_line addr1 addr2)
      (codes "nameserver %s %s") (addr1 ∷ addr2 ∷ []) w (cons-ne-nil _ _)
      (nameserver_printed addr1 addr2) (nameserver_starts addr1 addr2) once (write_resolv sys _)
      (write_resolv-Succeeds sys _ opens)
