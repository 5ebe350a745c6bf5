-- ===== src/Cmd/Ip.antt =====
-- cmd/cmd_ip.c: the handlers that change the configuration, on their arguments `argv[0]`, `argv[1]`
-- and so on. The show commands only run a program.
pub mod Sets
pub mod Names
use qr_wireguard_ui.Base.{
  ◌+◌, Bool, true, not, ◌&&◌, ◌||◌, Option, none, some, List, [], ◌∷◌, ◌++◌, ◌==◌, if◌then◌else◌,
}
use qr_wireguard_ui.Text.{CString, codes, first, str_eq, starts_with}
use qr_wireguard_ui.Command.{Code, cmd_success, cmd_warning, cmd_err_nothing_todo}
use qr_wireguard_ui.Cmd.{
  System, M, pure, ◌>>=◌, ◌>>◌, sprintf, system, run, call, cmd_execute_system_command, write_file,
  del_line, del_line_byleft, add_line, replace_line, ensure_config,
}

abbrev lan : CString
lan = codes "lan"

abbrev wan : CString
wan = codes "wan"

unfoldable pub is_wg : CString → Bool
is_wg name = starts_with (codes "wg0") name || starts_with (codes "wg1") name

-- The test at the start of the handlers.
unfoldable pub is_interface : CString → Bool
unfolding is_wg
is_interface name = str_eq name lan || str_eq name wan || is_wg name

abbrev resolv : CString
resolv = codes "/etc/resolv.conf"

abbrev pub ip_left : CString → List CString
ip_left name = codes "ip address " ∷ name ∷ []

abbrev pub ip_line : CString → CString → CString → List CString
ip_line name addr mask = codes "ip address " ∷ name ∷ codes " " ∷ addr ∷ codes " " ∷ mask ∷ []

module _ (sys : System) where
  unfoldable pub uci_set : CString → CString → M Unit
  unfolding ◌>>=◌
  uci_set option value = do
    run sys 1024 (option ∷ codes "='" ∷ value ∷ codes "' > /dev/null 2>&1" ∷ [])
    pure tt

  -- `ifconfig NAME ADDRESS netmask MASK`
  unfoldable pub ifconfig : CString → CString → CString → M Code
  unfolding ◌>>=◌
  ifconfig name addr mask = do
    cmd_execute_system_command (codes "ifconfig") (name ∷ addr ∷ codes "netmask" ∷ mask ∷ [])
    pure cmd_success

  unfoldable pub ip_address_lan : CString → CString → M Code
  unfolding call uci_set ifconfig ◌>>=◌
  ip_address_lan addr mask = do
    call sys (codes "uci set network.lan.proto='static' > /dev/null 2>&1")
    uci_set (codes "uci set network.lan.ipaddr") addr
    uci_set (codes "uci set network.lan.netmask") mask
    call sys (codes "uci commit network > /dev/null 2>&1")
    ifconfig lan addr mask

  unfoldable pub ip_address_wan : CString → CString → M Code
  unfolding call uci_set ifconfig ◌>>=◌
  ip_address_wan addr mask = do
    call sys (codes "uci set network.wan.proto='static' > /dev/null 2>&1")
    uci_set (codes "uci set network.wan.ipaddr") addr
    uci_set (codes "uci set network.wan.netmask") mask
    call sys (codes "uci commit network > /dev/null 2>&1")
    call sys (codes "/etc/init.d/network restart > /dev/null 2>&1")
    ifconfig wan addr mask

  -- Behind ENSURE_CONFIG.
  unfoldable pub ip_address_up : CString → CString → CString → M Code
  unfolding ip_address_lan ip_address_wan ifconfig is_wg
  ip_address_up name addr mask =
      if str_eq name lan
      then ip_address_lan addr mask
      else if str_eq name wan
      then ip_address_wan addr mask
      else if is_wg name
      then ifconfig name addr mask
      else pure cmd_warning

  unfoldable pub ip_address : CString → CString → CString → M Code
  unfolding is_interface ip_address_up replace_line sprintf ensure_config ◌>>=◌
  ip_address name addr mask =
      if is_interface name
      then (do
        replace_line (sprintf 1024 (ip_left name)) (sprintf 1024 (ip_line name addr mask)) []
        ensure_config (ip_address_up name addr mask))
      else pure cmd_warning

  unfoldable pub ip_address_dhcp_up : M Code
  unfolding call ◌>>=◌
  ip_address_dhcp_up = do
    call sys (codes "uci delete network.wan.ipaddr > /dev/null 2>&1")
    call sys (codes "uci delete network.wan.netmask > /dev/null 2>&1")
    call sys (codes "uci set network.wan.proto=dhcp > /dev/null 2>&1")
    call sys (codes "uci commit network > /dev/null 2>&1")
    call sys (codes "/etc/init.d/network restart > /dev/null 2>&1")
    pure cmd_success

  unfoldable pub ip_address_dhcp : CString → M Code
  unfolding ip_address_dhcp_up replace_line sprintf ensure_config ◌>>=◌
  ip_address_dhcp name =
      if str_eq name wan
      then (do
        replace_line (sprintf 1024 (ip_left name))
            (sprintf 1024 (codes "ip address " ∷ name ∷ codes " dhcp" ∷ [])) []
        ensure_config ip_address_dhcp_up)
      else pure cmd_warning

  unfoldable pub no_ip_address_lan : M Unit
  unfolding call ◌>>=◌
  no_ip_address_lan = do
    call sys (codes "uci delete network.lan.proto > /dev/null 2>&1")
    call sys (codes "uci delete network.lan.ipaddr > /dev/null 2>&1")
    call sys (codes "uci delete network.lan.netmask > /dev/null 2>&1")
    call sys (codes "uci commit network > /dev/null 2>&1")

  unfoldable pub no_ip_address_wan : M Unit
  unfolding call ◌>>=◌
  no_ip_address_wan = do
    call sys (codes "uci delete network.wan.proto > /dev/null 2>&1")
    call sys (codes "uci delete network.wan.ipaddr > /dev/null 2>&1")
    call sys (codes "uci delete network.wan.netmask > /dev/null 2>&1")
    call sys (codes "uci commit network > /dev/null 2>&1")
    call sys (codes "/etc/init.d/network restart > /dev/null 2>&1")

  unfoldable pub no_ip_address_down : CString → M Code
  unfolding no_ip_address_lan no_ip_address_wan ◌>>=◌
  no_ip_address_down name = do
    (if str_eq name lan
        then no_ip_address_lan
        else if str_eq name wan
        then no_ip_address_wan
        else pure tt)
    cmd_execute_system_command (codes "ifconfig") (name ∷ codes "down" ∷ [])
    pure cmd_success

  -- The answer that `fgets` reads from the terminal; `none` is the end of the input.
  abbrev is_confirmed : Option CString → Bool
  is_confirmed none = true
  is_confirmed (some line) = first line == b'y'

  -- There is no ENSURE_CONFIG here.
  unfoldable pub no_ip_address : Option CString → CString → M Code
  unfolding is_interface no_ip_address_down sprintf del_line_byleft ◌>>=◌
  no_ip_address answer name =
      if not (is_interface name)
      then pure cmd_warning
      else if not (is_confirmed answer)
      then pure cmd_success
      else (do line ← sprintf 1024 (ip_left name); del_line_byleft line; no_ip_address_down name)

  unfoldable pub ip_route_up : CString → CString → CString → CString → M Code
  unfolding call uci_set ◌>>=◌
  ip_route_up target mask gateway name = do
    call sys (codes "uci add network route > /dev/null 2>&1")
    uci_set (codes "uci set network.@route[-1].interface") name
    uci_set (codes "uci set network.@route[-1].target") target
    uci_set (codes "uci set network.@route[-1].netmask") mask
    uci_set (codes "uci set network.@route[-1].gateway") gateway
    call sys (codes "uci commit network > /dev/null 2>&1")
    call sys (codes "/etc/init.d/network restart > /dev/null 2>&1")
    pure cmd_success

  abbrev pub route_line : CString → CString → CString → CString → List CString
  route_line target mask gateway name =
      codes "ip route " ∷ target ∷ codes " " ∷ mask ∷ codes " " ∷ gateway ∷ codes " " ∷ name ∷ []

  unfoldable pub ip_route : CString → CString → CString → CString → M Code
  unfolding is_interface ip_route_up sprintf del_line add_line ensure_config ◌>>=◌
  ip_route target mask gateway name =
      if is_interface name
      then (do
        line ← sprintf 1024 (route_line target mask gateway name)
        del_line line
        add_line line []
        ensure_config (ip_route_up target mask gateway name))
      else pure cmd_warning

  -- There is no ENSURE_CONFIG here.
  unfoldable pub no_ip_route : CString → CString → M Code
  unfolding call sprintf del_line_byleft ◌>>=◌
  no_ip_route target mask = do
    line ← sprintf 1024 (codes "ip route " ∷ target ∷ codes " " ∷ mask ∷ [])
    del_line_byleft line
    call sys (codes "uci delete network.@route[-1] > /dev/null 2>&1")
    call sys (codes "uci commit network > /dev/null 2>&1")
    call sys (codes "/etc/init.d/network restart > /dev/null 2>&1")
    pure cmd_success

  -- `fopen ("/etc/resolv.conf", "w")`, the lines, and `fclose`.
  unfoldable pub write_resolv : CString → M Code
  unfolding write_file ◌>>=◌
  write_resolv text w =
      let written = (write_file resolv text >> pure cmd_success) w in
      if sys.opens w.ran resolv then written else some (cmd_err_nothing_todo, w)

  abbrev newline : CString
  newline = 10 ∷ []

  abbrev pub nameserver : CString
  nameserver = codes "nameserver"

  unfoldable pub config_dns : CString → CString → M Code
  unfolding write_resolv replace_line ensure_config ◌>>=◌
  config_dns addr1 addr2 = do
    replace_line (pure nameserver) (pure (codes "nameserver %s %s")) (addr1 ∷ addr2 ∷ [])
    ensure_config (
        write_resolv (
          codes "nameserver "
          ++ (addr1 ++ (newline ++ (codes "nameserver " ++ (addr2 ++ newline))))))

  unfoldable pub config_no_dns : M Code
  unfolding write_resolv del_line_byleft ensure_config ◌>>=◌
  config_no_dns = do
    del_line_byleft nameserver
    ensure_config (write_resolv (codes "nameserver 127.0.0.1" ++ newline))
