-- ===== src/Cmd/Vpn/Listen.antt =====
-- cmd/cmd_vpn.c: `wg listenport`, and the firewall rule that goes with the port.
use qr_wireguard_ui.Base.{ℕ, ◌^◌, ◌-◌, ◌&&◌, Option, none, some, List, [], ◌∷◌, ltb, if◌then◌else◌}
use qr_wireguard_ui.Text.{CString, codes, atoi_word, print_int, skip_spaces}
use qr_wireguard_ui.Command.{Code, cmd_success}
use qr_wireguard_ui.Session.File.{fgets}
use qr_wireguard_ui.Cmd.{
  System, M, pure, ◌>>=◌, ◌>>◌, snprintf, run, call, call_printed, unlink, replace_line,
  ensure_config,
}
use qr_wireguard_ui.Cmd.Vpn.{to_null}

-- `fopen ("/tmp/.fwrule", "r")`, and `atoi` of what `fgets` reads: the number of the old rule, or
-- -1, by its bits.
unfoldable pub fwrule : Option CString → ℕ
unfolding atoi_word skip_spaces fgets
fwrule none = 2 ^ 32 - 1
fwrule (some []) = 2 ^ 32 - 1
fwrule (some (c ∷ file)) = atoi_word (skip_spaces (fgets 255 (c ∷ file)).0)

abbrev pub rule_file : CString
rule_file = codes "/tmp/.fwrule"

abbrev pub listen_parts : CString → List CString
listen_parts num = codes "wg set wg0 listen-port " ∷ num ∷ to_null ∷ []

abbrev pub dest_port_parts : CString → List CString
dest_port_parts num =
    codes "uci set firewall.@rule[-1].dest_port=\"" ∷ num ∷ codes "\"" ∷ to_null ∷ []

module _ (sys : System) where
  -- `if (fwrule > 0)`
  unfoldable pub delete_rule : ℕ → M Unit
  unfolding run pure ◌>>=◌
  delete_rule rule =
      if ltb 0 rule && ltb rule (2 ^ 31)
      then (do run sys 1024 (codes "uci delete " ∷ print_int rule ∷ to_null ∷ []); pure tt)
      else pure tt

  -- The number is read, and the file is gone before the number is used.
  unfoldable pub delete_fwrule : M Unit
  unfolding unlink delete_rule ◌>>=◌
  delete_fwrule w = (unlink rule_file >> delete_rule (fwrule (sys.contents w.ran rule_file))) w

  unfoldable pub wg_listenport_up : CString → M Code
  wg_listenport_up num = do
    call_printed sys 1024 (listen_parts num)
    call sys (
        codes
          "uci show firewall  | grep \"Allow-WG-Inbound\" | awk -F'=' '{ print $1 }' | sed s\"/.name//g\" > /tmp/.fwrule")
    delete_fwrule
    call sys (codes "uci add firewall rule > /dev/null 2>&1")
    call sys (codes "uci set firewall.@rule[-1].src=\"*\" > /dev/null 2>&1")
    call sys (codes "uci set firewall.@rule[-1].target=\"ACCEPT\" > /dev/null 2>&1")
    call sys (codes "uci set firewall.@rule[-1].proto=\"udp\" > /dev/null 2>&1")
    call_printed sys 1024 (dest_port_parts num)
    call sys (codes "uci set firewall.@rule[-1].name=\"Allow-WG-Inbound\" > /dev/null 2>&1")
    call sys (codes "uci commit firewall > /dev/null 2>&1")
    call sys (codes "/etc/init.d/firewall restart > /dev/null 2>&1")
    pure cmd_success

  unfoldable pub wg_listenport : CString → M Code
  unfolding wg_listenport_up replace_line snprintf ensure_config atoi_word print_int ◌>>=◌
  wg_listenport num = do
    replace_line (snprintf 1024 (codes "wg listenport" ∷ []))
        (snprintf 1024 (codes "wg listenport" ∷ codes " " ∷ print_int (atoi_word num) ∷ [])) []
    ensure_config (wg_listenport_up num)
