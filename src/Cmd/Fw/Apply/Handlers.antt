-- ===== src/Cmd/Fw/Apply/Handlers.antt =====
-- The two handlers that write the sections, and the calls that load them.
use qr_wireguard_ui.Base.{Option, none, some, [], if◌then◌else◌}
use qr_wireguard_ui.Text.{CString, codes}
use qr_wireguard_ui.Command.{Code, cmd_success, cmd_warning}
use qr_wireguard_ui.Cmd.{System, M, pure, ◌>>=◌, ◌>>◌, call, write_file}
use qr_wireguard_ui.Cmd.Fw.Apply.{portmap_sections, filter_sections}

module _ (sys : System) where
  -- `if (stat (path, &sb) != 0) system (command);`
  unfoldable pub call_if_missing : CString → CString → M Unit
  unfolding call pure
  call_if_missing path command w =
      if sys.is_there w.ran path then some (tt, w) else call sys command w

  unfoldable pub apply_firewall_rules : M Unit
  unfolding call_if_missing ◌>>=◌
  apply_firewall_rules = do
    call_if_missing (codes "/etc/config/firewall.ORG")
        (codes "cp /etc/config/firewall /etc/config/firewall.ORG > /dev/null 2>&1")
    call_if_missing (codes "/etc/config/sfirewall_filter")
        (codes "touch /etc/config/sfirewall_filter > /dev/null 2>&1")
    call_if_missing (codes "/etc/config/sfirewall_mac")
        (codes "touch /etc/config/sfirewall_mac > /dev/null 2>&1")
    call_if_missing (codes "/etc/config/sfirewall_nat")
        (codes "touch /etc/config/sfirewall_nat > /dev/null 2>&1")
    call sys (
        codes
          "cat /etc/config/sfirewall_filter /etc/config/sfirewall_mac /etc/config/sfirewall_nat > /tmp/sfirewall")
    call sys (codes "mv /tmp/sfirewall /etc/config > /dev/null 2>&1")
    call sys (codes "cat /etc/config/firewall.ORG /etc/config/sfirewall > /tmp/firewall")
    call sys (codes "mv /tmp/firewall /etc/config > /dev/null 2>&1")
    call sys (codes "uci commit firewall > /dev/null 2>&1")
    call sys (codes "/etc/init.d/firewall restart > /dev/null 2>&1")

  abbrev apply_text : CString → Option CString → M Code
  apply_text target none = λ w. none
  apply_text target (some text) = do write_file target text; apply_firewall_rules; pure cmd_success

  -- Where the rules cannot be read, the file of the firewall is empty by then.
  abbrev apply_file : CString → (CString → Option CString) → Option CString → M Code
  apply_file target sections none = write_file target [] >> pure cmd_warning
  apply_file target sections (some file) = apply_text target (sections file)

  unfoldable pub apply : CString → CString → (CString → Option CString) → M Code
  apply source target sections w =
      let applied = apply_file target sections (sys.contents w.ran source) w in
      if sys.opens w.ran target then applied else some (cmd_warning, w)

  unfoldable pub sfirewall_nat_portmap_apply : M Code
  sfirewall_nat_portmap_apply =
      apply (codes "/qrwg/config/portmap.txt") (codes "/etc/config/sfirewall_nat") portmap_sections

  unfoldable pub sfirewall_filter_rules_apply : M Code
  sfirewall_filter_rules_apply =
      apply (codes "/qrwg/config/filter.txt") (codes "/etc/config/sfirewall_filter") filter_sections
