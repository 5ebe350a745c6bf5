-- ===== src/Program/Saved.antt =====
-- Lines that the commands write, and that the program reads back.
pub mod Dispatched
pub mod Added
pub mod Reloaded
use qr_wireguard_ui.Base.{◌≤◌, Bool, true, ◌||◌, ◌≡◌, List, [], ◌∷◌, ◌++◌, length}
use qr_wireguard_ui.Text.{CString, codes, str_eq, starts_with}
use qr_wireguard_ui.Config.Lines.{count}
use qr_wireguard_ui.Config.Printf.{no_percent}
use qr_wireguard_ui.Command.Tokens.Split.{IsWord, no_quote}
use qr_wireguard_ui.Session.Common.{is_alpha}
use qr_wireguard_ui.Session.Common.Hostname.{hostname_line}
use qr_wireguard_ui.Cmd.Vpn.{
  public_key, allowed_ips, link_up, link_down, is_public_key, is_allowed_ips,
}
use qr_wireguard_ui.Cmd.Vpn.Peers.{left_of, line_of}

-- A line of the configuration, by the command that writes it.
pub data Saved : Type 0 where
  hostname : CString → Saved
  bridge_disabled wg_link_up wg_link_down : Saved
  wg_peer : CString → Saved
  wg_peer_ips : CString → CString → Saved

abbrev pub line : Saved → CString
line (hostname name) = hostname_line name
line bridge_disabled = codes "bridge disable"
line wg_link_up = link_up
line wg_link_down = link_down
line (wg_peer key) = line_of key public_key
line (wg_peer_ips key ips) = line_of key (allowed_ips ips)

abbrev pub lines : List Saved → List CString
lines [] = []
lines (s ∷ rest) = line s ∷ lines rest

-- A word that the tokenizer keeps.
abbrev pub IsArgument : CString → Type 0
IsArgument s = IsWord s × (no_quote s ≡ true) × (no_percent s ≡ true) × (length s ≤ 200)

-- What the commands require of their arguments.
abbrev pub IsSavable : Saved → Type 0
IsSavable (hostname name) = IsArgument name × (is_alpha name ≡ true)
IsSavable (wg_peer key) = IsArgument key × (is_public_key key ≡ true)
IsSavable (wg_peer_ips key ips) =
    IsArgument key × (is_public_key key ≡ true) × IsArgument ips × (is_allowed_ips ips ≡ true)
IsSavable _ = Unit

abbrev pub AllSavable : List Saved → Type 0
AllSavable [] = Unit
AllSavable (s ∷ rest) = IsSavable s × AllSavable rest

-- The lines that the command of a line takes out.
abbrev pub clash : Saved → CString → Bool
clash (hostname name) x = starts_with (codes "hostname") x
clash bridge_disabled x = str_eq x (codes "bridge disable")
clash wg_link_up x = starts_with link_up x || starts_with link_down x
clash wg_link_down x = starts_with link_up x || starts_with link_down x
clash (wg_peer key) x = starts_with (left_of key) x
clash (wg_peer_ips key ips) x = starts_with (left_of key) x

-- No line takes out one in front of it.
abbrev pub NoneClash : List CString → List Saved → Type 0
NoneClash done [] = Unit
NoneClash done (s ∷ rest) = (count (clash s) done ≡ 0) × NoneClash (done ++ (line s ∷ [])) rest
