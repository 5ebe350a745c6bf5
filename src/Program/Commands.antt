-- ===== src/Program/Commands.antt =====
-- The `DEFUN`s: a command element with its string, its handler and its description.
pub mod Bridge
pub mod Common
pub mod Tool
pub mod Ip
pub mod Firewall
pub mod Vpn
use qr_wireguard_ui.Base.{[]}
use qr_wireguard_ui.Text.{CString}
use qr_wireguard_ui.Command.{CmdElement}
use qr_wireguard_ui.Session.Shell.{Func}
use qr_wireguard_ui.Program.{Handler}

abbrev pub Element : Type 0
Element = CmdElement (Func Handler)

-- `DEFUN`, which leaves the rest of the element at 0.
abbrev pub defun : CString → Func Handler → CString → Element
defun string func doc = record {
  string = string;
  func = func;
  doc = doc;
  daemon = 0;
  strvec = [];
  cmdsize = 0;
}
