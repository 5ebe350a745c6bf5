-- ===== src/Session.antt =====
-- vty.h and command.h: the state of the shell, and the node types.
pub mod Common
pub mod Portmap
pub mod Bridge
pub mod Shell
pub mod File
pub mod Readline
use qr_wireguard_ui.Base.{ℕ, Bool, true, false, Option, List}
use qr_wireguard_ui.Text.{CString}
use qr_wireguard_ui.Command.{Code}

-- `enum node_type`
pub data NodeType : Type 0 where
  auth_node view_node auth_enable_node enable_node config_node nac_node user_node vty_node :
      NodeType

-- The type of a `struct vty`.
pub data VtyType : Type 0 where
  vty_shell vty_file : VtyType

-- `struct vty`, without its input buffer.
pub record Vty : Type 0 where
  pub type : VtyType
  pub node : NodeType

-- The fields of `struct host` that the shell reads and writes.
pub record Host : Type 0 where
  pub name : Option CString
  pub enable : Option CString
  pub enable_encrypt : Option CString
  pub trytimes : ℕ

-- The variables `vty`, `host` and `config_top`.
pub record Session : Type 0 where
  pub vty : Vty
  pub host : Host
  pub config_top : List CString

-- How a call ends: it is undefined, it leaves the process, or it returns; `none` is -1.
pub data Step : Type 0 where
  faults : Step
  exits : ℕ → Step
  returns : Option Code → Session → Step

abbrev pub set_node : NodeType → Session → Session
set_node node s = record s { vty = record s.vty { node = node } }
