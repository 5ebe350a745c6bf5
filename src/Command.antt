-- ===== src/Command.antt =====
-- command.h: tokens, command elements, and the return codes of the commands.
pub mod Tokens
pub mod Install
pub mod Spec
pub mod Filter
pub mod Ambiguous
pub mod Execute
pub mod Complete
pub mod Describe
pub mod Spelled
use qr_wireguard_ui.Base.{ℕ, Bool, ◌&&◌, ◌||◌, Option, List, leb, ◌==◌, if◌then◌else◌}
use qr_wireguard_ui.Text.{CString, codes, first, str_eq}

-- `struct desc`
pub record Desc : Type 0 where
  pub cmd : CString
  pub str : Option CString

-- `struct cmd_element`, with the type of what its `func` points at. `strvec` holds, for each
-- position of the command, the tokens that may stand there.
pub record CmdElement (F : Type 0) : Type 0 where
  pub string : CString
  pub func : F
  pub doc : CString
  pub daemon : ℕ
  pub strvec : List (List Desc)
  pub cmdsize : ℕ

-- The return values of the commands.
pub data Code : Type 0 where
  cmd_success cmd_warning cmd_err_no_match cmd_err_ambiguous cmd_err_incomplete : Code
  cmd_err_exeed_argc_max cmd_err_nothing_todo cmd_complete_full_match cmd_complete_match : Code
  cmd_complete_list_match cmd_success_daemon : Code

-- `CMD_ARGC_MAX`
abbrev pub cmd_argc_max : ℕ
cmd_argc_max = 25

-- The macros on a token.
unfoldable pub cmd_option : CString → Bool
cmd_option s = first s == b'['

unfoldable pub cmd_variable : CString → Bool
cmd_variable s = (leb b'A' (first s) && leb (first s) b'Z') || first s == b'<'

unfoldable pub cmd_vararg : CString → Bool
cmd_vararg s = first s == b'.'

unfoldable pub cmd_range : CString → Bool
cmd_range s = first s == b'<'

unfoldable pub cmd_ipv4 : CString → Bool
cmd_ipv4 s = str_eq s (codes "A.B.C.D")

unfoldable pub cmd_ipv4_prefix : CString → Bool
cmd_ipv4_prefix s = str_eq s (codes "A.B.C.D/M")

unfoldable pub cmd_ipv6 : CString → Bool
cmd_ipv6 s = str_eq s (codes "X:X::X:X")

unfoldable pub cmd_ipv6_prefix : CString → Bool
cmd_ipv6_prefix s = str_eq s (codes "X:X::X:X/M")
