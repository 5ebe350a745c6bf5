-- ===== src/Cmd.antt =====
-- The handlers of wgshell/vtysh/cmd, which change the running configuration and run programs: what
-- they print is left out, and the programs and files of the system are a parameter.
pub mod Parts
pub mod Quiet
pub mod Replace
pub mod Ip
pub mod Fw
pub mod Vpn
pub mod Tool
pub mod Report
pub mod Bridge
use qr_wireguard_ui.Base.{
  ℕ, ◌+◌, ◌-◌, Bool, Option, none, some, List, [], ◌∷◌, ◌++◌, length, ltb, take, if◌then◌else◌,
}
use qr_wireguard_ui.Text.{CString}
use qr_wireguard_ui.Command.{Code, cmd_success}
use qr_wireguard_ui.Config.{config_add_line, config_del_line, config_del_line_byleft}
use qr_wireguard_ui.Session.{Session}
use qr_wireguard_ui.Session.Common.{is_file}

-- What a handler asks of the system: a command line for `system`, a program and its arguments for
-- `cmd_execute_system_command`, a file that is opened, filled and closed, or a file that is removed.
pub data Request : Type 0 where
  shell : CString → Request
  execute : CString → List CString → Request
  write : CString → CString → Request
  remove : CString → Request

-- The session, and the requests up to now, the last one first.
pub record World : Type 0 where
  pub session : Session
  pub ran : List Request

-- What the system answers; it may depend on all the requests before: the status of a command,
-- whether a file is there, whether it opens for writing, and its bytes if it opens for reading.
pub record System : Type 0 where
  pub status : List Request → CString → ℕ
  pub is_there : List Request → CString → Bool
  pub opens : List Request → CString → Bool
  pub contents : List Request → CString → Option CString

-- `none`: the call is undefined.
abbrev pub M : Type 0 → Type 0
M A = World → Option (A × World)

module _ {A : Type 0} where
  unfoldable pub pure : A → M A
  pure a w = some (a, w)

module _ {A B : Type 0} where
  infixl 5 ◌>>=◌ ◌>>◌
  unfoldable pub ◌>>=◌ : M A → (A → M B) → M B
  ◌>>=◌ m f w = elim (m w) [ none ↦ none | some (a, w') ↦ f a w' ]

  abbrev pub ◌>>◌ : M A → M B → M B
  m >> k = m >>= λ _. k

abbrev pub concat : List CString → CString
concat [] = []
concat (s ∷ rest) = s ++ concat rest

abbrev pub total : List CString → ℕ
total [] = 0
total (s ∷ rest) = length s + total rest

-- `sprintf` into a buffer, with the text of the format and its arguments as a list.
unfoldable pub sprintf : ℕ → List CString → M CString
unfolding pure
sprintf size parts w = if ltb (total parts) size then some (concat parts, w) else none

-- `snprintf` cuts what does not fit.
unfoldable pub snprintf : ℕ → List CString → M CString
unfolding pure
snprintf size parts = pure (take (size - 1) (concat parts))

module _ (sys : System) where
  unfoldable pub system : CString → M ℕ
  system command w = some (sys.status w.ran command, record w { ran = shell command ∷ w.ran })

  -- `system` on a text that `sprintf` puts together.
  unfoldable pub run : ℕ → List CString → M ℕ
  unfolding sprintf system ◌>>=◌
  run size parts = do line ← sprintf size parts; system line

  -- What `system` returns is not looked at.
  unfoldable pub call : CString → M Unit
  unfolding system pure ◌>>=◌
  call command = do system command; pure tt

  unfoldable pub call_printed : ℕ → List CString → M Unit
  unfolding run pure ◌>>=◌
  call_printed size parts = do run size parts; pure tt

-- What `cmd_execute_system_command` returns is not looked at.
unfoldable pub cmd_execute_system_command : CString → List CString → M Unit
cmd_execute_system_command command argv w =
    some (tt, record w { ran = execute command argv ∷ w.ran })

unfoldable pub write_file : CString → CString → M Unit
write_file path text w = some (tt, record w { ran = write path text ∷ w.ran })

unfoldable pub unlink : CString → M Unit
unlink path w = some (tt, record w { ran = remove path ∷ w.ran })

-- The operations on `config_top`.
abbrev pub set_config : World → List CString → World
set_config w config = record w { session = record w.session { config_top = config } }

abbrev pub config_of : World → List CString
config_of w = w.session.config_top

unfoldable pub del_line : CString → M Unit
del_line line w = some (tt, set_config w (config_del_line (config_of w) line))

unfoldable pub del_line_byleft : CString → M Unit
del_line_byleft line w = some (tt, set_config w (config_del_line_byleft (config_of w) line))

unfoldable pub add_line : CString → List CString → M Unit
add_line line args w = elim (config_add_line (config_of w) line args) [
  | none ↦ none
  | some config ↦ some (tt, set_config w config)
]

-- A line takes the place of the one that begins like it; both texts may go through a buffer.
unfoldable pub replace_line : M CString → M CString → List CString → M Unit
unfolding ◌>>=◌
replace_line left line args = do old ← left; del_line_byleft old; new ← line; add_line new args

-- `ENSURE_CONFIG (vty);` and what follows it.
unfoldable pub ensure_config : M Code → M Code
unfolding pure
ensure_config rest w =
    let after = rest w in if is_file w.session.vty.type then some (cmd_success, w) else after
