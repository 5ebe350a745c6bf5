-- ===== src/Program/Climb/Nodes.antt =====
-- The commands that the program installs in the view node and in the enable node.
use mathlib.Core.Option
use qr_wireguard_ui.Base.{
  ℕ, ◌≤◌, suc, zero, Bool, true, false, ◌&&◌, not, ◌≡◌, inl, inr, refl, Option, none, some, List,
  [], ◌∷◌, arith, length, get_elem?, Bool-cases,
}
use qr_wireguard_ui.Text.{CString, codes, is_digit, first, starts_with}
use qr_wireguard_ui.Command.{
  Desc, CmdElement, Code, cmd_success, cmd_warning, cmd_vararg, cmd_option, cmd_variable,
}
use qr_wireguard_ui.Command.Install.{cmd_install_element}
use qr_wireguard_ui.Command.Spec.{Slots, all_alone, has_vararg}
use qr_wireguard_ui.Command.Execute.Args.{args_of}
use qr_wireguard_ui.Session.{NodeType, view_node, enable_node, Session, Step, faults, returns}
use qr_wireguard_ui.Session.Shell.{Func, run}
use qr_wireguard_ui.Cmd.{World, System, pure, ◌>>=◌, cmd_execute_system_command}
use qr_wireguard_ui.Cmd.Report.{
  config_path, config_write_file, show_startup_config, show_bridge_mac, executed,
}
use qr_wireguard_ui.Cmd.Tool.{config_ping, config_ping_count, config_ssh, config_ssh_port}
use qr_wireguard_ui.Program.{Handler, step, handle}
use qr_wireguard_ui.Program.Climb.{
  IsBelow, Keeps, same-Keeps, enable-Keeps, disable-Keeps, config_exit-Keeps, config_terminal-Keeps,
}
use qr_wireguard_ui.Program.Commands.{Element}
use qr_wireguard_ui.Program.Commands.Bridge.{show_bridge_mac_cmd}
use qr_wireguard_ui.Program.Commands.Tool.{
  config_ping_cmd, config_ping_cmd_count, config_ssh_cmd, config_ssh_port_cmd, config_tcpdump_cmd,
}
use qr_wireguard_ui.Program.Install.{cmdvec}

-- An element with its tokens, as it is installed.
abbrev installed : Element → Element
installed e = elim (cmd_install_element [] e) [
  | none ↦ e
  | some [] ↦ e
  | some (none ∷ v) ↦ e
  | some (some x ∷ v) ↦ x
]

-- No position of the element holds a variable argument.
unfoldable pub lacks_vararg : List (List Desc) → Bool
unfolding has_vararg
lacks_vararg [] = true
lacks_vararg (ds ∷ strvec) = not (has_vararg ds) && lacks_vararg strvec

pub lacks_vararg_lem :
    (strvec : List (List Desc)) (index : ℕ) (ds : List Desc)
    → lacks_vararg strvec ≡ true
    → get_elem? strvec index ≡ some ds
    → has_vararg ds ≡ false
unfolding lacks_vararg
lacks_vararg_lem [] index ds h at = absurd (ground arith)
lacks_vararg_lem (x ∷ strvec) zero ds h at = ground (arith, h, at)
lacks_vararg_lem (x ∷ strvec) (suc index) ds h at =
    lacks_vararg_lem strvec index ds (ground (arith, h)) at

-- The slots of a vector one after another.
infixr 5 ◌also◌
abbrev ◌also◌ : {A B : Type 0} → A → B → A × B
a also b = (a, b)

module _ (crypt : CString → CString → Option CString) (systems : Session → System)
    (stdin : Session → Option CString) where
  -- What the handler of an element does with some words.
  abbrev Runs : Element → List CString → Session → Type 0
  Runs e vline s =
      Keeps s (run crypt (handle systems stdin) cmdvec e.func (args_of e.strvec vline) s)

  -- Called with words enough in the node, the element keeps the configuration; it has no daemon and
  -- no variable argument.
  abbrev pub KeepsAt : NodeType → CmdElement (Func Handler) → Type 0
  KeepsAt node e =
      (e.daemon ≡ 0)
      × (lacks_vararg e.strvec ≡ true)
      × ((vline : List CString)
          → e.cmdsize ≤ length vline
          → (s : Session) → s.vty.node ≡ node
          → IsBelow s
          → Keeps s (run crypt (handle systems stdin) cmdvec e.func (args_of e.strvec vline) s))

  ping_count-Keeps :
      (dest count : CString) (s : Session)
      → IsBelow s
      → Keeps s (step (config_ping_count dest count) s)
  unfolding config_ping_count cmd_execute_system_command pure ◌>>=◌
  ping_count-Keeps dest count s b = elim (Bool-cases (is_digit (first count))) [
    | inl digit ↦ rw digit (same-Keeps s b)
    | inr other ↦ rw other (same-Keeps s b)
  ]

  bridge_mac-Keeps :
      (name : CString) (s : Session) → IsBelow s → Keeps s (show_bridge_mac (systems s) name s)
  unfolding show_bridge_mac executed
  bridge_mac-Keeps name s b = elim (Bool-cases (starts_with (codes "brad") name)) [
    | inl brad ↦ rw brad (same-Keeps s b)
    | inr other ↦ rw other (same-Keeps s b)
  ]

  read-Keeps :
      (file : Option CString) (s : Session)
      → IsBelow s
      → Keeps s
          (elim (elim file as (λ x. Option (Code × World)) [
            | none ↦ some (cmd_warning, record { session = s; ran = [] })
            | some text ↦ some (cmd_success, record { session = s; ran = [] })
          ])
            as (λ x. Step) [ none ↦ faults | some x ↦ returns (some x.0) x.1.session ])
  read-Keeps none s b = same-Keeps s b
  read-Keeps (some text) s b = same-Keeps s b

  startup-Keeps : (s : Session) → IsBelow s → Keeps s (step (show_startup_config (systems s)) s)
  unfolding show_startup_config pure
  startup-Keeps s b = read-Keeps ((systems s).contents [] config_path) s b

  two_words :
      (e : Element)
      → 2 ≤ e.cmdsize
      → ((w v : CString) (rest : List CString) (s : Session) → IsBelow s → Runs e (w ∷ v ∷ rest) s)
      → (node : NodeType) (vline : List CString) → e.cmdsize ≤ length vline
      → (s : Session) → s.vty.node ≡ node
      → IsBelow s
      → Runs e vline s
  two_words e size runs node [] n s a b = absurd (omega (arith, size, n))
  two_words e size runs node (w ∷ []) n s a b = absurd (omega (arith, size, n))
  two_words e size runs node (w ∷ x ∷ rest) n s a b = runs w x rest s b

  three_words :
      (e : Element)
      → 3 ≤ e.cmdsize
      → ((w v u : CString) (rest : List CString) (s : Session)
          → IsBelow s
          → Runs e (w ∷ v ∷ u ∷ rest) s)
      → (node : NodeType) (vline : List CString) → e.cmdsize ≤ length vline
      → (s : Session) → s.vty.node ≡ node
      → IsBelow s
      → Runs e vline s
  three_words e size runs node [] n s a b = absurd (omega (arith, size, n))
  three_words e size runs node (w ∷ []) n s a b = absurd (omega (arith, size, n))
  three_words e size runs node (w ∷ x ∷ []) n s a b = absurd (omega (arith, size, n))
  three_words e size runs node (w ∷ x ∷ y ∷ rest) n s a b = runs w x y rest s b

  pub view_keeps_all : Slots (KeepsAt view_node) (cmdvec view_node)
  unfolding cmdvec cmd_install_element Option.bind run handle lacks_vararg has_vararg args_of
      cmd_vararg cmd_option cmd_variable config_ping config_ssh config_ssh_port
      cmd_execute_system_command config_write_file show_startup_config executed pure ◌>>=◌
  view_keeps_all =
      (refl, refl, λ vline n s a b. same-Keeps s b)
      also (refl, refl, λ vline n s a b. config_exit-Keeps s b)
      also (refl, refl, λ vline n s a b. enable-Keeps s b)
      also (refl, refl, λ vline n s a b. same-Keeps s b)
      also (refl, refl, λ vline n s a b. same-Keeps s b)
      also (refl, refl, λ vline n s a b. same-Keeps s b)
      also (refl, refl, λ vline n s a b. same-Keeps s b)
      also (
        refl,
        refl,
        two_words (installed config_ping_cmd) (omega arith) (λ w v rest s b. same-Keeps s b)
            view_node,
      )
      also (
        refl,
        refl,
        three_words (installed config_ping_cmd_count) (omega arith)
            (λ w v u rest s b. ping_count-Keeps v u s b) view_node,
      )
      also (
        refl,
        refl,
        two_words (installed config_ssh_cmd) (omega arith) (λ w v rest s b. same-Keeps s b)
            view_node,
      )
      also (
        refl,
        refl,
        three_words (installed config_ssh_port_cmd) (omega arith) (λ w v u rest s b. same-Keeps s b)
            view_node,
      )
      also tt

  pub enable_keeps_all : Slots (KeepsAt enable_node) (cmdvec enable_node)
  unfolding cmdvec cmd_install_element Option.bind run handle lacks_vararg has_vararg args_of
      cmd_vararg cmd_option cmd_variable config_ping config_ssh config_ssh_port
      cmd_execute_system_command config_write_file show_startup_config executed pure ◌>>=◌
  enable_keeps_all =
      (refl, refl, λ vline n s a b. same-Keeps s b)
      also (
        refl,
        refl,
        three_words (installed show_bridge_mac_cmd) (omega arith)
            (λ w v u rest s b. bridge_mac-Keeps u s b) enable_node,
      )
      also (refl, refl, λ vline n s a b. same-Keeps s b)
      also (refl, refl, λ vline n s a b. config_exit-Keeps s b)
      also (refl, refl, λ vline n s a b. same-Keeps s b)
      also (refl, refl, λ vline n s a b. same-Keeps s b)
      also (refl, refl, λ vline n s a b. same-Keeps s b)
      also (refl, refl, λ vline n s a b. same-Keeps s b)
      also (refl, refl, λ vline n s a b. same-Keeps s b)
      also (refl, refl, λ vline n s a b. same-Keeps s b)
      also (refl, refl, λ vline n s a b. same-Keeps s b)
      also (refl, refl, λ vline n s a b. same-Keeps s b)
      also (refl, refl, λ vline n s a b. same-Keeps s b)
      also (refl, refl, λ vline n s a b. disable-Keeps s b)
      also (refl, refl, λ vline n s a b. config_terminal-Keeps s a)
      also (refl, refl, λ vline n s a b. same-Keeps s b)
      also (refl, refl, λ vline n s a b. startup-Keeps s b)
      also (
        refl,
        refl,
        two_words (installed config_ping_cmd) (omega arith) (λ w v rest s b. same-Keeps s b)
            enable_node,
      )
      also (
        refl,
        refl,
        three_words (installed config_ping_cmd_count) (omega arith)
            (λ w v u rest s b. ping_count-Keeps v u s b) enable_node,
      )
      also (
        refl,
        refl,
        two_words (installed config_ssh_cmd) (omega arith) (λ w v rest s b. same-Keeps s b)
            enable_node,
      )
      also (
        refl,
        refl,
        three_words (installed config_ssh_port_cmd) (omega arith) (λ w v u rest s b. same-Keeps s b)
            enable_node,
      )
      also (
        refl,
        refl,
        three_words (installed config_tcpdump_cmd) (omega arith) (λ w v u rest s b. same-Keeps s b)
            enable_node,
      )
      also (refl, refl, λ vline n s a b. same-Keeps s b)
      also (refl, refl, λ vline n s a b. same-Keeps s b)
      also (refl, refl, λ vline n s a b. same-Keeps s b)
      also (refl, refl, λ vline n s a b. same-Keeps s b)
      also (refl, refl, λ vline n s a b. same-Keeps s b)
      also (refl, refl, λ vline n s a b. same-Keeps s b)
      also (refl, refl, λ vline n s a b. same-Keeps s b)
      also (refl, refl, λ vline n s a b. same-Keeps s b)
      also (refl, refl, λ vline n s a b. same-Keeps s b)
      also (refl, refl, λ vline n s a b. same-Keeps s b)
      also tt

pub view_alone : Slots (λ e. all_alone e.strvec ≡ true) (cmdvec view_node)
unfolding cmdvec cmd_install_element Option.bind all_alone cmd_vararg
view_alone =
    refl also refl also refl also refl also refl also refl also refl also refl also refl also refl
    also refl also tt

pub enable_alone : Slots (λ e. all_alone e.strvec ≡ true) (cmdvec enable_node)
unfolding cmdvec cmd_install_element Option.bind all_alone cmd_vararg
enable_alone =
    refl also refl also refl also refl also refl also refl also refl also refl also refl also refl
    also refl also refl also refl also refl also refl also refl also refl also refl also refl
    also refl also refl also refl also refl also refl also refl also refl also refl also refl
    also refl also refl also refl also refl also tt
