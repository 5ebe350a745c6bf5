-- ===== src/Program/Climb.antt =====
-- Below the configuration node no line changes the configuration.
pub mod Nodes
pub mod Lines
use qr_wireguard_ui.Base.{
  Bool, true, false, ◌&&◌, ◌||◌, ap, arith, if◌then◌else◌, ◌≡◌, ◌⊎◌, inl, inr, refl, Option, none,
  some, List, [], ◌∷◌,
}
use mathlib.Core.Path.{subst}
use qr_wireguard_ui.Text.{CString}
use qr_wireguard_ui.Command.{CmdElement, Code, cmd_success}
use qr_wireguard_ui.Command.Spec.{Slots, AnySlot}
use qr_wireguard_ui.Command.Execute.{CmdVector}
use qr_wireguard_ui.Session.{
  NodeType, view_node, enable_node, auth_enable_node, config_node, set_node, Session, Step, faults,
  exits, returns,
}
use qr_wireguard_ui.Session.Common.{
  succeeds, is_null, is_file, config_terminal, enable, disabled, disable, exited, config_exit,
}

-- The view node or the enable node, with no enable password, as after the start.
abbrev pub IsBelow : Session → Type 0
IsBelow s =
    ((s.vty.node ≡ view_node) ⊎ (s.vty.node ≡ enable_node))
    × (s.host.enable ≡ none)
    × (s.host.enable_encrypt ≡ none)

-- Where a line leads from a session: the configuration node is reached from the enable node only.
abbrev pub Leads : Session → Session → Type 0
Leads s s' =
    (s'.vty.node ≡ view_node)
    ⊎ (s'.vty.node ≡ enable_node)
    ⊎ ((s.vty.node ≡ enable_node) × (s'.vty.node ≡ config_node))

-- A step is no fault; where it returns, the configuration, the host and the type of the vty are as
-- before.
abbrev pub Keeps : Session → Step → Type 0
Keeps s faults = ⊥
Keeps s (exits status) = Unit
Keeps s (returns ret s') =
    (s'.config_top ≡ s.config_top) × (s'.host ≡ s.host) × (s'.vty.type ≡ s.vty.type) × Leads s s'

pub AnySlot-Slots :
    {F : Type 0} (P : CmdElement F → Type 0) (v : CmdVector F) (e : CmdElement F)
    → Slots P v
    → AnySlot (λ x. x ≡ e) v
    → P e
AnySlot-Slots P [] e s a = absurd a
AnySlot-Slots P (none ∷ v) e s a = AnySlot-Slots P v e s a
AnySlot-Slots P (some x ∷ v) e s (inl same) = subst P same s.0
AnySlot-Slots P (some x ∷ v) e s (inr a) = AnySlot-Slots P v e s.1 a

Leads-same : (s : Session) → IsBelow s → Leads s s
Leads-same s (inl view, _, _) = inl view
Leads-same s (inr enabled, _, _) = inr (inl enabled)

-- Whatever is returned, with the session as before.
pub same-Keeps : (s : Session) → IsBelow s → Keeps s (returns none s)
same-Keeps s b = (refl, refl, refl, Leads-same s b)

opened-Keeps :
    (s : Session) (free : Bool)
    → free ≡ true
    → Keeps s
        (if free then succeeds (set_node enable_node s) else succeeds (set_node auth_enable_node s))
opened-Keeps s true h = (refl, refl, refl, inr (inl refl))
opened-Keeps s false h = absurd (ground arith)

pub enable-Keeps : (s : Session) → IsBelow s → Keeps s (enable s)
unfolding enable
enable-Keeps s (at, no_enable, no_encrypt) =
    opened-Keeps s ((is_null s.host.enable && is_null s.host.enable_encrypt) || is_file s.vty.type)
      (ground (
        arith,
        ap (λ (o : Option CString). is_null o) no_enable,
        ap (λ (o : Option CString). is_null o) no_encrypt,
      ))

disabled-Keeps : (node : NodeType) (s : Session) → IsBelow s → Keeps s (disabled node s)
disabled-Keeps enable_node s b = (refl, refl, refl, inl refl)
disabled-Keeps _ s b = same-Keeps s b

pub disable-Keeps : (s : Session) → IsBelow s → Keeps s (disable s)
unfolding disable
disable-Keeps s b = disabled-Keeps s.vty.node s b

exited-Keeps : (node : NodeType) (s : Session) → IsBelow s → Keeps s (exited node s)
exited-Keeps view_node s b = tt
exited-Keeps enable_node s b = (refl, refl, refl, inl refl)
exited-Keeps config_node s b = (refl, refl, refl, inr (inl refl))
exited-Keeps _ s b = same-Keeps s b

pub config_exit-Keeps : (s : Session) → IsBelow s → Keeps s (config_exit s)
unfolding config_exit
config_exit-Keeps s b = exited-Keeps s.vty.node s b

pub config_terminal-Keeps : (s : Session) → s.vty.node ≡ enable_node → Keeps s (config_terminal s)
unfolding config_terminal
config_terminal-Keeps s enabled = (refl, refl, refl, inr (inr (enabled, refl)))
