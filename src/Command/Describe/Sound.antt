-- ===== src/Command/Describe/Sound.antt =====
-- The tokens that `cmd_describe_command` returns.
use qr_wireguard_ui.Base.{◌≡◌, Option, List}
use mathlib.Core.Option
use qr_wireguard_ui.Text.{CString}
use qr_wireguard_ui.Command.{Desc, CmdElement}
use qr_wireguard_ui.Command.Spec.{AnySlot}
use qr_wireguard_ui.Command.Execute.{CmdVector}
use qr_wireguard_ui.Command.Describe.Matched.{IsMatched}
use qr_wireguard_ui.Command.Describe.Promise.{IsDescribed}

module _ {F : Type 0} (v0 : CmdVector F) where
  module _ (words : List CString) (src : Option CString) where
    abbrev Good : List Desc → Type 0
    Good = IsMatched (IsDescribed v0 words src)

    abbrev Installed : CmdElement F → Type 0
    Installed e = AnySlot (λ x. x ≡ e) v0
