-- ===== src/Command/Complete/Offers.antt =====
-- The strings that `cmd_complete_command` returns.
use qr_wireguard_ui.Base.{ℕ, true, ◌≡◌, Option, some, List, get_elem?}
use qr_wireguard_ui.Text.{CString}
use qr_wireguard_ui.Command.{Desc, CmdElement}
use qr_wireguard_ui.Command.Complete.{cmd_entry_function, Before}
use qr_wireguard_ui.Command.Complete.Finds.{HasToken}
use qr_wireguard_ui.Command.Complete.Promise.{AllStrings, IsDistinct}

-- The matched strings so far.
abbrev IsMatched : (CString → Type 0) → List CString → Type 0
IsMatched Q xs = AllStrings Q xs × IsDistinct xs

module _ (src : Option CString) (Q : CString → Type 0) where
  module _ {F : Type 0} (index : ℕ) where
    abbrev Offers : CmdElement F → Type 0
    Offers e =
        (str : CString) (ds : List Desc)
        → get_elem? e.strvec index ≡ some ds
        → HasToken str ds
        → cmd_entry_function src str ≡ true
        → Q str
