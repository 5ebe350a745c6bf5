-- ===== src/Tests/Climbing.antt =====
-- Lines typed after the start, up to the configuration node.
use qr_wireguard_ui.Base.{◌⊎◌, inl, refl, List, [], ◌∷◌}
use qr_wireguard_ui.Text.{CString, codes}
use qr_wireguard_ui.Session.Shell.{vtysh_lines}
use qr_wireguard_ui.Program.{handle}
use qr_wireguard_ui.Program.Install.{cmdvec}
use qr_wireguard_ui.Program.Climb.Lines.{StaysBelow, Enters, program-StaysBelow}
use qr_wireguard_ui.Program.Main.{initial}
use qr_wireguard_ui.Tests.Restarting.{no_hash, systems, no_answer}

abbrev typed : List CString
typed = codes "show version" ∷ codes "enable" ∷ codes "show run" ∷ codes "configure terminal" ∷ []

program-StaysBelow_example :
    StaysBelow initial (vtysh_lines no_hash (handle systems no_answer) cmdvec typed initial)
    ⊎ Enters no_hash systems no_answer initial typed
program-StaysBelow_example =
    program-StaysBelow no_hash systems no_answer typed initial (inl refl, refl, refl)
