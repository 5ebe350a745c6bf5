-- ===== src/Tests/Completing.antt =====
-- Completion and description on the commands of cmd/cmd_common.c, and its theorems there.
use qr_wireguard_ui.Base.{◌≤◌, ◌↔◌, [], ◌∷◌, arith}
use qr_wireguard_ui.Text.{codes}
use qr_wireguard_ui.Command.Complete.Lcd.{cmd_lcd, AllAgree, cmd_lcd-AllAgree}

cmd_lcd-AllAgree_example :
    (4 ≤ cmd_lcd (codes "show-a" ∷ codes "show-b" ∷ []))
    ↔ AllAgree 4 (codes "show-a") (codes "show-b" ∷ [])
cmd_lcd-AllAgree_example = cmd_lcd-AllAgree 4 (codes "show-a") (codes "show-b") [] (omega arith)
