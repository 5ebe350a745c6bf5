-- ===== src/Cmd/Vpn/Port.antt =====
-- `wg listenport NUM`: the line of the port is replaced.
use qr_wireguard_ui.Base.{
  ℕ, ◌+◌, ◌-◌, ◌/◌, ◌%◌, ◌^◌, ◌≤◌, zero, suc, true, ◌≡◌, refl, [], ◌∷◌, ◌++◌, arith, length,
}
use qr_wireguard_ui.Text.{CString, codes, starts_with, digits_of, print_int, atoi_word}
use qr_wireguard_ui.Config.Printf.{no_percent}
use qr_wireguard_ui.Config.Lines.{count}
use qr_wireguard_ui.Cmd.{World, System, config_of}
use qr_wireguard_ui.Cmd.Parts.{cons-ne-nil}
use qr_wireguard_ui.Cmd.Quiet.{
  Quiet, Succeeds, Succeeds-bind, Quiet-run, Quiet-call_printed, Quiet-bind, Quiet-pure, Quiet-if,
  Quiet-call, Quiet-unlink, quiet_rules,
}
use qr_wireguard_ui.Cmd.Replace.{Replaces, replace_cut}
use qr_wireguard_ui.Cmd.Vpn.{to_null}
use qr_wireguard_ui.Cmd.Vpn.Listen.{
  delete_rule, delete_fwrule, wg_listenport_up, wg_listenport, rule_file, fwrule, listen_parts,
  dest_port_parts,
}

-- No digit is a `%`, and an `int` has at most ten of them and a sign.
digits_plain :
    (fuel n : ℕ) (behind : CString)
    → no_percent behind ≡ true
    → no_percent (digits_of fuel n behind) ≡ true
unfolding digits_of no_percent
digits_plain zero n behind h = h
digits_plain (suc fuel) n behind h =
    ground (arith, digits_plain fuel (n / 10) ((b'0' + n % 10) ∷ behind))

digits_length :
    (fuel n : ℕ) (behind : CString) → length (digits_of fuel n behind) ≤ fuel + length behind
unfolding digits_of
digits_length zero n behind = omega arith
digits_length (suc fuel) n behind =
    ground (arith, digits_length fuel (n / 10) ((b'0' + n % 10) ∷ behind))

print_int_plain : (bits : ℕ) → no_percent (print_int bits) ≡ true
unfolding print_int no_percent
print_int_plain bits =
    ground (arith, digits_plain 10 bits [] refl, digits_plain 10 (2 ^ 32 - bits) [] refl)

length-print_int : (bits : ℕ) → length (print_int bits) ≤ 11
unfolding print_int
length-print_int bits =
    ground (arith, digits_length 10 bits [], digits_length 10 (2 ^ 32 - bits) [])

module _ (sys : System) where
  delete_rule-Quiet : (rule : ℕ) → Quiet (delete_rule sys rule)
  unfolding delete_rule
  delete_rule-Quiet rule =
      Quiet-if _ _ _
        (Quiet-bind _ _
          (Quiet-run sys 1024 (codes "uci delete " ∷ print_int rule ∷ to_null ∷ [])
            (omega (arith, length-print_int rule)))
          (λ _. Quiet-pure tt))
        (Quiet-pure tt)

  delete_fwrule-Quiet : Quiet (delete_fwrule sys)
  unfolding delete_fwrule
  delete_fwrule-Quiet = record {
    at = λ w.
        (Quiet-bind _ _ (Quiet-unlink rule_file)
            (λ _. delete_rule-Quiet (fwrule (sys.contents w.ran rule_file)))).at
          w;
  }

  module _ (num : CString) (short : length num ≤ 200) where
    wg_listenport_up-Succeeds : Succeeds (wg_listenport_up sys num)
    unfolding wg_listenport_up
    wg_listenport_up-Succeeds =
        let printed = Quiet-call_printed sys 1024 (listen_parts num) (omega (arith, short)) in
        let printed' = Quiet-call_printed sys 1024 (dest_port_parts num) (omega (arith, short)) in
        Succeeds-bind _ _ printed λ _. Succeeds-bind _ _ (Quiet-call sys _) λ _.
          Succeeds-bind _ _ delete_fwrule-Quiet λ _. Succeeds-bind _ _ (Quiet-call sys _) λ _.
            Succeeds-bind _ _ (Quiet-call sys _) λ _. Succeeds-bind _ _ (Quiet-call sys _) λ _.
              Succeeds-bind _ _ (Quiet-call sys _)
                λ _. Succeeds-bind _ _ printed' λ _. search quiet_rules depth 20

    abbrev port : CString
    port = print_int (atoi_word num)

    -- If the argument is no longer than 200 bytes and at most one line begins with `wg listenport`,
    -- then setting the port succeeds: one line begins so and it shows the number that atoi reads,
    -- every other line occurs as often as before, the vty and the host are as before, and nothing
    -- runs while a file is loaded.
    pub wg_listenport-Replaces :
        (w : World)
        → count (starts_with (codes "wg listenport")) (config_of w) ≤ 1
        → Replaces
            (codes "wg listenport")
            (codes "wg listenport " ++ (port ++ []))
            (wg_listenport sys num)
            w
    unfolding wg_listenport no_percent
    wg_listenport-Replaces w once =
        replace_cut (codes "wg listenport" ∷ []) (codes " " ∷ port ∷ []) w 1024
          (omega (arith, length-print_int (atoi_word num)))
          (refl, (refl, (print_int_plain (atoi_word num), tt))) (cons-ne-nil _ _) once
          (wg_listenport_up sys num) wg_listenport_up-Succeeds
