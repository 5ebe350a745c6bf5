-- ===== src/Tests/Helping.antt =====
-- The prompt, the completion and the help of the `?` key, on the commands of the program.
use mathlib.Core.Option
use qr_wireguard_ui.Base.{true, ◌≡◌, refl, none, some, [], ◌∷◌}
use qr_wireguard_ui.Text.{codes, str_eq, starts_with}
use qr_wireguard_ui.Command.{
  cmd_option, cmd_variable, cmd_vararg, cmd_range, cmd_ipv4, cmd_ipv4_prefix, cmd_ipv6,
  cmd_ipv6_prefix,
}
use qr_wireguard_ui.Command.Ambiguous.{is_cmd_ambiguous}
use qr_wireguard_ui.Session.{config_node, auth_enable_node, Session, set_node}
use qr_wireguard_ui.Session.Readline.{
  prints, vtysh_rl_describe, command_generator, vtysh_prompt, pending_blank,
}
use qr_wireguard_ui.Program.Install.{cmdvec}
use qr_wireguard_ui.Tests.Restarting.{unlocked}

abbrev configuring : Session
configuring = set_node config_node unlocked

-- The commands of a node stand in the order of their installation.
help_of_write :
    vtysh_rl_describe cmdvec (codes "wri ") configuring
    ≡ prints (
        []
        ∷ codes "  terminal  Write to terminal"
        ∷ codes "  file      Write to configuration file"
        ∷ codes "  memory    Write configuration to the file (same as write file)"
        ∷ codes "  <cr>      "
        ∷ [])
unfolding vtysh_rl_describe cmdvec Option.bind cmd_vararg cmd_range cmd_ipv6 str_eq cmd_ipv6_prefix
    cmd_ipv4 cmd_ipv4_prefix cmd_option cmd_variable starts_with is_cmd_ambiguous
help_of_write = refl

help_of_hostname :
    vtysh_rl_describe cmdvec (codes "hostn") configuring
    ≡ prints ([] ∷ codes "  hostname  Set system's network name" ∷ [])
unfolding vtysh_rl_describe cmdvec Option.bind cmd_vararg cmd_range cmd_ipv6 str_eq cmd_ipv6_prefix
    cmd_ipv4 cmd_ipv4_prefix cmd_option cmd_variable starts_with is_cmd_ambiguous
help_of_hostname = refl

no_help :
    vtysh_rl_describe cmdvec (codes "nothing ") configuring
    ≡ prints ([] ∷ codes "% There is no matched command." ∷ [])
unfolding vtysh_rl_describe cmdvec Option.bind cmd_vararg cmd_range cmd_ipv6 str_eq cmd_ipv6_prefix
    cmd_ipv4 cmd_ipv4_prefix cmd_option cmd_variable starts_with is_cmd_ambiguous
no_help = refl

completed :
    Option.map pending_blank (command_generator cmdvec (codes "hostn") configuring) ≡ some true
unfolding command_generator cmdvec Option.bind cmd_option cmd_variable cmd_vararg cmd_ipv4 str_eq
    cmd_ipv4_prefix cmd_range starts_with
completed = refl

no_completion :
    command_generator cmdvec (codes "s") (set_node auth_enable_node unlocked) ≡ some (none, [])
unfolding command_generator
no_completion = refl

prompted :
    Option.map (λ r. r.0) (vtysh_prompt (codes "router") configuring)
    ≡ some (codes "router(config)# ")
unfolding vtysh_prompt
prompted = refl
