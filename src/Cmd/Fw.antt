-- ===== src/Cmd/Fw.antt =====
-- cmd/cmd_fw.c: the filter rules, and the commands that write the files of the firewall. The commands
-- on a port forwarding rule stand with the session; sfirewall_enable and the policy commands are
-- compiled out in the source, and show_sfirewall only runs a program.
pub mod Rule
pub mod Apply
