-- ===== src/Lib.antt =====
-- qr-wireguard-ui: the command shell of the VPN router, wgshell/vtysh.
--
-- The shell reads a line, splits it into words, finds the one command of the current node that takes
-- the words, and calls its handler with the words at its argument positions. A handler changes the
-- running configuration, a sorted list of lines, and calls programs of the system. At the start the
-- shell reads the lines of the configuration file in the same way, with a stricter match.
--
--   Text      C strings as lists of bytes without the NUL, and the functions of the C library that
--             the shell calls on them: strcmp, strncmp, isspace, strchr, strtok, atoi, and
--             the conversion of an int.
--   Match     wgshell/vtysh/command.c, the matchers: cmd_ipv4_match (Match/Ipv4), cmd_ipv4_prefix_match
--             (Match/Ipv4Prefix), cmd_ipv6_match (Match/Ipv6), cmd_range_match (Match/Range), which
--             calls strtoul; `enum match_type` is MatchType, and its order is rank.
--   Command   wgshell/vtysh/command.h: struct desc, struct cmd_element and the token macros.
--     Tokens    cmd_make_strvec: a line as its words.
--     Install   cmd_desc_str, cmd_make_descvec, cmd_cmdsize and cmd_install_element.
--     Filter    cmd_filter_by_completion and cmd_filter_by_string. Their loops are the same, and the
--               body for one token is a parameter.
--     Ambiguous is_cmd_ambiguous.
--     Spec      what a token and a command accept, with no vector and no match type.
--     Spelled   lines of keywords that are spelled out, for which both executing functions agree.
--     Complete  cmd_complete_command, with cmd_entry_function, cmd_unique_string and cmd_lcd; the words in
--               front of the current one are a list, and the current one may be NULL.
--     Describe  cmd_describe_command, with cmd_entry_function_desc and desc_unique_string; the loop over
--               the words in front is that of Execute. Promise, here and in Complete, says what is
--               returned, with keywords and placeholders described on their own in Entry.
--     Execute   cmd_execute_command and cmd_execute_command_strict. What `func` points at is a type
--               parameter, and `calls e argv` says that the function of e is called on argv.
--   Session   wgshell/vtysh/vty.h and command.h: struct vty, struct host, enum node_type; the state of the
--             shell is the record Session. A call ends as a Step: undefined, out of the process, or
--             returned. What is printed, and the programs that a handler calls, are not in the state.
--     Common    wgshell/vtysh/cmd/cmd_common.c: enable, disable, exit, configure terminal, hostname and
--               no hostname.
--     Portmap   wgshell/vtysh/cmd/cmd_fw.c: sfirewall_nat_portmap and no_sfirewall_nat_portmap, with the
--               arguments in a record, and a line that overflows its buffer as an undefined step.
--     Bridge    wgshell/vtysh/cmd/cmd_bridge.c: bridge_add and no_bridge_add. What system returns is a
--               parameter that may depend on the commands that ran before.
--     Shell     wgshell/vtysh/vtysh.c: vtysh_execute_func, in_is_valid_password and vtysh_execute, with
--               crypt, the handlers of the other files and the command vectors as parameters.
--     Readline  wgshell/vtysh/vtysh.c: vtysh_rl_describe as the lines that it prints, command_generator
--               and new_completion as what they hand to readline, and vtysh_prompt.
--     File      wgshell/vtysh/vtysh_config.c, config_dump, and vtysh.c, vtysh_config_from_file: the bytes
--               of the file, cut by fgets into buffers of VTY_BUFSIZ.
--   Config    wgshell/vtysh/vtysh_config.c and linklist.c: config_top, and config_add_line,
--             config_del_line, config_del_line_byleft and config_get_line_byleft on it.
--   Cmd       wgshell/vtysh/cmd, the handlers with the programs they run: the state World is the session
--             and the list of the requests to the system, and the answers of the system are the
--             parameter System. ENSURE_CONFIG of vtysh_config.h is ensure_config. What is printed is
--             left out.
--     Ip        cmd_ip.c: ip_address, no_ip_address, ip_address_dhcp, ip_route, no_ip_route, config_dns
--               and config_no_dns.
--     Vpn       cmd_vpn.c: the four handlers wg_peer_..., no_wg_peer, wg_link, wg_rekey and wg_clearkey,
--               and wg_listenport in Vpn/Listen. Vpn/Spec is the finite map that the handlers on peers implement.
--     Fw/Rule   cmd_fw.c: sfirewall_filter_rules and no_sfirewall_filter_rules, with their checks.
--     Fw/Apply  cmd_fw.c: apply_firewall_rules and the two handlers that apply rules. The file of the
--               rules is its bytes, and the sections are what fprintf writes. Apply/Text is what a section says.
--     Report    cmd_common.c, cmd_bridge.c and cmd_tool.c: the status of write file, show startup-config,
--               show bridge mac and the handlers that return cmd_execute_system_command.
--     Tool      cmd_tool.c: the handlers that check an argument or ask.
--     Bridge    cmd_bridge.c: bridge_disable and no_bridge_disable.
--   Program   the whole shell: the handlers of all files on argv (handle), the DEFUNs (Commands), and
--             cmd_parse_init of wgshell/vtysh/cmd_init.c (Install), and main of vtysh_main.c (Main). Saved is a language of
--             configuration lines for which writing and loading is stated, and Climb is what the commands
--             below the configuration node leave as it is. No command that is installed sets the enable
--             password, so that the prompt for it, which Shell models, is not reached.
--   Tests     the definitions and theorems on commands of wgshell/vtysh/cmd/cmd_common.c.
--
-- A command vector is a list of slots, and an empty slot is the NULL that the filters write. A read
-- outside a vector is a value of the model, `fault`, `out_of_bounds` or `bad_read`. A byte is a number
-- below 256; the characters of the source are ASCII, and the locale is "C". A text that sprintf writes
-- behind its buffer makes the call undefined; snprintf cuts it. Theorems on handlers bound an argument to
-- 200 bytes, with which every command line of theirs fits its buffer of 1024 or 2048 bytes.
--
-- The loops over a string and a vector are recursions on it. Three run on fuel: words_of on the length
-- of the line, descvec_loop on the length of the specification and one more, and read_lines on the
-- length of the file; each round takes a byte at least. Machine words: atoi keeps the 32 bits of an int, strtoul the 64 bits of an
-- unsigned long.
--
-- Not modelled: the sorting of the commands of a node, readline itself, forking and pipes, the show
-- commands and what write file prints, of which only the status is kept, and the programs in other languages beside the shell.
pub mod Base
pub mod Text
pub mod Config
pub mod Match
pub mod Command
pub mod Session
pub mod Cmd
pub mod Program
mod Tests
