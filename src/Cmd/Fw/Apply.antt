-- ===== src/Cmd/Fw/Apply.antt =====
-- `sfirewall nat portmap apply` and `sfirewall filter apply`: the rules of a text file become the
-- sections of a file of the firewall.
pub mod Buffers
pub mod Text
pub mod Redirects
pub mod Sections
pub mod Handlers
use qr_wireguard_ui.Base.{
  ℕ, zero, suc, ◌+◌, Bool, true, false, not, ◌||◌, Option, none, some, List, [], ◌∷◌, ◌++◌, ◌==◌,
  ltb, leb, length, take, if◌then◌else◌,
}
use mathlib.Core.Option
use qr_wireguard_ui.Text.{CString, codes, str_eq, starts_with, print_int}
use qr_wireguard_ui.Text.Strtok.{strtok}
use qr_wireguard_ui.Command.{Code, cmd_success, cmd_warning}
use qr_wireguard_ui.Session.File.{read_lines}
use qr_wireguard_ui.Cmd.{
  World, Request, write, System, M, pure, ◌>>=◌, ◌>>◌, concat, call, write_file,
}

-- `xbuf[strlen (xbuf) - 1] = '\0';`
unfoldable pub chop : CString → CString
chop [] = []
chop (c ∷ []) = []
chop (c ∷ d ∷ s) = c ∷ chop (d ∷ s)

abbrev drop : ℕ → CString → CString
drop zero s = s
drop (suc n) [] = []
drop (suc n) (c ∷ s) = drop n s

-- The calls of `strtok` with a `sprintf` into `param[i]` after each: a buffer is too small, a
-- `strtok` returns NULL, or all buffers are filled.
pub data Params : Type 0 where
  overrun missing : Params
  filled : List CString → Params

abbrev any_long : ℕ → List CString → Bool
any_long size [] = false
any_long size (s ∷ rest) = leb size (length s) || any_long size rest

unfoldable pub params : ℕ → ℕ → List CString → Params
params count size tokens =
    if any_long size (take count tokens)
    then overrun
    else if ltb (length (take count tokens)) count
    then missing
    else filled (take count tokens)

-- What is behind `sfirewall ...` and one more byte.
unfoldable pub behind : CString → CString → CString
behind head xbuf = drop (length head + 1) xbuf

abbrev pub eol : CString
eol = 10 ∷ []

-- `fprintf (wfp, "       option NAME 'VALUE'\n")`
abbrev pub option : CString → CString → CString
option name value = name ++ (codes "'" ++ (value ++ (codes "'" ++ eol)))

abbrev pub unless_word : CString → CString → CString → CString
unless_word word value text = if str_eq value word then [] else text

-- The section of a port forwarding rule.
unfoldable pub redirect : List CString → CString
redirect (num ∷ interface ∷ address ∷ protocol ∷ port1 ∷ port2 ∷ []) = concat (
    codes "config redirect\n"
    ∷ codes "       option target          'DNAT'\n"
    ∷ option (codes "       option src             ") interface
    ∷ codes "       option dest            'lan'\n"
    ∷ option (codes "       option proto           ") protocol
    ∷ unless_word (codes "0") port1 (option (codes "       option src_dport       ") port1)
    ∷ option (codes "       option dest_ip         ") address
    ∷ unless_word (codes "0") port2 (option (codes "       option dest_port       ") port2)
    ∷ codes "       option enabled         '1'\n"
    ∷ codes "\n"
    ∷ [])
redirect _ = []

abbrev pub portmap_head : CString
portmap_head = codes "sfirewall nat portmap"

abbrev redirect_of : Params → Option CString
redirect_of overrun = none
redirect_of missing = some []
redirect_of (filled param) = some (redirect param)

-- The body of the loop on what `fgets` reads.
unfoldable pub portmap_body : CString → Option CString
portmap_body buf =
    let xbuf = chop buf in
    if starts_with portmap_head xbuf
    then redirect_of (params 6 32 (strtok b' ' (behind portmap_head xbuf)))
    else some []

unfoldable pub portmap_loop : List CString → Option CString
portmap_loop [] = some []
portmap_loop (buf ∷ rest) =
    Option.bind (portmap_body buf) (λ text. Option.map (λ more. text ++ more) (portmap_loop rest))

-- `while (fgets (xbuf, 1024, rfp))`, and the line in front of all.
unfoldable pub portmap_sections : CString → Option CString
portmap_sections file =
    Option.map (λ text. eol ++ text) (portmap_loop (read_lines 1023 (length file) file))

-- The section of a filter rule; of `insert` or `append` and of the direction nothing is written.
abbrev zone_options : CString → CString
zone_options zone =
    if str_eq zone (codes "lan2wan")
    then codes "        option src 'lan'\n        option dest 'wan'\n"
    else if str_eq zone (codes "wan2lan")
    then codes "        option src 'wan'\n        option dest 'lan'\n"
    else []

abbrev action_text : ℕ → CString
action_text zero = codes "ACCEPT"
action_text (suc zero) = codes "DROP"
action_text _ = codes "REJECT"

-- `action_index`, which keeps its value if the word is none of the three.
unfoldable pub action_index : CString → ℕ → ℕ
action_index action index =
    if str_eq action (codes "permit")
    then 0
    else if str_eq action (codes "deny")
    then 1
    else if str_eq action (codes "reject")
    then 2
    else index

unfoldable pub bars_to_blanks : CString → CString
bars_to_blanks [] = []
bars_to_blanks (c ∷ s) = (if c == b'|' then b' ' else c) ∷ bars_to_blanks s

unfoldable pub rule_section : List CString → ℕ → ℕ → CString
unfolding bars_to_blanks print_int
rule_section
      (num ∷ zone ∷ direction ∷ position ∷ action ∷ protocol ∷ sip ∷ sport ∷ dip ∷ dport ∷ day
        ∷ from ∷ to ∷ [])
      index count =
    concat (
      codes "config rule\n"
      ∷ zone_options zone
      ∷ option (codes "        option proto ") protocol
      ∷ codes "        option family 'ipv4'\n"
      ∷ option (codes "        option src_ip ") sip
      ∷ unless_word (codes "any") sport (option (codes "        option src_port ") sport)
      ∷ option (codes "        option dest_ip ") dip
      ∷ unless_word (codes "any") dport (option (codes "        option dest_port ") dport)
      ∷ unless_word (codes "any") (bars_to_blanks day)
          (option (codes "        option weekdays ") (bars_to_blanks day))
      ∷ unless_word (codes "any") from (
          option (codes "        option start_time ") from
          ++ option (codes "        option stop_time ") to)
      ∷ option (codes "        option target ") (action_text index)
      ∷ option (codes "        option name ") (codes "SFIREWALL_FILTER" ++ print_int count)
      ∷ codes "        option enabled '1'\n"
      ∷ codes "\n"
      ∷ [])
rule_section _ index count = []

abbrev action_of : List CString → CString
action_of (num ∷ zone ∷ direction ∷ position ∷ action ∷ rest) = action
action_of _ = []

abbrev pub filter_head : CString
filter_head = codes "sfirewall filter"

unfoldable pub filter_params : CString → Params
filter_params buf =
    let xbuf = chop buf in
    if starts_with filter_head xbuf
    then params 13 64 (strtok b' ' (behind filter_head xbuf))
    else missing

-- A round of the loop, with `action_index` and `count`, and the rounds behind it.
abbrev pub filter_round : Params → ℕ → ℕ → (ℕ → ℕ → Option CString) → Option CString
filter_round overrun index count rest = none
filter_round missing index count rest = rest index count
filter_round (filled param) index count rest =
    let index' = action_index (action_of param) index in
    Option.map (λ more. rule_section param index' count ++ more) (rest index' (count + 1))

unfoldable pub filter_loop : List CString → ℕ → ℕ → Option CString
filter_loop [] index count = some []
filter_loop (buf ∷ rest) index count =
    filter_round (filter_params buf) index count (filter_loop rest)

unfoldable pub filter_sections : CString → Option CString
filter_sections file =
    Option.map (λ text. eol ++ text) (filter_loop (read_lines 1023 (length file) file) 0 0)
