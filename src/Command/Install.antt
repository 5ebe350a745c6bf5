-- ===== src/Command/Install.antt =====
-- `cmd_make_descvec`, `cmd_cmdsize` and `cmd_install_element`: a command's specification string as
-- the tokens of its positions.
pub mod Progress
pub mod Fuel
use qr_wireguard_ui.Base.{
  ℕ, zero, suc, ◌+◌, Bool, true, false, not, ◌||◌, Option, none, some, List, [], ◌∷◌, ◌++◌, ◌==◌,
  length, if◌then◌else◌,
}
use qr_wireguard_ui.Text.{CString, first, is_space, skip_spaces}
use qr_wireguard_ui.Command.{Desc, CmdElement, cmd_option}

abbrev is_eol : ℕ → Bool
is_eol c = c == 13 || c == 10

-- Up to the end of the line, and what is behind.
unfoldable pub desc_line : CString → CString
desc_line [] = []
desc_line (c ∷ s) = let rest = desc_line s in if is_eol c then [] else c ∷ rest

unfoldable pub behind_line : CString → CString
behind_line [] = []
behind_line (c ∷ s) = let rest = behind_line s in if is_eol c then c ∷ s else rest

-- `cmd_desc_str`: the next description, and the new `*string`.
unfoldable pub cmd_desc_str : CString → Option CString × CString
unfolding desc_line behind_line skip_spaces
cmd_desc_str string = elim (skip_spaces string) [
  | [] ↦ (none, string)
  | c ∷ s ↦ (some (desc_line (c ∷ s)), behind_line (c ∷ s))
]

unfoldable pub ends_token : ℕ → Bool
unfolding is_space
ends_token c = is_space c || c == 13 || c == 10 || c == b')' || c == b'|'

unfoldable pub token_of : CString → CString
unfolding ends_token
token_of [] = []
token_of (c ∷ s) = let rest = token_of s in if ends_token c then [] else c ∷ rest

unfoldable pub behind_token : CString → CString
unfolding ends_token
behind_token [] = []
behind_token (c ∷ s) = let rest = behind_token s in if ends_token c then c ∷ s else rest

-- `cp` and `multiple` after `if (*cp == c) { multiple = m; cp++; }`.
unfoldable pub eat : ℕ → ℕ → CString × ℕ → CString × ℕ
eat c m ([], multiple) = ([], multiple)
eat c m (d ∷ cp, multiple) = if d == c then (cp, m) else (d ∷ cp, multiple)

-- `if (*cp == '|') { if (! multiple) exit (1); cp++; }`; `none` is the exit.
unfoldable pub eat_bar : CString × ℕ → Option (CString × ℕ)
eat_bar ([], multiple) = some ([], multiple)
eat_bar (d ∷ cp, multiple) =
    if d == b'|'
    then (if multiple == 0 then none else some (cp, multiple))
    else some (d ∷ cp, multiple)

-- The punctuation in front of a token.
unfoldable pub before_token : CString → ℕ → Option (CString × ℕ)
unfolding eat eat_bar skip_spaces
before_token cp multiple = elim (eat_bar (eat b')' 0 (eat b'(' 1 (skip_spaces cp, multiple)))) [
  | none ↦ none
  | some (cp', multiple') ↦ some (eat b'(' 1 (skip_spaces cp', multiple'))
]

-- `vector_set` on the vector that `strvec` points at, the last of `allvec`.
unfoldable pub set_last : List (List Desc) → Desc → List (List Desc)
set_last [] desc = []
set_last (strvec ∷ []) desc = (strvec ++ (desc ∷ [])) ∷ []
set_last (strvec ∷ next ∷ rest) desc = strvec ∷ set_last (next ∷ rest) desc

-- How the parse ends; `out_of_fuel` is the model's own.
pub data Parsed : Type 0 where
  out_of_fuel exits : Parsed
  made : List (List Desc) → Parsed

-- The token goes into a vector of its own, or into that of its group.
unfoldable pub add_desc : List (List Desc) → ℕ → Desc → List (List Desc)
unfolding set_last
add_desc allvec zero desc = allvec ++ ((desc ∷ []) ∷ [])
add_desc allvec (suc zero) desc = allvec ++ ((desc ∷ []) ∷ [])
add_desc allvec (suc (suc m)) desc = set_last allvec desc

unfoldable pub descvec_loop : ℕ → CString → CString → ℕ → List (List Desc) → Parsed
unfolding before_token token_of behind_token cmd_desc_str add_desc
descvec_loop zero cp dp multiple allvec = out_of_fuel
descvec_loop (suc fuel) cp dp multiple allvec = elim (before_token cp multiple) [
  | none ↦ exits
  | some ([], multiple') ↦ made allvec
  | some (c ∷ sp, multiple') ↦
      let (str, dp') = cmd_desc_str dp in
      descvec_loop fuel (behind_token (c ∷ sp)) dp' (if multiple' == 0 then 0 else multiple' + 1)
        (add_desc allvec multiple' (record { cmd = token_of (c ∷ sp); str = str }))
]

unfoldable pub cmd_make_descvec : CString → CString → Parsed
unfolding descvec_loop
cmd_make_descvec string descstr = descvec_loop (suc (length string)) string descstr 0 []

-- The number of positions before the first one that is a single optional token.
unfoldable pub cmd_cmdsize : List (List Desc) → ℕ
cmd_cmdsize [] = 0
cmd_cmdsize ((desc ∷ []) ∷ strvec) =
    let size = suc (cmd_cmdsize strvec) in if cmd_option desc.cmd then 0 else size
cmd_cmdsize (descvec ∷ strvec) = suc (cmd_cmdsize strvec)

-- `cmd_install_element` on the command vector of its node, which has no empty slot; `none` is the
-- exit of a specification that does not parse.
module _ {F : Type 0} where
  abbrev install_parsed :
      List (Option (CmdElement F)) → CmdElement F → Parsed → Option (List (Option (CmdElement F)))
  install_parsed cmd_vector cmd (made strvec) =
      some
        (cmd_vector ++ (some (record cmd { strvec = strvec; cmdsize = cmd_cmdsize strvec }) ∷ []))
  install_parsed cmd_vector cmd _ = none

  unfoldable pub cmd_install_element :
      List (Option (CmdElement F)) → CmdElement F → Option (List (Option (CmdElement F)))
  unfolding cmd_make_descvec cmd_cmdsize
  cmd_install_element cmd_vector cmd =
      install_parsed cmd_vector cmd (cmd_make_descvec cmd.string cmd.doc)
