-- ===== src/Command/Complete/Entry.antt =====
-- Which tokens may complete what is typed: `cmd_entry_function` in terms of the text of a token.
use qr_wireguard_ui.Base.{
  ◌<◌, true, false, ◌≡◌, ◌≢◌, ◌⊎◌, inl, inr, ap, ◌∙◌, Option, none, some, ◌++◌, arith, Bool-cases,
}
use qr_wireguard_ui.Text.{CString, codes, first, str_eq, starts_with}
use qr_wireguard_ui.Text.Laws.{str_eq_iff, starts_with_split, starts_with-append}
use qr_wireguard_ui.Command.{
  cmd_option, cmd_variable, cmd_vararg, cmd_range, cmd_ipv4, cmd_ipv4_prefix,
}
use qr_wireguard_ui.Command.Complete.{cmd_entry_function}

-- A token that stands for itself: it begins with no bracket, capital letter or dot.
abbrev pub IsKeyword : CString → Type 0
IsKeyword token =
    (first token ≢ b'[')
    × (first token ≢ b'<')
    × (first token ≢ b'.')
    × ((first token < b'A') ⊎ (b'Z' < first token))

-- What is typed so far, which may be nothing, and the text that it goes on to.
abbrev pub GoesOn : Option CString → CString → Type 0
GoesOn none token = Unit
GoesOn (some typed) token = (rest : CString) × (token ≡ typed ++ rest)

capital-not_keyword : (token : CString) → first token ≡ b'A' → IsKeyword token → ⊥
capital-not_keyword token a (_, _, _, outside) = ground (arith, a, outside)

keyword-not_ipv4 : (token : CString) → IsKeyword token → cmd_ipv4 token ≡ false
unfolding cmd_ipv4
keyword-not_ipv4 token k = elim (Bool-cases (str_eq token (codes "A.B.C.D"))) [
  | inl same ↦ absurd (capital-not_keyword token (ap first ((str_eq_iff token _).0 same)) k)
  | inr other ↦ other
]

keyword-not_prefix : (token : CString) → IsKeyword token → cmd_ipv4_prefix token ≡ false
unfolding cmd_ipv4_prefix
keyword-not_prefix token k = elim (Bool-cases (str_eq token (codes "A.B.C.D/M"))) [
  | inl same ↦ absurd (capital-not_keyword token (ap first ((str_eq_iff token _).0 same)) k)
  | inr other ↦ other
]

-- A token is an entry just if it is a keyword that goes on from what is typed.
pub entry-IsKeyword :
    (src : Option CString) (token : CString)
    → cmd_entry_function src token ≡ true
    → IsKeyword token × GoesOn src token
unfolding cmd_entry_function cmd_option cmd_variable cmd_vararg cmd_range
entry-IsKeyword none token h = (ground (arith, h), tt)
entry-IsKeyword (some typed) token h =
    (ground (arith, h), starts_with_split typed token (ground (arith, h)))

pub keyword-IsEntry :
    (src : Option CString) (token : CString)
    → IsKeyword token
    → GoesOn src token
    → cmd_entry_function src token ≡ true
unfolding cmd_entry_function cmd_option cmd_variable cmd_vararg cmd_range
keyword-IsEntry none token k g =
    ground (arith, k, keyword-not_ipv4 token k, keyword-not_prefix token k)
keyword-IsEntry (some typed) token k (rest, split) =
    let begins : starts_with typed token ≡ true =
      ap (starts_with typed) split ∙ starts_with-append typed rest in
    ground (arith, k, begins, keyword-not_ipv4 token k, keyword-not_prefix token k)
