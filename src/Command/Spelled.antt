-- ===== src/Command/Spelled.antt =====
-- A line of keywords that are spelled out: the elements that have each word as a keyword at its
-- position, and how either filter finds an exact match among them.
pub mod Kept
pub mod Filtered
pub mod Agree
pub mod Before
pub mod Runs
use qr_wireguard_ui.Base.{
  ℕ, ◌+◌, ◌≤◌, Bool, true, false, not, ◌&&◌, ◌||◌, ◌≡◌, ◌⊎◌, inl, inr, refl, ap, ◌∙◌, Option, none,
  some, List, [], ◌∷◌, ◌==◌, arith, get_elem?, leb, if◌then◌else◌, Bool-cases, Option-cases,
}
use qr_wireguard_ui.Text.{CString, codes, str_eq, starts_with, first}
use qr_wireguard_ui.Text.Laws.{str_eq_iff, str_eq_refl, starts_with_refl}
use qr_wireguard_ui.Match.{
  MatchType, exact_match, rank, raise_to, extend_match, ipv4_prefix_match, ipv4_match, ipv6_match,
  range_match, vararg_match, partly_match,
}
use qr_wireguard_ui.Command.{
  Desc, CmdElement, cmd_vararg, cmd_range, cmd_ipv6, cmd_ipv6_prefix, cmd_ipv4, cmd_ipv4_prefix,
  cmd_option, cmd_variable,
}
use qr_wireguard_ui.Command.Filter.{
  Kind, literal, kind, raise_if, take_completion, take_string, token_by_completion, token_by_string,
  vararg, range, ipv6, ipv6_prefix, ipv4, ipv4_prefix, extend,
}

-- The word is the token, which is a keyword.
unfoldable pub is_spelled : CString → CString → Bool
is_spelled word str = not (cmd_option str || cmd_variable str) && str_eq word str

unfoldable pub any_spelled : CString → List Desc → Bool
any_spelled word [] = false
any_spelled word (desc ∷ rest) = is_spelled word desc.cmd || any_spelled word rest

-- The word is a keyword at position `index` of the element.
unfoldable pub spelled_at : {F : Type 0} → CString → ℕ → CmdElement F → Bool
unfolding any_spelled
spelled_at word index e = elim (get_elem? e.strvec index) [
  | none ↦ false
  | some descvec ↦ any_spelled word descvec
]

-- What the proof uses of the body for one token.
pub record SpelledLaws (token : CString → MatchType → CString → Option MatchType) : Type 0 where
  pub exact :
      (word : CString) (m : MatchType) (str : CString)
      → cmd_vararg word ≡ false
      → is_spelled word str ≡ true
      → token word m str ≡ some exact_match
  pub stays :
      (word str : CString)
      → (token word exact_match str ≡ none) ⊎ (token word exact_match str ≡ some exact_match)

raise_exact : (t : MatchType) → raise_to t exact_match ≡ exact_match
unfolding raise_to rank
raise_exact exact_match = refl
raise_exact _ = refl

not_constant :
    (str k : CString) → cmd_variable k ≡ true → cmd_variable str ≡ false → str_eq str k ≡ false
not_constant str k up down = elim (Bool-cases (str_eq str k)) [
  | inl same ↦ absurd (ground (arith, up, down, ap cmd_variable ((str_eq_iff str k).0 same)))
  | inr other ↦ other
]

-- The tokens that stand for addresses begin with a capital letter.
capitals :
    (cmd_variable (codes "X:X::X:X") ≡ true)
    × (cmd_variable (codes "X:X::X:X/M") ≡ true)
    × (cmd_variable (codes "A.B.C.D") ≡ true)
    × (cmd_variable (codes "A.B.C.D/M") ≡ true)
unfolding cmd_variable
capitals = (refl, refl, refl, refl)

no_range : (str : CString) → cmd_variable str ≡ false → cmd_range str ≡ false
unfolding cmd_variable cmd_range
no_range str up = ground arith

spelled-kind :
    (str : CString)
    → cmd_vararg str ≡ false
    → cmd_option str ≡ false
    → cmd_variable str ≡ false
    → kind str ≡ literal
unfolding kind cmd_ipv4 cmd_ipv4_prefix cmd_ipv6 cmd_ipv6_prefix
spelled-kind str v o up = ground (
  arith,
  no_range str up,
  not_constant str (codes "X:X::X:X") capitals.0 up,
  not_constant str (codes "X:X::X:X/M") capitals.1 up,
  not_constant str (codes "A.B.C.D") capitals.2 up,
  not_constant str (codes "A.B.C.D/M") capitals.3 up,
)

is_spelled_lem :
    (word str : CString)
    → is_spelled word str ≡ true
    → (word ≡ str) × (cmd_option str ≡ false) × (cmd_variable str ≡ false)
unfolding is_spelled
is_spelled_lem word str h = ground (arith, str_eq_iff word str)

take_completion_exact :
    (k : Kind) (str : CString)
    → k ≡ literal
    → (m : MatchType) → take_completion k str m str ≡ some exact_match
unfolding take_completion
take_completion_exact k str h m = rw h (rw (starts_with_refl str, str_eq_refl str) refl)

take_string_exact :
    (k : Kind) (str : CString)
    → k ≡ literal
    → (m : MatchType) → take_string k str m str ≡ some exact_match
unfolding take_string
take_string_exact k str h m = rw h (rw (str_eq_refl str) refl)

abbrev Stays : Option MatchType → Type 0
Stays o = (o ≡ none) ⊎ (o ≡ some exact_match)

some-Stays : (m : MatchType) → m ≡ exact_match → Stays (some m)
some-Stays m h = inr (ap some h)

raise_if-Stays : (b : Bool) (t : MatchType) → Stays (raise_if b t exact_match)
raise_if-Stays true t = some-Stays _ (raise_exact t)
raise_if-Stays false t = inl refl

prefix-Stays :
    (b c : Bool)
    → Stays
        (if b then some (if c then exact_match else raise_to partly_match exact_match) else none)
prefix-Stays false c = inl refl
prefix-Stays true true = inr refl
prefix-Stays true false = some-Stays _ (raise_exact partly_match)

equal-Stays : (b : Bool) → Stays (if b then some exact_match else none)
equal-Stays false = inl refl
equal-Stays true = inr refl

take_completion-Stays :
    (k : Kind) (word str : CString) → Stays (take_completion k word exact_match str)
unfolding take_completion
take_completion-Stays vararg word str = some-Stays _ (raise_exact vararg_match)
take_completion-Stays range word str = raise_if-Stays _ range_match
take_completion-Stays ipv6 word str = raise_if-Stays _ ipv6_match
take_completion-Stays ipv6_prefix word str = inl refl
take_completion-Stays ipv4 word str = raise_if-Stays _ ipv4_match
take_completion-Stays ipv4_prefix word str = raise_if-Stays _ ipv4_prefix_match
take_completion-Stays extend word str = some-Stays _ (raise_exact extend_match)
take_completion-Stays literal word str = prefix-Stays (starts_with word str) (str_eq word str)

take_string-Stays : (k : Kind) (word str : CString) → Stays (take_string k word exact_match str)
unfolding take_string
take_string-Stays vararg word str = some-Stays _ (raise_exact vararg_match)
take_string-Stays range word str = raise_if-Stays _ range_match
take_string-Stays ipv6 word str = raise_if-Stays _ ipv6_match
take_string-Stays ipv6_prefix word str = inl refl
take_string-Stays ipv4 word str = raise_if-Stays _ ipv4_match
take_string-Stays ipv4_prefix word str = raise_if-Stays _ ipv4_prefix_match
take_string-Stays extend word str = some-Stays _ (raise_exact extend_match)
take_string-Stays literal word str = equal-Stays (str_eq word str)

pub completion-SpelledLaws : SpelledLaws token_by_completion
unfolding token_by_completion
completion-SpelledLaws = record {
  exact = λ word m str v h.
      let (same, o, up) = is_spelled_lem word str h in
      rw same (take_completion_exact (kind str) str (spelled-kind str (rw same at v) o up) m);
  stays = λ word str. take_completion-Stays (kind str) word str;
}

pub string-SpelledLaws : SpelledLaws token_by_string
unfolding token_by_string
string-SpelledLaws = record {
  exact = λ word m str v h.
      let (same, o, up) = is_spelled_lem word str h in
      rw same (take_string_exact (kind str) str (spelled-kind str (rw same at v) o up) m);
  stays = λ word str. take_string-Stays (kind str) word str;
}
