-- ===== src/Command/Filter/Sound.antt =====
-- What the filters keep: elements that were there, with a token at the position that takes the
-- word; and what a final match type of `vararg_match` says of them.
use qr_wireguard_ui.Base.{
  Bool, true, false, not, ◌≡◌, ◌⊎◌, inl, inr, refl, Option, none, some, arith, if◌then◌else◌, ◌==◌,
  inl, inr,
}
use qr_wireguard_ui.Text.{CString, str_eq, starts_with}
use qr_wireguard_ui.Match.{
  MatchType, no_match, rank, raise_to, extend_match, ipv4_prefix_match, ipv4_match, ipv6_match,
  range_match, partly_match, exact_match,
}
use qr_wireguard_ui.Match.Ipv4.{cmd_ipv4_match}
use qr_wireguard_ui.Match.Ipv4Prefix.{cmd_ipv4_prefix_match}
use qr_wireguard_ui.Match.Ipv6.{cmd_ipv6_match}
use qr_wireguard_ui.Command.{cmd_vararg}
use qr_wireguard_ui.Command.Spec.{
  Accepts, accepts_completion, accepts_string, takes_completion, takes_string, is_no_match,
  is_exact_match,
}
use qr_wireguard_ui.Command.Filter.{
  Kind, vararg, range, ipv6, ipv6_prefix, ipv4, ipv4_prefix, extend, literal, kind, raise_if,
  take_completion, take_string, holds, is_exact, token_by_completion, token_by_string,
}

-- What the proofs use of the body for one token.
pub record TokenLaws (token : CString → MatchType → CString → Option MatchType) (accepts : Accepts)
    : Type 0 where
  pub takes :
      (word : CString) (m : MatchType) (str : CString) (m' : MatchType)
      → token word m str ≡ some m'
      → accepts word str ≡ true
  pub vararg :
      (word : CString) (m : MatchType) (str : CString) (m' : MatchType)
      → token word m str ≡ some m'
      → rank m' ≡ 7
      → (rank m ≡ 7) ⊎ (cmd_vararg str ≡ true)

holds_lem : (m : MatchType) → holds m ≡ not (is_no_match m)
unfolding rank
holds_lem no_match = refl
holds_lem _ = refl

is_exact_lem : (m : MatchType) → is_exact m ≡ is_exact_match m
unfolding rank
is_exact_lem no_match = refl
is_exact_lem _ = refl

-- Raising to another match type does not bring in `vararg_match`.
raise_other :
    (t m m' : MatchType)
    → (rank t == 7) ≡ false
    → some (raise_to t m) ≡ some m'
    → rank m' ≡ 7
    → rank m ≡ 7
unfolding raise_to
raise_other t m m' ne h r = ground arith

raise_if_other :
    (b : Bool) (t m m' : MatchType)
    → (rank t == 7) ≡ false
    → raise_if b t m ≡ some m'
    → rank m' ≡ 7
    → rank m ≡ 7
raise_if_other true t m m' ne h r = raise_other t m m' ne h r
raise_if_other false t m m' ne h r = ground arith

literal_other :
    (b c : Bool) (m m' : MatchType)
    → (if b then some (if c then exact_match else raise_to partly_match m) else none) ≡ some m'
    → rank m' ≡ 7
    → rank m ≡ 7
unfolding rank
literal_other false c m m' h r = ground arith
literal_other true true m m' h r = ground arith
literal_other true false m m' h r = raise_other partly_match m m' refl h r

module _ (word str : CString) (m m' : MatchType) where
  completion_takes :
      (k : Kind) → take_completion k word m str ≡ some m' → takes_completion k word str ≡ true
  unfolding take_completion takes_completion
  completion_takes ipv6 h = ground (arith, holds_lem (cmd_ipv6_match (some word)))
  completion_takes ipv4 h = ground (arith, holds_lem (cmd_ipv4_match (some word)))
  completion_takes ipv4_prefix h = ground (arith, holds_lem (cmd_ipv4_prefix_match (some word)))
  completion_takes _ h = ground arith

  string_takes : (k : Kind) → take_string k word m str ≡ some m' → takes_string k word str ≡ true
  unfolding take_string takes_string
  string_takes ipv6 h = ground (arith, is_exact_lem (cmd_ipv6_match (some word)))
  string_takes ipv4 h = ground (arith, is_exact_lem (cmd_ipv4_match (some word)))
  string_takes ipv4_prefix h = ground (arith, is_exact_lem (cmd_ipv4_prefix_match (some word)))
  string_takes _ h = ground arith

  completion_vararg :
      (k : Kind)
      → take_completion k word m str ≡ some m'
      → rank m' ≡ 7
      → (rank m ≡ 7) ⊎ (k ≡ vararg)
  unfolding take_completion rank
  completion_vararg vararg h r = inr refl
  completion_vararg range h r = inl (raise_if_other _ range_match m m' refl h r)
  completion_vararg ipv6 h r = inl (raise_if_other _ ipv6_match m m' refl h r)
  completion_vararg ipv6_prefix h r = ground arith
  completion_vararg ipv4 h r = inl (raise_if_other _ ipv4_match m m' refl h r)
  completion_vararg ipv4_prefix h r = inl (raise_if_other _ ipv4_prefix_match m m' refl h r)
  completion_vararg extend h r = inl (raise_other extend_match m m' refl h r)
  completion_vararg literal h r =
      inl (literal_other (starts_with word str) (str_eq word str) m m' h r)

  string_vararg :
      (k : Kind) → take_string k word m str ≡ some m' → rank m' ≡ 7 → (rank m ≡ 7) ⊎ (k ≡ vararg)
  unfolding take_string rank
  string_vararg vararg h r = inr refl
  string_vararg range h r = inl (raise_if_other _ range_match m m' refl h r)
  string_vararg ipv6 h r = inl (raise_if_other _ ipv6_match m m' refl h r)
  string_vararg ipv6_prefix h r = ground arith
  string_vararg ipv4 h r = inl (raise_if_other _ ipv4_match m m' refl h r)
  string_vararg ipv4_prefix h r = inl (raise_if_other _ ipv4_prefix_match m m' refl h r)
  string_vararg extend h r = inl (raise_other extend_match m m' refl h r)
  string_vararg literal h r = literal_exact (str_eq word str) h r
    where
      literal_exact :
          (b : Bool)
          → (if b then some exact_match else none) ≡ some m'
          → rank m' ≡ 7
          → (rank m ≡ 7) ⊎ (literal ≡ vararg)
      literal_exact b h r = ground arith

kind_vararg : (str : CString) → kind str ≡ vararg → cmd_vararg str ≡ true
unfolding kind
kind_vararg str h = ground arith

kind_vararg_or :
    (str : CString) {A : Type 0} → A ⊎ (kind str ≡ vararg) → A ⊎ (cmd_vararg str ≡ true)
kind_vararg_or str (inl a) = inl a
kind_vararg_or str (inr h) = inr (kind_vararg str h)

pub completion_laws : TokenLaws token_by_completion accepts_completion
unfolding token_by_completion accepts_completion
completion_laws = record {
  takes = λ word m str m' h. completion_takes word str m m' (kind str) h;
  vararg = λ word m str m' h r. kind_vararg_or str (completion_vararg word str m m' (kind str) h r);
}

pub string_laws : TokenLaws token_by_string accepts_string
unfolding token_by_string accepts_string
string_laws = record {
  takes = λ word m str m' h. string_takes word str m m' (kind str) h;
  vararg = λ word m str m' h r. kind_vararg_or str (string_vararg word str m m' (kind str) h r);
}
