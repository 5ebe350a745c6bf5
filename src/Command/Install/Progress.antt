-- ===== src/Command/Install/Progress.antt =====
-- A round of the loop of `cmd_make_descvec` takes a byte of the specification.
use mathlib.Core.Path.{subst}
use mathlib.Core.Option.{some-injective}
use qr_wireguard_ui.Base.{
  ℕ, ◌≤◌, ◌<◌, Bool, false, ◌||◌, ◌≡◌, ◌⊎◌, inl, inr, refl, none, some, [], ◌∷◌, ◌==◌, length,
  arith, ap, ◌∙◌, sym, Bool-cases, Option-cases,
}
use qr_wireguard_ui.Text.{CString, first, is_space, skip_spaces}
use qr_wireguard_ui.Command.Install.{ends_token, behind_token, eat, eat_bar, before_token}

-- A step over the text either takes a byte, or leaves it, and then its first byte fails a test.
abbrev Takes : (ℕ → Bool) → CString → CString → Type 0
Takes test before behind =
    (behind ≡ before) × (test (first before) ≡ false) ⊎ (length behind < length before)

Takes-trans :
    (p q : ℕ → Bool) (a b c : CString) → Takes p a b → Takes q b c → Takes (λ x. p x || q x) a c
Takes-trans p q a b c (inl (e, h)) (inl (f, k)) =
    inl (f ∙ e, rw h (ap (λ s. q (first s)) (sym e) ∙ k))
Takes-trans p q a b c (inl (e, h)) (inr lt) =
    inr (omega (arith, lt, ap (λ (s : CString). length s) e))
Takes-trans p q a b c (inr lt) (inl (f, k)) =
    inr (omega (arith, lt, ap (λ (s : CString). length s) f))
Takes-trans p q a b c (inr lt) (inr lt') = inr (omega arith)

skip-le : (s : CString) → length (skip_spaces s) ≤ length s
unfolding skip_spaces
skip-le [] = omega arith
skip-le (c ∷ s) = ground (arith, skip-le s)

skip-Takes : (s : CString) → Takes is_space s (skip_spaces s)
unfolding skip_spaces
skip-Takes [] = inl (refl, unfold is_space in refl)
skip-Takes (c ∷ s) = elim (Bool-cases (is_space c)) [
  | inl space ↦ inr (rw space (omega (arith, skip-le s)))
  | inr other ↦ inl (rw other refl, other)
]

eat-Takes :
    (c m : ℕ) (cp : CString) (multiple : ℕ)
    → (0 == c) ≡ false
    → Takes (λ x. x == c) cp (eat c m (cp, multiple)).0
unfolding eat
eat-Takes c m [] multiple nz = inl (refl, nz)
eat-Takes c m (d ∷ cp) multiple nz = elim (Bool-cases (d == c)) [
  | inl same ↦ inr (rw same (omega arith))
  | inr other ↦ inl (rw other refl, other)
]

eat_bar-Takes :
    (cp : CString) (multiple : ℕ) (r : CString × ℕ)
    → eat_bar (cp, multiple) ≡ some r
    → Takes (λ x. x == b'|') cp r.0
unfolding eat_bar
eat_bar-Takes [] multiple r h = inl (ground arith, refl)
eat_bar-Takes (d ∷ cp) multiple r h = elim (Bool-cases (d == b'|')) [
  | inl bar ↦ inr (ground arith)
  | inr other ↦ inl (ground arith, other)
]

-- The bytes that the punctuation in front of a token takes.
abbrev is_open : ℕ → Bool
is_open x = is_space x || x == b'('

abbrev is_closed : ℕ → Bool
is_closed x = is_open x || x == b')'

abbrev is_front : ℕ → Bool
is_front x = is_closed x || x == b'|'

abbrev is_punctuation : ℕ → Bool
is_punctuation x = is_front x || is_open x

opened-Takes :
    (m : ℕ) (cp : CString) (multiple : ℕ)
    → Takes is_open cp (eat b'(' m (skip_spaces cp, multiple)).0
opened-Takes m cp multiple =
    Takes-trans is_space (λ x. x == b'(') cp (skip_spaces cp) _ (skip-Takes cp)
      (eat-Takes b'(' m (skip_spaces cp) multiple refl)

closed-Takes :
    (cp : CString) (multiple : ℕ)
    → Takes is_closed cp (eat b')' 0 (eat b'(' 1 (skip_spaces cp, multiple))).0
closed-Takes cp multiple =
    let opened = eat b'(' 1 (skip_spaces cp, multiple) in
    Takes-trans is_open (λ x. x == b')') cp opened.0 _ (opened-Takes 1 cp multiple)
      (eat-Takes b')' 0 opened.0 opened.1 refl)

before_token-Takes :
    (cp : CString) (multiple : ℕ) (r : CString × ℕ)
    → before_token cp multiple ≡ some r
    → Takes is_punctuation cp r.0
unfolding before_token
before_token-Takes cp multiple r h =
    let closed = eat b')' 0 (eat b'(' 1 (skip_spaces cp, multiple)) in
    elim (Option-cases (eat_bar closed)) [
      | inl e ↦ nothing (rw (before_token, e) at h)
      | inr ((front, m), e) ↦
          let made : eat b'(' 1 (skip_spaces front, m) ≡ r =
            some-injective (eat b'(' 1 (skip_spaces front, m)) r (rw (before_token, e) at h) in
          subst (λ (x : CString × ℕ). Takes is_punctuation cp x.0) made
            (Takes-trans is_front is_open cp front _
              (Takes-trans is_closed (λ x. x == b'|') cp closed.0 front (closed-Takes cp multiple)
                (eat_bar-Takes closed.0 closed.1 (front, m) e))
              (opened-Takes 1 front m))
    ]
  where
    nothing : none ≡ some r → Takes is_punctuation cp r.0
    nothing bad = absurd (ground arith)

behind-le : (s : CString) → length (behind_token s) ≤ length s
unfolding behind_token
behind-le [] = omega arith
behind-le (c ∷ s) = ground (arith, behind-le s)

behind-lt :
    (c : ℕ) (s : CString) → ends_token c ≡ false → length (behind_token (c ∷ s)) < length (c ∷ s)
unfolding behind_token
behind-lt c s h = rw h (omega (arith, behind-le s))

unpunctuated : (c : ℕ) → is_punctuation c ≡ false → ends_token c ≡ false
unfolding ends_token is_space
unpunctuated c h = ground arith

-- A round takes at least a byte: a byte of punctuation, or the first of the token.
pub round-lt :
    (cp : CString) (multiple c : ℕ) (sp : CString) (m : ℕ)
    → before_token cp multiple ≡ some (c ∷ sp, m)
    → length (behind_token (c ∷ sp)) < length cp
round-lt cp multiple c sp m h = elim (before_token-Takes cp multiple (c ∷ sp, m) h) [
  | inl (same, other) ↦ omega (
    arith,
    ap (λ (s : CString). length s) same,
    behind-lt c sp (unpunctuated c (ap (λ (s : CString). is_punctuation (first s)) same ∙ other)),
  )
  | inr less ↦ omega (arith, less, behind-le (c ∷ sp))
]
