-- ===== src/Command/Describe/Entry.antt =====
-- Which tokens go with what is typed: `cmd_entry_function_desc` in terms of the text of a token.
use qr_wireguard_ui.Base.{
  ◌≤◌, Bool, true, false, ◌||◌, ◌≡◌, ◌≢◌, ◌⊎◌, inl, inr, refl, sym, ap, ◌∙◌, Option, none, some,
  ◌==◌, leb, arith, Bool-cases,
}
use qr_wireguard_ui.Text.{CString, codes, first, str_eq, starts_with}
use qr_wireguard_ui.Text.Laws.{str_eq_iff, starts_with_split, starts_with-append}
use qr_wireguard_ui.Match.{MatchType, no_match, rank}
use qr_wireguard_ui.Match.Ipv4.{cmd_ipv4_match}
use qr_wireguard_ui.Match.Ipv4Prefix.{cmd_ipv4_prefix_match}
use qr_wireguard_ui.Match.Ipv6.{cmd_ipv6_match}
use qr_wireguard_ui.Match.Range.{cmd_range_match}
use qr_wireguard_ui.Command.{
  cmd_option, cmd_variable, cmd_vararg, cmd_range, cmd_ipv4, cmd_ipv4_prefix, cmd_ipv6,
}
use qr_wireguard_ui.Command.Filter.{holds}
use qr_wireguard_ui.Command.Complete.Entry.{IsKeyword, GoesOn}
use qr_wireguard_ui.Command.Describe.{cmd_entry_function_desc}

-- A token of another kind than a keyword and a range: a variable argument, an option or a name in
-- capital letters.
abbrev pub IsPlaceholder : CString → Type 0
IsPlaceholder token =
    (first token ≡ b'.') ⊎ (first token ≡ b'[') ⊎ ((b'A' ≤ first token) × (first token ≤ b'Z'))

-- What is typed, or nothing, may stand for the token: a keyword goes on from it, a range holds it,
-- an address may begin with it, and any other placeholder takes all.
abbrev pub MayStand : Option CString → CString → Type 0
MayStand src token =
    IsKeyword token × GoesOn src token
    ⊎ (first token ≡ b'<') × (cmd_range_match token src ≡ true)
    ⊎ (token ≡ codes "X:X::X:X") × (cmd_ipv6_match src ≢ no_match)
    ⊎ (token ≡ codes "A.B.C.D") × (cmd_ipv4_match src ≢ no_match)
    ⊎ (token ≡ codes "A.B.C.D/M") × (cmd_ipv4_prefix_match src ≢ no_match)
    ⊎ IsPlaceholder token
      × (token ≢ codes "X:X::X:X")
      × (token ≢ codes "A.B.C.D")
      × (token ≢ codes "A.B.C.D/M")

holds-ne : (m : MatchType) → holds m ≡ true → m ≢ no_match
unfolding rank
holds-ne m h e =
    let same : false ≡ true = sym (ap (λ (x : MatchType). holds x) e) ∙ h in absurd (ground arith)

ne-holds : (m : MatchType) → m ≢ no_match → holds m ≡ true
unfolding rank
ne-holds no_match h = absurd (h refl)
ne-holds _ h = refl

str_ne : (s t : CString) → str_eq s t ≡ false → s ≢ t
str_ne s t h e = ground (arith, h, (str_eq_iff s t).1 e)

typed_begins-GoesOn :
    (src : Option CString) (token : CString)
    → (elim src as (λ x. Bool) [ none ↦ true | some s ↦ starts_with s token ]) ≡ true
    → GoesOn src token
typed_begins-GoesOn none token h = tt
typed_begins-GoesOn (some typed) token h = starts_with_split typed token h

GoesOn-typed_begins :
    (src : Option CString) (token : CString)
    → GoesOn src token
    → (elim src as (λ x. Bool) [ none ↦ true | some s ↦ starts_with s token ]) ≡ true
GoesOn-typed_begins none token g = refl
GoesOn-typed_begins (some typed) token (rest, split) =
    ap (starts_with typed) split ∙ starts_with-append typed rest

IsKeyword-or_not :
    (token : CString)
    → cmd_vararg token ≡ false
    → cmd_range token ≡ false
    → IsKeyword token ⊎ IsPlaceholder token
unfolding cmd_vararg cmd_range
IsKeyword-or_not token dot angle = elim (Bool-cases (first token == b'[')) [
  | inl bracket ↦ inr (inr (inl (ground (arith, bracket))))
  | inr other ↦ elim (Bool-cases (leb b'A' (first token))) [
    | inl above ↦ elim (Bool-cases (leb (first token) b'Z')) [
      | inl below ↦ inr (inr (inr (ground (arith, above, below))))
      | inr beyond ↦ inl (ground (arith, dot, angle, other, beyond))
    ]
    | inr under ↦ inl (ground (arith, dot, angle, other, under))
  ]
]

-- A keyword is none of the other kinds.
keyword_tests :
    (token : CString)
    → IsKeyword token
    → (cmd_vararg token ≡ false)
      × (cmd_range token ≡ false)
      × (cmd_option token ≡ false)
      × (cmd_variable token ≡ false)
unfolding cmd_vararg cmd_range cmd_option cmd_variable
keyword_tests token k = ground (arith, k)

placeholder_tests :
    (token : CString)
    → IsPlaceholder token
    → (cmd_range token ≡ false)
      × ((cmd_vararg token ≡ true) ⊎ ((cmd_option token || cmd_variable token) ≡ true))
unfolding cmd_vararg cmd_range cmd_option cmd_variable
placeholder_tests token (inl dot) = ground (arith, dot)
placeholder_tests token (inr (inl bracket)) = ground (arith, bracket)
placeholder_tests token (inr (inr capital)) = ground (arith, capital)

keyword-str_eq :
    (token text : CString)
    → first text ≡ b'A' ⊎ first text ≡ b'X'
    → IsKeyword token
    → str_eq token text ≡ false
keyword-str_eq token text capital k = elim (Bool-cases (str_eq token text)) [
  | inl same ↦
      let firsts : first token ≡ first text = ap first ((str_eq_iff token text).0 same) in
      absurd (ground (arith, firsts, capital, k))
  | inr other ↦ other
]

-- The tests on the three addresses fail.
abbrev NoAddress : CString → Type 0
NoAddress token =
    (cmd_ipv6 token ≡ false) × (cmd_ipv4 token ≡ false) × (cmd_ipv4_prefix token ≡ false)

keyword-NoAddress : (token : CString) → IsKeyword token → NoAddress token
unfolding cmd_ipv6 cmd_ipv4 cmd_ipv4_prefix
keyword-NoAddress token k = (
  keyword-str_eq token _ (inr refl) k,
  keyword-str_eq token _ (inl refl) k,
  keyword-str_eq token _ (inl refl) k,
)

pub ne-str_eq : (s t : CString) → s ≢ t → str_eq s t ≡ false
ne-str_eq s t ne = elim (Bool-cases (str_eq s t)) [
  | inl same ↦ absurd (ne ((str_eq_iff s t).0 same))
  | inr other ↦ other
]

first-ne : (s t : CString) → first s ≢ first t → s ≢ t
first-ne s t ne e = ne (ap first e)

dot_first : (token : CString) → cmd_vararg token ≡ true → first token ≡ b'.'
unfolding cmd_vararg
dot_first token h = ground (arith, h)

angle_first : (token : CString) → cmd_range token ≡ true → first token ≡ b'<'
unfolding cmd_range
angle_first token h = ground (arith, h)

range_tests :
    (token : CString) → first token ≡ b'<' → (cmd_vararg token ≡ false) × (cmd_range token ≡ true)
unfolding cmd_vararg cmd_range
range_tests token angle = ground (arith, angle)

module _ (src : Option CString) (token : CString) where
  placeholder-MayStand : IsPlaceholder token → NoAddress token → MayStand src token
  unfolding cmd_ipv6 cmd_ipv4 cmd_ipv4_prefix
  placeholder-MayStand p (a, b, c) =
      inr (inr (inr (inr (inr (p, str_ne token _ a, str_ne token _ b, str_ne token _ c)))))

  vararg-NoAddress : cmd_vararg token ≡ true → NoAddress token
  unfolding cmd_vararg cmd_ipv6 cmd_ipv4 cmd_ipv4_prefix
  vararg-NoAddress dot =
      let at : first token ≡ b'.' = ground (arith, dot) in
      (
        ne-str_eq token _ (first-ne token _ (λ e. absurd (omega (arith, at, e)))),
        ne-str_eq token _ (first-ne token _ (λ e. absurd (omega (arith, at, e)))),
        ne-str_eq token _ (first-ne token _ (λ e. absurd (omega (arith, at, e)))),
      )

  other-MayStand :
      cmd_vararg token ≡ false
      → cmd_range token ≡ false
      → NoAddress token
      → cmd_entry_function_desc src token ≡ true
      → MayStand src token
  unfolding cmd_entry_function_desc
  other-MayStand dot angle (a, b, c) h = elim (IsKeyword-or_not token dot angle) [
    | inl k ↦
        let (_, _, option, variable) = keyword_tests token k in
        inl (
          k,
          typed_begins-GoesOn src token (ground (arith, dot, angle, a, b, c, option, variable, h)),
        )
    | inr p ↦ placeholder-MayStand p (a, b, c)
  ]

  pub entry_desc-MayStand : cmd_entry_function_desc src token ≡ true → MayStand src token
  unfolding cmd_entry_function_desc cmd_ipv6 cmd_ipv4 cmd_ipv4_prefix
  entry_desc-MayStand h = elim (Bool-cases (cmd_vararg token)) [
    | inl dot ↦ placeholder-MayStand (inl (dot_first token dot)) (vararg-NoAddress dot)
    | inr no_dot ↦ elim (Bool-cases (cmd_range token)) [
      | inl angle ↦ inr (inl (angle_first token angle, ground (arith, h, no_dot, angle)))
      | inr no_angle ↦ elim (Bool-cases (str_eq token (codes "X:X::X:X"))) [
        | inl six ↦ inr (
            inr (
              inl (
                (str_eq_iff token _).0 six,
                holds-ne _ (ground (arith, h, no_dot, no_angle, six)),
              )))
        | inr no_six ↦ elim (Bool-cases (str_eq token (codes "A.B.C.D"))) [
          | inl four ↦ inr (
              inr (
                inr (
                  inl (
                    (str_eq_iff token _).0 four,
                    holds-ne _ (ground (arith, h, no_dot, no_angle, no_six, four)),
                  ))))
          | inr no_four ↦ elim (Bool-cases (str_eq token (codes "A.B.C.D/M"))) [
            | inl prefix ↦ inr (
                inr (
                  inr (
                    inr (
                      inl (
                        (str_eq_iff token _).0 prefix,
                        holds-ne _ (ground (arith, h, no_dot, no_angle, no_six, no_four, prefix)),
                      )))))
            | inr no_prefix ↦ other-MayStand no_dot no_angle (no_six, no_four, no_prefix) h
          ]
        ]
      ]
    ]
  ]

  -- The entries of the three addresses.
  ipv6-entry : cmd_ipv6_match src ≢ no_match → cmd_entry_function_desc src (codes "X:X::X:X") ≡ true
  unfolding cmd_entry_function_desc cmd_vararg cmd_range cmd_ipv6 str_eq
  ipv6-entry m = ne-holds (cmd_ipv6_match src) m

  ipv4-entry : cmd_ipv4_match src ≢ no_match → cmd_entry_function_desc src (codes "A.B.C.D") ≡ true
  unfolding cmd_entry_function_desc cmd_vararg cmd_range cmd_ipv6 cmd_ipv4 str_eq
  ipv4-entry m = ne-holds (cmd_ipv4_match src) m

  prefix-entry :
      cmd_ipv4_prefix_match src ≢ no_match → cmd_entry_function_desc src (codes "A.B.C.D/M") ≡ true
  unfolding cmd_entry_function_desc cmd_vararg cmd_range cmd_ipv6 cmd_ipv4 cmd_ipv4_prefix str_eq
  prefix-entry m = ne-holds (cmd_ipv4_prefix_match src) m

  at_text :
      (text : CString)
      → token ≡ text
      → cmd_entry_function_desc src text ≡ true
      → cmd_entry_function_desc src token ≡ true
  at_text text same h = ap (cmd_entry_function_desc src) same ∙ h

  placeholder-entry :
      IsPlaceholder token → NoAddress token → cmd_entry_function_desc src token ≡ true
  unfolding cmd_entry_function_desc
  placeholder-entry p (six, four, prefix) = elim (Bool-cases (cmd_vararg token)) [
    | inl dot ↦ rw dot refl
    | inr no_dot ↦
        let (range, kinds) = placeholder_tests token p in
        elim kinds [
          | inl dot ↦ rw dot refl
          | inr option ↦ rw (no_dot, range, six, four, prefix, option) refl
        ]
  ]

  -- `cmd_entry_function_desc` takes just the tokens for which what is typed may stand.
  pub MayStand-entry_desc : MayStand src token → cmd_entry_function_desc src token ≡ true
  unfolding cmd_entry_function_desc cmd_ipv6 cmd_ipv4 cmd_ipv4_prefix
  MayStand-entry_desc (inl (k, goes)) =
      let (dot, angle, option, variable) = keyword_tests token k in
      let (six, four, prefix) = keyword-NoAddress token k in
      rw (dot, angle, option, variable, six, four, prefix) (GoesOn-typed_begins src token goes)
  MayStand-entry_desc (inr (inl (angle, within))) =
      let (dot, range) = range_tests token angle in rw (dot, range) within
  MayStand-entry_desc (inr (inr (inl (same, m)))) = at_text _ same (ipv6-entry m)
  MayStand-entry_desc (inr (inr (inr (inl (same, m))))) = at_text _ same (ipv4-entry m)
  MayStand-entry_desc (inr (inr (inr (inr (inl (same, m)))))) = at_text _ same (prefix-entry m)
  MayStand-entry_desc (inr (inr (inr (inr (inr (p, six, four, prefix)))))) =
      placeholder-entry p (ne-str_eq token _ six, ne-str_eq token _ four, ne-str_eq token _ prefix)
