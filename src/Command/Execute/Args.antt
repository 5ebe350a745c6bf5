-- ===== src/Command/Execute/Args.antt =====
-- The argument loop against a description of `argv` that needs no indices, and its bounds.
use mathlib.Core.Path.{subst}
use qr_wireguard_ui.Base.{
  ℕ, suc, ◌+◌, ◌≤◌, ◌<◌, Bool, true, false, ◌||◌, ◌≡◌, ◌⊎◌, inl, inr, refl, List, [], ◌∷◌, ◌++◌,
  arith, if◌then◌else◌, leb, Option-cases, Bool-cases, ◌∙◌, sym, ap, length, length-append,
  append_assoc, append-nil,
}
use qr_wireguard_ui.Text.{CString}
use qr_wireguard_ui.Command.{Desc, cmd_argc_max, cmd_option, cmd_variable, cmd_vararg}
use qr_wireguard_ui.Command.Execute.{Arguments, too_many, arguments, takes_word, position, collect}

-- The only token of the position is a variable argument list; is a keyword.
unfoldable pub takes_rest : List Desc → Bool
takes_rest (desc ∷ []) = cmd_vararg desc.cmd
takes_rest descvec = false

unfoldable pub is_keyword : List Desc → Bool
is_keyword (desc ∷ []) = if cmd_variable desc.cmd || cmd_option desc.cmd then false else true
is_keyword descvec = false

-- The words that a command is given: those at positions that are no keywords, and from a variable
-- argument list on, all.
unfoldable pub args_of : List (List Desc) → List CString → List CString
unfolding takes_rest is_keyword
args_of strvec [] = []
args_of [] (word ∷ words) = []
args_of (descvec ∷ strvec) (word ∷ words) =
    let later = args_of strvec words in
    if takes_rest descvec then word ∷ words else if is_keyword descvec then later else word ∷ later

-- Every word stands at a position of the command, or behind a variable argument list.
abbrev pub Covers : List (List Desc) → List CString → Type 0
Covers strvec [] = Unit
Covers [] (word ∷ words) = ⊥
Covers (descvec ∷ strvec) (word ∷ words) = (takes_rest descvec ≡ true) ⊎ Covers strvec words

-- What the loop returns for `argv`.
unfoldable pub bounded : List CString → Arguments
bounded argv = if leb cmd_argc_max (length argv) then too_many else arguments argv

position_shift :
    (d : List Desc) (strvec : List (List Desc)) (j i : ℕ) (v : Bool)
    → j ≡ suc i
    → position (d ∷ strvec) j v ≡ position strvec i v
position_shift d strvec j i v e =
    subst (λ k. position (d ∷ strvec) k v ≡ position strvec i v) (sym e) (unfold position in refl)

-- The loop at position `i + 1` of `strvec` is the loop at `i` of its tail.
collect_shift :
    (d : List Desc) (strvec : List (List Desc)) (ws : List CString) (j i : ℕ) (v : Bool)
    (argv : List CString)
    → j ≡ suc i
    → collect (d ∷ strvec) j v argv ws ≡ collect strvec i v argv ws
unfolding collect
collect_shift d strvec [] j i v argv e = refl
collect_shift d strvec (w ∷ ws) j i v argv e = elim (Option-cases (position strvec i v)) [
  | inl stop ↦ rw (position_shift d strvec j i v e, collect) (rw (stop, collect) refl)
  | inr ((takes, v'), go) ↦
      rw (position_shift d strvec j i v e, collect)
        (rw (go, collect)
          (rw
            (collect_shift d strvec ws (j + 1) (i + 1) v' (if takes then argv ++ (w ∷ []) else argv)
              (omega arith))
            refl))
]

bounded_small : (argv : List CString) → length argv < cmd_argc_max → bounded argv ≡ arguments argv
unfolding bounded
bounded_small argv h = ground arith

bounded_big : (argv : List CString) → cmd_argc_max ≤ length argv → bounded argv ≡ too_many
unfolding bounded
bounded_big argv h = ground arith

-- The step of the loop that passes a word on, if what is behind it is as expected.
collect_take :
    (argv ws : List CString) (word : CString) (more : Arguments)
    → (length (argv ++ (word ∷ [])) < cmd_argc_max → more ≡ bounded ((argv ++ (word ∷ [])) ++ ws))
    → (if leb cmd_argc_max (length (argv ++ (word ∷ []))) then too_many else more)
      ≡ bounded (argv ++ (word ∷ ws))
collect_take argv ws word more h =
    elim (Bool-cases (leb cmd_argc_max (length (argv ++ (word ∷ []))))) [
      | inl big ↦ rw big (
          sym (
            bounded_big (argv ++ (word ∷ ws))
              (ground (arith, length-append argv (word ∷ []), length-append argv (word ∷ ws)))))
      | inr small ↦ rw small (h (ground arith) ∙ ap bounded (append_assoc argv (word ∷ []) ws))
    ]

collect_vararg :
    (strvec : List (List Desc)) (ws : List CString) (i : ℕ) (argv : List CString)
    → length argv < cmd_argc_max
    → collect strvec i true argv ws ≡ bounded (argv ++ ws)
unfolding collect
collect_vararg strvec [] i argv h = rw append-nil (sym (bounded_small argv h))
collect_vararg strvec (w ∷ ws) i argv h =
    collect_take argv ws w (collect strvec (i + 1) true (argv ++ (w ∷ [])) ws)
      (λ small. collect_vararg strvec ws (i + 1) (argv ++ (w ∷ [])) small)

takes_word_rest : (d : List Desc) → takes_rest d ≡ true → takes_word d ≡ (true, true)
unfolding takes_word takes_rest
takes_word_rest (d ∷ []) h = ground arith
takes_word_rest [] h = ground arith
takes_word_rest (d ∷ e ∷ ds) h = ground arith

takes_word_keyword :
    (d : List Desc) → takes_rest d ≡ false → is_keyword d ≡ true → takes_word d ≡ (false, false)
unfolding takes_word takes_rest is_keyword
takes_word_keyword (d ∷ []) h k = ground arith
takes_word_keyword [] h k = ground arith
takes_word_keyword (d ∷ e ∷ ds) h k = ground arith

takes_word_argument :
    (d : List Desc) → takes_rest d ≡ false → is_keyword d ≡ false → takes_word d ≡ (true, false)
unfolding takes_word takes_rest is_keyword
takes_word_argument (d ∷ []) h k = ground arith
takes_word_argument [] h k = refl
takes_word_argument (d ∷ e ∷ ds) h k = refl

Covers-tail :
    (d : List Desc) (strvec : List (List Desc)) (w : CString) (ws : List CString)
    → takes_rest d ≡ false
    → Covers (d ∷ strvec) (w ∷ ws)
    → Covers strvec ws
Covers-tail d strvec w ws one (inl rest) = absurd (ground arith)
Covers-tail d strvec w ws one (inr c) = c

-- If the words stay within the positions of the command, except behind a position that takes the
-- rest, and `argv` is shorter than `CMD_ARGC_MAX`, the argument loop never reads behind `strvec`: it
-- appends the words that the command is given, or refuses when `argv` would reach `CMD_ARGC_MAX`.
pub collect-args_of :
    (strvec : List (List Desc)) (ws argv : List CString)
    → Covers strvec ws
    → length argv < cmd_argc_max
    → collect strvec 0 false argv ws ≡ bounded (argv ++ args_of strvec ws)
unfolding collect args_of
collect-args_of strvec [] argv c h = rw append-nil (sym (bounded_small argv h))
collect-args_of [] (w ∷ ws) argv c h = absurd c
collect-args_of (d ∷ strvec) (w ∷ ws) argv c h = elim (Bool-cases (takes_rest d)) [
  | inl rest ↦
      rw (rest, takes_word_rest d rest)
        (collect_take argv ws w _
          (λ small. collect_vararg (d ∷ strvec) ws 1 (argv ++ (w ∷ [])) small))
  | inr one ↦
      let covered = Covers-tail d strvec w ws one c in
      elim (Bool-cases (is_keyword d)) [
        | inl keyword ↦
            let small : leb cmd_argc_max (length argv) ≡ false = ground arith in
            rw (one, takes_word_keyword d one keyword, keyword, small)
              (collect_shift d strvec ws 1 0 false argv refl
                ∙ collect-args_of strvec ws argv covered h)
        | inr argument ↦
            rw (one, takes_word_argument d one argument, argument)
              (collect_take argv (args_of strvec ws) w _ (λ small.
                collect_shift d strvec ws 1 0 false (argv ++ (w ∷ [])) refl
                ∙ collect-args_of strvec ws (argv ++ (w ∷ [])) covered small))
      ]
]
