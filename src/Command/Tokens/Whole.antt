-- ===== src/Command/Tokens/Whole.antt =====
-- On any line the words hold all of its bytes but the white space.
use qr_wireguard_ui.Base.{
  ℕ, zero, suc, ◌≤◌, ◌<◌, true, false, ◌≡◌, ◌≢◌, refl, sym, ap, ◌∙◌, Option, none, some, List, [],
  ◌∷◌, ◌++◌, length, if◌then◌else◌, arith, append-nil, Bool-cases, inl, inr, ◌⊎◌,
}
use mathlib.Core.Path.{subst}
use qr_wireguard_ui.Text.{CString, first, is_space, skip_spaces}
use qr_wireguard_ui.Command.Tokens.{
  ends_word, word_of, behind_word, unquote, words_of, strvec_of, cmd_make_strvec,
}
use qr_wireguard_ui.Command.Tokens.Split.{word_bytes, IsWord, is_comment}

-- The bytes that are no white space.
unfoldable pub squeeze : CString → CString
squeeze [] = []
squeeze (c ∷ s) = if is_space c then squeeze s else c ∷ squeeze s

abbrev pub concat : List CString → CString
concat [] = []
concat (w ∷ ws) = w ++ concat ws

abbrev pub AllWords : List CString → Type 0
AllWords [] = Unit
AllWords (w ∷ ws) = IsWord w × AllWords ws

ends_word_lem : (c : ℕ) → ends_word c ≡ is_space c
unfolding ends_word is_space
ends_word_lem c = ground arith

squeeze-nil : squeeze [] ≡ []
unfolding squeeze
squeeze-nil = refl

squeeze-skip : (s : CString) → squeeze (skip_spaces s) ≡ squeeze s
unfolding squeeze skip_spaces
squeeze-skip [] = refl
squeeze-skip (c ∷ s) = elim (Bool-cases (is_space c)) [
  | inl space ↦ rw space (squeeze-skip s)
  | inr other ↦ rw other (rw other refl)
]

squeeze-word : (s : CString) → squeeze s ≡ word_of s ++ squeeze (behind_word s)
unfolding squeeze word_of behind_word
squeeze-word [] = refl
squeeze-word (c ∷ s) = ground (arith, ends_word_lem c, squeeze-word s)

word_of-bytes : (s : CString) → word_bytes (word_of s) ≡ true
unfolding word_of word_bytes
word_of-bytes [] = refl
word_of-bytes (c ∷ s) = ground (arith, word_of-bytes s)

behind_word-le : (s : CString) → length (behind_word s) ≤ length s
unfolding behind_word
behind_word-le [] = omega arith
behind_word-le (c ∷ s) = ground (arith, behind_word-le s)

skip_spaces-le : (s : CString) → length (skip_spaces s) ≤ length s
unfolding skip_spaces
skip_spaces-le [] = omega arith
skip_spaces-le (c ∷ s) = ground (arith, skip_spaces-le s)

skip_spaces_first : (s : CString) (c : ℕ) (t : CString) → skip_spaces s ≡ c ∷ t → is_space c ≡ false
unfolding skip_spaces
skip_spaces_first [] c t h = absurd (ground arith)
skip_spaces_first (d ∷ s) c t h = elim (Bool-cases (is_space d)) [
  | inl space ↦ skip_spaces_first s c t (rw space at h)
  | inr other ↦ ap is_space (sym (ap first (rw other at h))) ∙ other
]

word_of-IsWord : (c : ℕ) (s : CString) → is_space c ≡ false → IsWord (word_of (c ∷ s))
unfolding word_of
word_of-IsWord c s h =
    let plain = ends_word_lem c ∙ h in
    (rw plain (λ e. absurd (ground arith)), word_of-bytes (c ∷ s))

behind_word-lt :
    (c : ℕ) (s : CString) → is_space c ≡ false → length (behind_word (c ∷ s)) < length (c ∷ s)
unfolding behind_word
behind_word-lt c s h = let plain = ends_word_lem c ∙ h in rw plain (omega (arith, behind_word-le s))

-- What the words of a line are: all of its bytes that are no white space, in order.
abbrev IsWhole : CString → List CString → Type 0
IsWhole cp ws = AllWords ws × (concat ws ≡ squeeze cp) × (ws ≢ [])

words_from :
    (cp next : CString) (more : List CString)
    → IsWord (word_of cp)
    → skip_spaces (behind_word cp) ≡ next
    → ((c : ℕ) (s : CString) → next ≡ c ∷ s → IsWhole next more)
    → IsWhole cp (elim next [ [] ↦ word_of cp ∷ [] | c ∷ s ↦ word_of cp ∷ more ])
words_from cp [] more w h k = (
  (w, tt),
  append-nil (word_of cp)
      ∙ sym (
          squeeze-word cp
          ∙ ap (λ r. word_of cp ++ r)
              (sym (squeeze-skip (behind_word cp)) ∙ ap squeeze h ∙ squeeze-nil)
          ∙ append-nil (word_of cp)),
  (λ e. absurd (ground arith)),
)
words_from cp (c ∷ s) more w h k = (
  (w, (k c s refl).0),
  ap (λ r. word_of cp ++ r) ((k c s refl).1 ∙ ap squeeze (sym h) ∙ squeeze-skip (behind_word cp))
      ∙ sym (squeeze-word cp),
  (λ e. absurd (ground arith)),
)

words_of-IsWhole :
    (fuel c : ℕ) (s : CString)
    → is_space c ≡ false
    → length (c ∷ s) ≤ fuel
    → IsWhole (c ∷ s) (words_of fuel (c ∷ s))
unfolding words_of
words_of-IsWhole zero c s h l = absurd (omega arith)
words_of-IsWhole (suc fuel) c s h l =
    let next = skip_spaces (behind_word (c ∷ s)) in
    words_from (c ∷ s) next (words_of fuel next) (word_of-IsWord c s h) refl (λ d t e.
      subst (λ n. IsWhole n (words_of fuel n)) (sym e)
        (words_of-IsWhole fuel d t (skip_spaces_first (behind_word (c ∷ s)) d t e) (
          omega (
            arith,
            behind_word-lt c s h,
            skip_spaces-le (behind_word (c ∷ s)),
            ap (λ (x : CString). length x) e,
          ))))

-- How a line is split: not at all, if there is nothing but white space or the first byte behind it
-- is a comment sign; or into words, at least one, with all of its other bytes in order.
abbrev pub IsSplit : CString → Option (List CString) → Type 0
IsSplit line none = (squeeze line ≡ []) ⊎ (is_comment (skip_spaces line) ≡ true)
IsSplit line (some ws) = AllWords ws × (concat ws ≡ squeeze line) × (ws ≢ [])

strvec_of-IsSplit : (line rest : CString) → skip_spaces line ≡ rest → IsSplit line (strvec_of rest)
unfolding strvec_of
strvec_of-IsSplit line [] h = inl (sym (squeeze-skip line) ∙ ap squeeze h ∙ squeeze-nil)
strvec_of-IsSplit line (c ∷ s) h = elim (Bool-cases (is_comment (c ∷ s))) [
  | inl comment ↦ rw comment (inr (ap is_comment h ∙ comment))
  | inr plain ↦
      let (all, whole, some_word) =
        words_of-IsWhole (length (c ∷ s)) c s (skip_spaces_first line c s h) (omega arith) in
      rw plain (all, whole ∙ ap squeeze (sym h) ∙ squeeze-skip line, some_word)
]

-- After the quotes are replaced, any line splits into words without white space, at least one, that
-- hold all its bytes but the white space in order; or it is not split, when it is white space or a
-- comment.
pub cmd_make_strvec-IsSplit :
    (string : CString) → IsSplit (unquote string) (cmd_make_strvec (some string))
unfolding cmd_make_strvec
cmd_make_strvec-IsSplit string =
    strvec_of-IsSplit (unquote string) (skip_spaces (unquote string)) refl
