-- ===== src/Command/Tokens/Split.antt =====
-- A line of words with any white space between them splits into those words.
use qr_wireguard_ui.Base.{
  ℕ, zero, suc, ◌≤◌, ◌<◌, Bool, true, false, not, ◌&&◌, ◌||◌, ◌≡◌, ◌≢◌, refl, none, some, List, [],
  ◌∷◌, ◌++◌, ◌==◌, length, length-append, arith, ap, ◌∙◌, sym,
}
use mathlib.Core.Path.{ap₂}
use qr_wireguard_ui.Text.{CString, first, is_space, skip_spaces, split_at}
use qr_wireguard_ui.Command.Tokens.{
  ends_word, word_of, behind_word, quote, unquote, words_of, strvec_of, cmd_make_strvec,
}

unfoldable pub word_bytes : CString → Bool
word_bytes [] = true
word_bytes (c ∷ s) = not (ends_word c) && word_bytes s

unfoldable pub all_spaces : CString → Bool
all_spaces [] = true
all_spaces (c ∷ s) = is_space c && all_spaces s

unfoldable pub no_quote : CString → Bool
no_quote [] = true
no_quote (c ∷ s) = not (c == quote) && no_quote s

-- A word, and the white space behind it.
pub record Item : Type 0 where
  pub word : CString
  pub spaces : CString

abbrev pub text : List Item → CString
text [] = []
text (p ∷ ps) = p.word ++ (p.spaces ++ text ps)

abbrev pub words : List Item → List CString
words [] = []
words (p ∷ ps) = p.word ∷ words ps

abbrev pub IsWord : CString → Type 0
IsWord w = (w ≢ []) × (word_bytes w ≡ true)

-- There is white space between two words; behind the last there may be some.
abbrev pub IsSpaced : List Item → Type 0
IsSpaced [] = ⊥
IsSpaced (p ∷ []) = IsWord p.word × (all_spaces p.spaces ≡ true)
IsSpaced (p ∷ q ∷ ps) =
    IsWord p.word × (all_spaces p.spaces ≡ true) × (p.spaces ≢ []) × IsSpaced (q ∷ ps)

-- The rest of a line that ends a word in front of it.
abbrev Stops : CString → Type 0
Stops [] = Unit
Stops (c ∷ s) = ends_word c ≡ true

word_of-append : (w t : CString) → word_bytes w ≡ true → Stops t → word_of (w ++ t) ≡ w
unfolding word_of word_bytes
word_of-append [] [] h s = refl
word_of-append [] (c ∷ t) h s = ground arith
word_of-append (c ∷ w) t h s = ground (arith, word_of-append w t)

behind_word-append : (w t : CString) → word_bytes w ≡ true → Stops t → behind_word (w ++ t) ≡ t
unfolding behind_word word_bytes
behind_word-append [] [] h s = refl
behind_word-append [] (c ∷ t) h s = ground arith
behind_word-append (c ∷ w) t h s = ground (arith, behind_word-append w t)

skip_spaces-append : (sp t : CString) → all_spaces sp ≡ true → skip_spaces (sp ++ t) ≡ skip_spaces t
unfolding skip_spaces all_spaces
skip_spaces-append [] t h = refl
skip_spaces-append (c ∷ sp) t h = ground (arith, skip_spaces-append sp t)

skip_spaces-word : (w t : CString) → IsWord w → skip_spaces (w ++ t) ≡ w ++ t
unfolding skip_spaces word_bytes ends_word
skip_spaces-word [] t h = absurd (h.0 refl)
skip_spaces-word (c ∷ w) t h = ground arith

Stops-spaces : (sp : CString) (t : CString) → all_spaces sp ≡ true → sp ≢ [] → Stops (sp ++ t)
unfolding all_spaces ends_word
Stops-spaces [] t h ne = absurd (ne refl)
Stops-spaces (c ∷ sp) t h ne = ground arith

Stops-last : (sp : CString) → all_spaces sp ≡ true → Stops (sp ++ [])
unfolding all_spaces ends_word
Stops-last [] h = tt
Stops-last (c ∷ sp) h = ground arith

-- What the loop finds behind the first word.
words_of-last :
    (fuel : ℕ) (cp w : CString)
    → word_of cp ≡ w
    → skip_spaces (behind_word cp) ≡ []
    → words_of (suc fuel) cp ≡ w ∷ []
unfolding words_of
words_of-last fuel cp w h e = ground (arith, h, e)

words_of-more :
    (fuel : ℕ) (cp w s : CString) (b : ℕ)
    → word_of cp ≡ w
    → skip_spaces (behind_word cp) ≡ b ∷ s
    → words_of (suc fuel) cp ≡ w ∷ words_of fuel (b ∷ s)
unfolding words_of
words_of-more fuel cp w s b h e = rw (e, words_of) (ap₂ (λ x n. x ∷ words_of fuel n) h e)

word-cons :
    (w t : CString) → IsWord w → (b : ℕ) × (s : CString) × (w ++ t ≡ b ∷ s) × (ends_word b ≡ false)
unfolding word_bytes
word-cons [] t h = absurd (h.0 refl)
word-cons (c ∷ w) t h = (c, w ++ t, refl, ground arith)

text-cons :
    (ps : List Item)
    → IsSpaced ps
    → (b : ℕ) × (s : CString) × (text ps ≡ b ∷ s) × (ends_word b ≡ false)
text-cons [] h = absurd h
text-cons (p ∷ []) h = word-cons p.word (p.spaces ++ []) h.0
text-cons (p ∷ q ∷ ps) h = word-cons p.word (p.spaces ++ text (q ∷ ps)) h.0

-- A line that begins with a word has nothing to skip.
skip_spaces-text : (ps : List Item) → IsSpaced ps → skip_spaces (text ps) ≡ text ps
skip_spaces-text [] h = absurd h
skip_spaces-text (p ∷ []) h = skip_spaces-word p.word (p.spaces ++ []) h.0
skip_spaces-text (p ∷ q ∷ ps) h = skip_spaces-word p.word (p.spaces ++ text (q ∷ ps)) h.0

-- With fuel for every word the loop copies them all.
words_of-text :
    (ps : List Item) (fuel : ℕ)
    → IsSpaced ps
    → length (words ps) ≤ fuel
    → words_of fuel (text ps) ≡ words ps
words_of-text [] fuel h le = absurd h
words_of-text (p ∷ ps) zero h le = absurd (omega arith)
words_of-text (p ∷ []) (suc fuel) (word, sp) le =
    let stop = Stops-last p.spaces sp in
    words_of-last fuel (p.word ++ (p.spaces ++ [])) p.word
      (word_of-append p.word (p.spaces ++ []) word.1 stop)
      (ap skip_spaces (behind_word-append p.word (p.spaces ++ []) word.1 stop)
        ∙ skip_spaces-append p.spaces [] sp
        ∙ unfold skip_spaces in refl)
words_of-text (p ∷ q ∷ ps) (suc fuel) (word, sp, ne, rest) le =
    let stop = Stops-spaces p.spaces (text (q ∷ ps)) sp ne in
    let (b, s, starts, _) = text-cons (q ∷ ps) rest in
    words_of-more fuel (text (p ∷ q ∷ ps)) p.word s b
      (word_of-append p.word (p.spaces ++ text (q ∷ ps)) word.1 stop)
      (ap skip_spaces (behind_word-append p.word (p.spaces ++ text (q ∷ ps)) word.1 stop)
        ∙ skip_spaces-append p.spaces (text (q ∷ ps)) sp
        ∙ skip_spaces-text (q ∷ ps) rest
        ∙ starts)
    ∙ ap (◌∷◌ p.word)
        (ap (words_of fuel) (sym starts) ∙ words_of-text (q ∷ ps) fuel rest (omega arith))

split_at-no_quote : (s : CString) → no_quote s ≡ true → split_at quote s ≡ none
unfolding no_quote split_at
split_at-no_quote [] h = refl
split_at-no_quote (c ∷ s) h = ground (arith, split_at-no_quote s)

unquote-no_quote : (s : CString) → no_quote s ≡ true → unquote s ≡ s
unfolding unquote
unquote-no_quote s h = rw (split_at-no_quote s h, unquote) refl

word-pos : (w : CString) → w ≢ [] → 0 < length w
word-pos [] ne = absurd (ne refl)
word-pos (c ∷ w) ne = omega arith

-- Every word takes a byte, so the length of the line is fuel enough.
words-le-text : (ps : List Item) → IsSpaced ps → length (words ps) ≤ length (text ps)
words-le-text [] h = absurd h
words-le-text (p ∷ []) (word, sp) =
    omega (arith, word-pos p.word word.0, length-append p.word (p.spaces ++ []))
words-le-text (p ∷ q ∷ ps) (word, sp, ne, rest) = omega (
  arith,
  word-pos p.word word.0,
  length-append p.word (p.spaces ++ text (q ∷ ps)),
  length-append p.spaces (text (q ∷ ps)),
  words-le-text (q ∷ ps) rest,
)

abbrev pub is_comment : CString → Bool
is_comment s = first s == b'!' || first s == b'#'

strvec_of-cons :
    (s : CString) → s ≢ [] → is_comment s ≡ false → strvec_of s ≡ some (words_of (length s) s)
unfolding strvec_of
strvec_of-cons [] ne plain = absurd (ne refl)
strvec_of-cons (c ∷ s) ne plain = rw plain refl

text-ne_nil : (ps : List Item) → IsSpaced ps → text ps ≢ []
text-ne_nil ps h e = let (b, s, starts, _) = text-cons ps h in cc (sym starts ∙ e)

strvec_of-text :
    (ps : List Item)
    → IsSpaced ps
    → is_comment (text ps) ≡ false
    → strvec_of (text ps) ≡ some (words ps)
strvec_of-text ps h plain =
    strvec_of-cons (text ps) (text-ne_nil ps h) plain
    ∙ ap some (words_of-text ps (length (text ps)) h (words-le-text ps h))

-- A line of words with white space between any two of them, with any white space in front and
-- behind, no quotation mark in it, and no comment sign at the first word, splits into those words
-- in order.
pub cmd_make_strvec-text :
    (lead : CString) (ps : List Item)
    → all_spaces lead ≡ true
    → IsSpaced ps
    → no_quote (lead ++ text ps) ≡ true
    → is_comment (text ps) ≡ false
    → cmd_make_strvec (some (lead ++ text ps)) ≡ some (words ps)
unfolding cmd_make_strvec
cmd_make_strvec-text lead ps sp h quotes plain =
    ap (λ s. strvec_of (skip_spaces s)) (unquote-no_quote (lead ++ text ps) quotes)
    ∙ ap strvec_of (skip_spaces-append lead (text ps) sp ∙ skip_spaces-text ps h)
    ∙ strvec_of-text ps h plain
