-- ===== src/Command/Tokens.antt =====
-- `cmd_make_strvec`: a typed line as a vector of words.
pub mod Split
pub mod Whole
use qr_wireguard_ui.Base.{
  ℕ, zero, suc, Bool, not, ◌||◌, Option, none, some, List, [], ◌∷◌, ◌++◌, ◌==◌, length,
  if◌then◌else◌,
}
use qr_wireguard_ui.Text.{CString, first, is_space, skip_spaces, split_at}

-- A byte that ends a word.
unfoldable pub ends_word : ℕ → Bool
unfolding is_space
ends_word c = is_space c || c == 13 || c == 10

-- The scan of one word: its bytes, and what is behind it.
unfoldable pub word_of : CString → CString
unfolding ends_word
word_of [] = []
word_of (c ∷ s) = let rest = word_of s in if ends_word c then [] else c ∷ rest

unfoldable pub behind_word : CString → CString
unfolding ends_word
behind_word [] = []
behind_word (c ∷ s) = let rest = behind_word s in if ends_word c then c ∷ s else rest

-- The spaces between the quotes become dashes.
unfoldable pub dashes : CString → CString
dashes [] = []
dashes (c ∷ s) = (if c == b' ' then b'-' else c) ∷ dashes s

abbrev pub quote : ℕ
quote = 34

-- The first pair of quotes is taken out, and its text made one word.
unfoldable pub unquote : CString → CString
unfolding split_at dashes
unquote string = elim (split_at quote string) [
  | none ↦ string
  | some (before, behind) ↦ elim (split_at quote behind) [
    | none ↦ string
    | some (inside, after) ↦ before ++ (b' ' ∷ (dashes inside ++ (b' ' ∷ after)))
  ]
]

-- The loop that copies the words, on fuel.
unfoldable pub words_of : ℕ → CString → List CString
words_of zero cp = []
words_of (suc fuel) cp =
    let next = skip_spaces (behind_word cp) in
    let more = words_of fuel next in elim next [ [] ↦ word_of cp ∷ [] | c ∷ s ↦ word_of cp ∷ more ]

-- Behind the white space: nothing, a comment, or words.
unfoldable pub strvec_of : CString → Option (List CString)
unfolding words_of word_of behind_word skip_spaces
strvec_of [] = none
strvec_of (c ∷ cp) =
    if c == b'!' || c == b'#' then none else some (words_of (length (c ∷ cp)) (c ∷ cp))

unfoldable pub cmd_make_strvec : Option CString → Option (List CString)
unfolding unquote skip_spaces strvec_of
cmd_make_strvec none = none
cmd_make_strvec (some string) = strvec_of (skip_spaces (unquote string))
