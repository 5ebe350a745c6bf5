-- ===== src/Program/Saved/Dispatched.antt =====
-- The handler that the strict match finds for each line.
use mathlib.Core.Option
use qr_wireguard_ui.Base.{
  ◌≤◌, length, false, true, ◌≡◌, ◌≢◌, refl, ap, ◌∙◌, arith, ◌==◌, some, List, [], ◌∷◌, ◌++◌,
  append-nil, append_assoc,
}
use qr_wireguard_ui.Text.{CString, codes, first, is_space}
use qr_wireguard_ui.Command.{CmdElement}
use qr_wireguard_ui.Command.Tokens.{cmd_make_strvec, ends_word}
use qr_wireguard_ui.Command.Tokens.Split.{
  Item, text, words, IsWord, IsSpaced, word_bytes, all_spaces, no_quote, is_comment,
  cmd_make_strvec-text,
}
use qr_wireguard_ui.Command.Execute.{calls, cmd_execute_command_strict}
use qr_wireguard_ui.Session.{config_node}
use qr_wireguard_ui.Session.Shell.{Func, config_hostname_func, other_func}
use qr_wireguard_ui.Session.File.{newline}
use qr_wireguard_ui.Cmd.Parts.{cons-ne-nil}
use qr_wireguard_ui.Program.{
  Handler, bridge_disable_func, wg_link_func, wg_peer_public_key_func, wg_peer_allowed_ips_func,
}
use qr_wireguard_ui.Program.Install.{cmdvec}
use qr_wireguard_ui.Program.Saved.{
  Saved, hostname, bridge_disabled, wg_link_up, wg_link_down, wg_peer, wg_peer_ips, line, IsSavable,
}

-- The words of a line, and those at argument positions.
abbrev pub line_words : Saved → List CString
line_words (hostname name) = codes "hostname" ∷ name ∷ []
line_words bridge_disabled = codes "bridge" ∷ codes "disable" ∷ []
line_words wg_link_up = codes "wg" ∷ codes "link-up" ∷ []
line_words wg_link_down = codes "wg" ∷ codes "link-down" ∷ []
line_words (wg_peer key) = codes "wg" ∷ codes "peer" ∷ key ∷ []
line_words (wg_peer_ips key ips) = codes "wg" ∷ codes "peer" ∷ key ∷ codes "allowed-ips" ∷ ips ∷ []

abbrev pub arguments_of : Saved → List CString
arguments_of (hostname name) = name ∷ []
arguments_of bridge_disabled = []
arguments_of wg_link_up = codes "link-up" ∷ []
arguments_of wg_link_down = codes "link-down" ∷ []
arguments_of (wg_peer key) = key ∷ []
arguments_of (wg_peer_ips key ips) = key ∷ ips ∷ []

abbrev pub func_of : Saved → Func Handler
func_of (hostname name) = config_hostname_func
func_of bridge_disabled = other_func bridge_disable_func
func_of wg_link_up = other_func wg_link_func
func_of wg_link_down = other_func wg_link_func
func_of (wg_peer key) = other_func wg_peer_public_key_func
func_of (wg_peer_ips key ips) = other_func wg_peer_allowed_ips_func

pub dispatched :
    (s : Saved)
    → (e : CmdElement (Func Handler)) × (cmd_execute_command_strict
          (line_words s)
          (cmdvec config_node)
        ≡ calls e (arguments_of s))
      × (e.func ≡ func_of s)
unfolding cmdvec Option.bind cmd_execute_command_strict
dispatched (hostname name) = (_, refl, refl)
dispatched bridge_disabled = (_, refl, refl)
dispatched wg_link_up = (_, refl, refl)
dispatched wg_link_down = (_, refl, refl)
dispatched (wg_peer key) = (_, refl, refl)
dispatched (wg_peer_ips key ips) = (_, refl, refl)

-- The words with a blank between any two of them, and a newline behind.
abbrev spaced : List CString → List Item
spaced [] = []
spaced (w ∷ []) = record { word = w; spaces = newline ∷ [] } ∷ []
spaced (w ∷ v ∷ rest) = record { word = w; spaces = codes " " } ∷ spaced (v ∷ rest)

abbrev AllWords : List CString → Type 0
AllWords [] = Unit
AllWords (w ∷ rest) = (IsWord w × (no_quote w ≡ true)) × AllWords rest

blank-ne_nil : codes " " ≢ []
blank-ne_nil e = absurd (ground arith)

spaced-IsSpaced : (ws : List CString) → 1 ≤ length ws → AllWords ws → IsSpaced (spaced ws)
unfolding all_spaces is_space
spaced-IsSpaced [] n h = absurd (omega arith)
spaced-IsSpaced (w ∷ []) n h = (h.0.0, refl)
spaced-IsSpaced (w ∷ v ∷ []) n h = (h.0.0, refl, blank-ne_nil, (h.1.0.0, refl))
spaced-IsSpaced (w ∷ v ∷ u ∷ rest) n h =
    (h.0.0, refl, blank-ne_nil, spaced-IsSpaced (v ∷ u ∷ rest) (omega arith) h.1)

words-spaced : (ws : List CString) → words (spaced ws) ≡ ws
words-spaced [] = refl
words-spaced (w ∷ []) = refl
words-spaced (w ∷ v ∷ rest) = ap (◌∷◌ w) (words-spaced (v ∷ rest))

no_quote-append : (s t : CString) → no_quote s ≡ true → no_quote t ≡ true → no_quote (s ++ t) ≡ true
unfolding no_quote
no_quote-append [] t h k = k
no_quote-append (c ∷ s) t h k = ground (arith, no_quote-append s t)

no_quote-text : (ws : List CString) → AllWords ws → no_quote (text (spaced ws)) ≡ true
unfolding no_quote
no_quote-text [] h = refl
no_quote-text (w ∷ []) h = no_quote-append w (newline ∷ []) h.0.1 refl
no_quote-text (w ∷ v ∷ rest) h =
    no_quote-append w (b' ' ∷ text (spaced (v ∷ rest))) h.0.1 (no_quote-text (v ∷ rest) h.1)

line-text : (s : Saved) → line s ++ (newline ∷ []) ≡ text (spaced (line_words s))
line-text (hostname name) = refl
line-text bridge_disabled = refl
line-text wg_link_up = refl
line-text wg_link_down = refl
line-text (wg_peer key) = rw (append-nil key) refl
line-text (wg_peer_ips key ips) =
    rw (append-nil ips, append_assoc key (codes " allowed-ips " ++ ips) (newline ∷ [])) refl

known :
    (w : CString)
    → w ≢ []
    → word_bytes w ≡ true
    → no_quote w ≡ true
    → IsWord w × (no_quote w ≡ true)
known w ne h k = ((ne, h), k)

line_words-AllWords : (s : Saved) → IsSavable s → AllWords (line_words s)
unfolding word_bytes no_quote ends_word is_space
line_words-AllWords (hostname name) h =
    (known (codes "hostname") (cons-ne-nil _ _) refl refl, ((h.0.0, h.0.1), tt))
line_words-AllWords bridge_disabled h =
    (known _ (cons-ne-nil _ _) refl refl, (known _ (cons-ne-nil _ _) refl refl, tt))
line_words-AllWords wg_link_up h =
    (known _ (cons-ne-nil _ _) refl refl, (known _ (cons-ne-nil _ _) refl refl, tt))
line_words-AllWords wg_link_down h =
    (known _ (cons-ne-nil _ _) refl refl, (known _ (cons-ne-nil _ _) refl refl, tt))
line_words-AllWords (wg_peer key) h = (
  known _ (cons-ne-nil _ _) refl refl,
  (known _ (cons-ne-nil _ _) refl refl, ((h.0.0, h.0.1), tt)),
)
line_words-AllWords (wg_peer_ips key ips) h = (
  known _ (cons-ne-nil _ _) refl refl,
  (
    known _ (cons-ne-nil _ _) refl refl,
    ((h.0.0, h.0.1), (known _ (cons-ne-nil _ _) refl refl, ((h.2.0, h.2.1), tt))),
  ),
)

pub no_comment :
    (s : Saved) (behind : CString)
    → ((first (line s ++ behind) == b'!') ≡ false) × ((first (line s ++ behind) == b'#') ≡ false)
no_comment (hostname name) behind = (refl, refl)
no_comment bridge_disabled behind = (refl, refl)
no_comment wg_link_up behind = (refl, refl)
no_comment wg_link_down behind = (refl, refl)
no_comment (wg_peer key) behind = (refl, refl)
no_comment (wg_peer_ips key ips) behind = (refl, refl)

some_words : (s : Saved) → 1 ≤ length (line_words s)
some_words (hostname name) = omega arith
some_words bridge_disabled = omega arith
some_words wg_link_up = omega arith
some_words wg_link_down = omega arith
some_words (wg_peer key) = omega arith
some_words (wg_peer_ips key ips) = omega arith

no_sign : (s : Saved) → is_comment (text (spaced (line_words s))) ≡ false
no_sign (hostname name) = refl
no_sign bridge_disabled = refl
no_sign wg_link_up = refl
no_sign wg_link_down = refl
no_sign (wg_peer key) = refl
no_sign (wg_peer_ips key ips) = refl

split_words :
    (ws : List CString)
    → AllWords ws
    → IsSpaced (spaced ws)
    → is_comment (text (spaced ws)) ≡ false
    → cmd_make_strvec (some (text (spaced ws))) ≡ some ws
unfolding all_spaces
split_words ws h sp plain =
    cmd_make_strvec-text [] (spaced ws) refl sp (no_quote-text ws h) plain
    ∙ ap some (words-spaced ws)

-- The line splits into its words.
pub line_split :
    (s : Saved)
    → IsSavable s
    → cmd_make_strvec (some (line s ++ (newline ∷ []))) ≡ some (line_words s)
line_split s h =
    ap (λ buf. cmd_make_strvec (some buf)) (line-text s)
    ∙ split_words (line_words s) (line_words-AllWords s h)
        (spaced-IsSpaced (line_words s) (some_words s) (line_words-AllWords s h)) (no_sign s)
