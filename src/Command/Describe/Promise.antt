-- ===== src/Command/Describe/Promise.antt =====
-- What `cmd_describe_command` promises of the tokens that it returns.
use qr_wireguard_ui.Base.{
  false, ℕ, ◌+◌, ◌≤◌, ◌≡◌, ◌≢◌, ◌⊎◌, Option, none, some, List, [], ◌∷◌, ◌++◌, length, get_elem?,
}
use qr_wireguard_ui.Text.{CString, codes}
use qr_wireguard_ui.Match.{MatchType, no_match}
use qr_wireguard_ui.Command.{Desc, CmdElement, cmd_success, cmd_err_ambiguous, cmd_err_no_match}
use qr_wireguard_ui.Command.Spec.{AnySlot}
use qr_wireguard_ui.Command.Filter.{cmd_filter_by_completion}
use qr_wireguard_ui.Command.Execute.{CmdVector, filter_words, filtered, is_vararg}
use qr_wireguard_ui.Command.Complete.Sound.{Takes}
use qr_wireguard_ui.Command.Describe.{desc_cr, Description, reads_past, refuses, describes}
use qr_wireguard_ui.Command.Complete.Finds.{HasToken}
use qr_wireguard_ui.Command.Describe.Entry.{MayStand}
use qr_wireguard_ui.Command.Spelled.Before.{KeepsSpelled, NoneSpelled}
use qr_wireguard_ui.Command.Describe.Matched.{AllDescs, AreDistinct, HasDesc}

-- A token at the current position of an element that takes the words in front, which goes with what
-- is typed; or the end of the line, where nothing is typed and the element is complete.
abbrev pub IsDescribed : {F : Type 0} → CmdVector F → List CString → Option CString → Desc → Type 0
IsDescribed v words src d =
    (MayStand src d.cmd
      × (e : CmdElement _) × Takes v words e
      × (ds : List Desc) × (get_elem? e.strvec (length words) ≡ some ds)
      × HasDesc d ds)
    ⊎ (d ≡ desc_cr)
      × (src ≡ none)
      × (e : CmdElement _) × Takes v words e
      × (length e.strvec ≡ length words)

-- A token at the last position of an element whose first positions take the words.
abbrev pub IsLast : {F : Type 0} → CmdVector F → List CString → Desc → Type 0
IsLast v done d =
    (e : CmdElement _) × Takes v done e
    × (index : ℕ) × (length e.strvec ≡ index + 1)
    × (ds : List Desc) × (get_elem? e.strvec index ≡ some ds)
    × HasDesc d ds

-- The words in front leave a vector, with each element of which they are the first keywords, and the
-- list holds each token at the position of its elements for which what is typed may stand, and the
-- end of the line if nothing is typed behind the last position of one. Only the token of an IPv6
-- prefix may be left out where a word is typed.
abbrev pub LacksNone :
    {F : Type 0} → CmdVector F → List CString → Option CString → CmdVector F → List Desc → Type 0
LacksNone v words src u ds =
    (reached : ℕ) × (match : MatchType) × (filter_words cmd_filter_by_completion words v 0 no_match
      ≡ filtered u reached match)
    × (is_vararg match ≡ false)
    × KeepsSpelled words v u
    × ((e : CmdElement _) (tokens : List Desc) (str : CString)
        → AnySlot (λ x. x ≡ e) u
        → get_elem? e.strvec (length words) ≡ some tokens
        → HasToken str tokens
        → MayStand src str
        → (src ≡ none) ⊎ (str ≢ codes "X:X::X:X/M")
        → HasToken str ds)
    × ((e : CmdElement _)
        → AnySlot (λ x. x ≡ e) u
        → src ≡ none
        → length e.strvec ≡ length words
        → HasToken (codes "<cr>") ds)

abbrev pub IsDescription :
    {F : Type 0} → CmdVector F → List CString → Option CString → Description → Type 0
IsDescription v words src reads_past = ⊥
IsDescription v words src (refuses code) =
    ((code ≡ cmd_err_ambiguous) ⊎ (code ≡ cmd_err_no_match)) × NoneSpelled words v
    ⊎ (code ≡ cmd_err_no_match) × (u : CmdVector _) × LacksNone v words src u []
IsDescription v words src (describes (some code) ds) =
    (code ≡ cmd_success)
    × (1 ≤ length ds)
    × AllDescs (IsDescribed v words src) ds
    × AreDistinct ds
    × (u : CmdVector _) × LacksNone v words src u ds
IsDescription v words src (describes none ds) =
    (done rest : List CString) × (words ≡ done ++ rest)
    × (1 ≤ length done)
    × (front : List Desc) × (ds ≡ front ++ (desc_cr ∷ []))
    × AllDescs (IsLast v done) front
