-- ===== src/Command/Complete/Promise.antt =====
-- What `cmd_complete_command` promises of the strings that it returns.
use qr_wireguard_ui.Base.{
  ◌≤◌, ◌<◌, false, ◌≡◌, ◌⊎◌, Option, none, some, List, [], ◌∷◌, length, take, get_elem?,
}
use qr_wireguard_ui.Text.{CString, str_eq}
use qr_wireguard_ui.Command.{
  Desc, CmdElement, cmd_err_ambiguous, cmd_err_no_match, cmd_err_nothing_todo,
  cmd_complete_full_match, cmd_complete_match, cmd_complete_list_match,
}
use qr_wireguard_ui.Command.Spec.{Slots, AnySlot}
use qr_wireguard_ui.Command.Execute.{CmdVector}
use qr_wireguard_ui.Command.Complete.{
  left, filter_before, Completion, reads_outside, fails_with, completes,
}
use qr_wireguard_ui.Command.Complete.Lcd.{AllAgree}
use qr_wireguard_ui.Command.Complete.Entry.{IsKeyword, GoesOn}
use qr_wireguard_ui.Command.Complete.Finds.{HasToken, HasString}
use qr_wireguard_ui.Command.Spelled.Before.{KeepsSpelled, NoneSpelled}
use qr_wireguard_ui.Command.Complete.Sound.{Takes}

abbrev pub AllStrings : (CString → Type 0) → List CString → Type 0
AllStrings Q [] = Unit
AllStrings Q (s ∷ rest) = Q s × AllStrings Q rest

abbrev pub IsDistinct : List CString → Type 0
IsDistinct [] = Unit
IsDistinct (s ∷ rest) = AllStrings (λ t. str_eq s t ≡ false) rest × IsDistinct rest

-- A keyword of an element that takes the words in front, at the next position, which goes on from
-- what is typed.
abbrev pub IsOffer : {F : Type 0} → CmdVector F → List CString → Option CString → CString → Type 0
IsOffer v words src str =
    (IsKeyword str × GoesOn src str)
    × (e : CmdElement _) × Takes v words e
    × (ds : List Desc) × (get_elem? e.strvec (length words) ≡ some ds)
    × HasToken str ds

-- The vector that the words in front leave: it holds no element but those of which the positions
-- take the words, and each of which they are the first keywords; and the strings hold every keyword
-- of its elements at the next position that goes on from what is typed.
abbrev pub LacksNone :
    {F : Type 0} → CmdVector F → List CString → Option CString → CmdVector F → List CString → Type 0
LacksNone v words src u strs =
    (filter_before words 0 v ≡ left u)
    × Slots (Takes v words) u
    × KeepsSpelled words v u
    × ((e : CmdElement _) (ds : List Desc) (str : CString)
        → AnySlot (λ x. x ≡ e) u
        → get_elem? e.strvec (length words) ≡ some ds
        → HasToken str ds
        → IsKeyword str
        → GoesOn src str
        → HasString str strs)

-- The strings offered: different offers of which there are some.
abbrev pub AreOffers :
    {F : Type 0} → CmdVector F → List CString → Option CString → List CString → Type 0
AreOffers v words src strs =
    AllStrings (IsOffer v words src) strs × IsDistinct strs × (1 ≤ length strs)

-- A beginning of all of the strings, of which there are two at least, longer than what is typed.
abbrev pub IsBeginning : Option CString → List CString → CString → Type 0
IsBeginning none strs str = ⊥
IsBeginning (some typed) [] str = ⊥
IsBeginning (some typed) (s ∷ []) str = ⊥
IsBeginning (some typed) (s ∷ t ∷ rest) str =
    (length typed < length str) × (str ≡ take (length str) s) × AllAgree (length str) s (t ∷ rest)

abbrev pub IsCompletion :
    {F : Type 0} → CmdVector F → List CString → Option CString → Completion → Type 0
IsCompletion v words src reads_outside = ⊥
IsCompletion v words src (fails_with code) =
    (code ≡ cmd_err_ambiguous) × NoneSpelled words v
    ⊎ ((code ≡ cmd_err_no_match) ⊎ (code ≡ cmd_err_nothing_todo))
      × (u : CmdVector _) × LacksNone v words src u []
IsCompletion v words src (completes code strs) =
    (u : CmdVector _) × (offers : List CString) × LacksNone v words src u offers
    × AreOffers v words src offers
    × (((code ≡ cmd_complete_full_match) × (length offers ≡ 1) × (strs ≡ offers))
        ⊎ ((code ≡ cmd_complete_list_match) × (2 ≤ length offers) × (strs ≡ offers))
        ⊎ (code ≡ cmd_complete_match)
          × (str : CString) × (strs ≡ str ∷ [])
          × IsBeginning src offers str)
