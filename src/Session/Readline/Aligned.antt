-- ===== src/Session/Readline/Aligned.antt =====
-- What the help of the `?` key prints.
use qr_wireguard_ui.Base.{
  ◌≢◌, ℕ, ◌-◌, ◌≤◌, true, ◌≡◌, ◌⊎◌, Option, none, some, List, [], ◌∷◌, ◌++◌, length, replicate,
}
use qr_wireguard_ui.Text.{CString, codes, first}
use qr_wireguard_ui.Command.{Desc, cmd_err_ambiguous, cmd_err_no_match}
use qr_wireguard_ui.Command.Execute.{CmdVector}
use qr_wireguard_ui.Command.Describe.{
  Description, reads_past, refuses, describes, cmd_describe_command,
}
use qr_wireguard_ui.Command.Describe.Matched.{AllDescs}
use qr_wireguard_ui.Command.Describe.Promise.{IsDescription}
use qr_wireguard_ui.Session.{Session}
use qr_wireguard_ui.Session.Readline.{shown_name, is_blank, Shown, undefined, prints}

-- The name of a token: its text, without the dot of a variable argument.
abbrev pub IsName : Desc → CString → Type 0
IsName d name = (d.cmd ≡ b'.' ∷ name) ⊎ ((first d.cmd ≢ b'.') × (name ≡ d.cmd))

-- The row of a token: its name, and its description behind a column that is filled with blanks.
abbrev pub IsRow : ℕ → Desc → CString → Type 0
IsRow width d line =
    (name : CString) × IsName d name
    × (length name ≤ width)
    × ((d.str ≡ none) × (line ≡ codes "  " ++ name)
        ⊎ (text : CString) × (d.str ≡ some text)
          × (line
              ≡ codes "  "
                ++ ((name ++ replicate (width - length name) b' ') ++ (codes "  " ++ text))))

-- A row for each token in order, but none for one with an empty name.
abbrev pub AreRows : ℕ → List Desc → List CString → Type 0
AreRows width [] lines = lines ≡ []
AreRows width (d ∷ ds) lines =
    (first d.cmd ≡ 0) × AreRows width ds lines
    ⊎ (first d.cmd ≢ 0)
      × (line : CString) × (more : List CString) × (lines ≡ line ∷ more)
      × IsRow width d line
      × AreRows width ds more

-- One of the tokens has a name of that length.
abbrev pub HasWidth : ℕ → List Desc → Type 0
HasWidth width [] = ⊥
HasWidth width (d ∷ ds) =
    (first d.cmd ≢ 0) × ((name : CString) × IsName d name × (length name ≡ width))
    ⊎ HasWidth width ds

-- The names of the tokens are not longer than the column.
abbrev AllFit : ℕ → List Desc → Type 0
AllFit width ds = AllDescs (λ d. (is_blank d ≡ true) ⊎ (length (shown_name d.cmd) ≤ width)) ds

-- What is printed for a description: a line that says what is wrong, or a row for each token, with
-- the descriptions behind the longest name.
abbrev pub Prints : Description → Shown → Type 0
Prints reads_past shown = ⊥
Prints (refuses cmd_err_ambiguous) shown = shown ≡ prints ([] ∷ codes "% Ambiguous command." ∷ [])
Prints (refuses cmd_err_no_match) shown =
    shown ≡ prints ([] ∷ codes "% There is no matched command." ∷ [])
Prints (refuses _) shown = ⊥
Prints (describes none ds) shown = shown ≡ undefined
Prints (describes (some code) ds) shown =
    (width : ℕ) × (lines : List CString) × (shown ≡ prints ([] ∷ lines))
    × ((width ≡ 0) ⊎ HasWidth width ds)
    × AreRows width ds lines

-- The description of the words in front of the cursor and the word at it is as it should be, and it
-- is printed.
abbrev pub IsShown : {F : Type 0} → CmdVector F → List CString → Option CString → Shown → Type 0
IsShown v words src shown =
    IsDescription v words src (cmd_describe_command words src v)
    × Prints (cmd_describe_command words src v) shown
