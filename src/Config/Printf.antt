-- ===== src/Config/Printf.antt =====
-- `vasprintf` of <stdio.h>, for the formats that `config_add_line` is given: text, `%s` and `%%`.
use mathlib.Core.Option
use qr_wireguard_ui.Base.{
  Bool, true, ◌&&◌, not, ◌≡◌, refl, Option, none, some, List, [], ◌∷◌, ◌++◌, ◌==◌, if◌then◌else◌,
  arith,
}
use qr_wireguard_ui.Text.{CString}

-- `none`: a conversion that is not `%s` or `%%`, or a `%s` with no argument left.
unfoldable pub vasprintf : CString → List CString → Option CString
vasprintf [] args = some []
vasprintf (c ∷ []) args = if c == b'%' then none else some (c ∷ [])
vasprintf (c ∷ d ∷ rest) args =
    let text = Option.map (◌∷◌ c) (vasprintf (d ∷ rest) args) in
    let percent = Option.map (◌∷◌ b'%') (vasprintf rest args) in
    let string : Option CString = elim args [
      | [] ↦ none
      | arg ∷ more ↦ Option.map (◌++◌ arg) (vasprintf rest more)
    ] in
    if not (c == b'%')
    then text
    else if d == b'%'
    then percent
    else if d == b's'
    then string
    else none

unfoldable pub no_percent : CString → Bool
no_percent [] = true
no_percent (c ∷ s) = not (c == b'%') && no_percent s

-- Text with no `%` is printed as it is.
pub vasprintf-no_percent : (line : CString) → no_percent line ≡ true → vasprintf line [] ≡ some line
unfolding vasprintf no_percent
vasprintf-no_percent [] h = refl
vasprintf-no_percent (c ∷ []) h = ground arith
vasprintf-no_percent (c ∷ d ∷ rest) h = ground (arith, vasprintf-no_percent (d ∷ rest))
