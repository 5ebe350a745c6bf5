-- ===== src/Cmd/Parts.antt =====
-- Texts that sprintf puts together from parts.
use qr_wireguard_ui.Base.{
  ◌≤◌, true, ◌&&◌, ◌≡◌, ◌≢◌, ℕ, refl, ◌∙◌, List, [], ◌∷◌, ◌++◌, arith, length, length-append,
}
use qr_wireguard_ui.Text.{CString, starts_with}
use qr_wireguard_ui.Config.Printf.{no_percent}
use qr_wireguard_ui.Cmd.{concat, total}

no_percent-append : (s t : CString) → no_percent (s ++ t) ≡ (no_percent s && no_percent t)
unfolding no_percent
no_percent-append [] t = refl
no_percent-append (c ∷ s) t = ground (arith, no_percent-append s t)

-- No part has a `%`.
abbrev pub AllPlain : List CString → Type 0
AllPlain [] = Unit
AllPlain (s ∷ rest) = (no_percent s ≡ true) × AllPlain rest

pub no_percent-concat : (parts : List CString) → AllPlain parts → no_percent (concat parts) ≡ true
unfolding no_percent
no_percent-concat [] h = refl
no_percent-concat (s ∷ rest) h =
    no_percent-append s (concat rest) ∙ ground (arith, no_percent-concat rest h.1)

pub starts_with-append_both : (p s t : CString) → starts_with (p ++ s) (p ++ t) ≡ starts_with s t
unfolding starts_with
starts_with-append_both [] s t = refl
starts_with-append_both (c ∷ p) s t = ground (arith, starts_with-append_both p s t)

-- The text of some parts begins with the text of the first ones.
pub starts_with-concat :
    (parts more : List CString) → starts_with (concat parts) (concat (parts ++ more)) ≡ true
unfolding starts_with
starts_with-concat [] more = refl
starts_with-concat (s ∷ rest) more =
    starts_with-append_both s (concat rest) (concat (rest ++ more)) ∙ starts_with-concat rest more

pub length-concat : (parts : List CString) → length (concat parts) ≡ total parts
length-concat [] = refl
length-concat (s ∷ rest) = omega (arith, length-append s (concat rest), length-concat rest)

pub total-append : (parts more : List CString) → total parts ≤ total (parts ++ more)
total-append [] more = omega arith
total-append (s ∷ rest) more = omega (arith, total-append rest more)

pub cons-ne-nil : (c : ℕ) (s : CString) → (c ∷ s) ≢ []
cons-ne-nil c s e = absurd (ground arith)
