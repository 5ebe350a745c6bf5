-- ===== src/Command/Complete/Lcd.antt =====
-- `cmd_lcd`: how many bytes the matched strings have in common.
use qr_wireguard_ui.Base.{
  ℕ, suc, ◌≤◌, Bool, true, false, ◌≡◌, zero, ◌↔◌, sym, refl, ap, ◌∙◌, Option, none, some, List, [],
  ◌∷◌, ◌==◌, ltb, leb, length, take, arith, if◌then◌else◌, Bool-cases, inl, inr,
}
use mathlib.Core.Path.{ap₂}
use qr_wireguard_ui.Text.{CString, first}

-- The loop over `j`.
unfoldable pub common : CString → CString → ℕ
common [] s2 = 0
common (c1 ∷ s1) [] = 0
common (c1 ∷ s1) (c2 ∷ s2) = let more = common s1 s2 in if c1 == c2 then suc more else 0

-- The loop over `i`; `lcd` is `none` while it is negative.
unfoldable pub lcd_loop : Option ℕ → CString → List CString → Option ℕ
unfolding common
lcd_loop lcd s1 [] = lcd
lcd_loop none s1 (s2 ∷ rest) = lcd_loop (some (common s1 s2)) s2 rest
lcd_loop (some lcd) s1 (s2 ∷ rest) =
    let j = common s1 s2 in lcd_loop (some (if ltb j lcd then j else lcd)) s2 rest

unfoldable pub cmd_lcd : List CString → ℕ
unfolding lcd_loop
cmd_lcd [] = 0
cmd_lcd (s ∷ []) = 0
cmd_lcd (s ∷ t ∷ rest) = elim (lcd_loop none s (t ∷ rest)) [ none ↦ 0 | some lcd ↦ lcd ]

-- The first `k` bytes are there in both strings and the same.
abbrev pub AgreeUpTo : ℕ → CString → CString → Type 0
AgreeUpTo k s t = (k ≤ length t) × (take k t ≡ take k s)

abbrev pub AllAgree : ℕ → CString → List CString → Type 0
AllAgree k s [] = Unit
AllAgree k s (t ∷ rest) = AgreeUpTo k s t × AllAgree k s rest

tail_of : CString → CString
tail_of [] = []
tail_of (c ∷ s) = s

cons-injective_tail : {c d : ℕ} {s t : CString} → c ∷ s ≡ d ∷ t → s ≡ t
unfolding tail_of
cons-injective_tail e = ap tail_of e

cons-injective_head : {c d : ℕ} {s t : CString} → c ∷ s ≡ d ∷ t → c ≡ d
cons-injective_head e = ap first e

common-AgreeUpTo : (k : ℕ) (s t : CString) → k ≤ length s → (k ≤ common s t) ↔ AgreeUpTo k s t
unfolding common
common-AgreeUpTo zero s t l = ((λ h. (omega arith, refl)), (λ h. omega arith))
common-AgreeUpTo (suc k) [] t l = absurd (omega arith)
common-AgreeUpTo (suc k) (c ∷ s) [] l =
    ((λ h. absurd (omega arith)), (λ h. absurd (omega (arith, h.0))))
common-AgreeUpTo (suc k) (c ∷ s) (d ∷ t) l =
    let ih = common-AgreeUpTo k s t (omega arith) in
    elim (Bool-cases (c == d)) [
      | inl same ↦
          let e : d ≡ c = ground arith in
          rw same (
            (λ h.
                let (more, agree) = ih.0 (omega (arith, h)) in
                (omega (arith, more), ap₂ ◌∷◌ e agree)),
            (λ h. omega (arith, ih.1 (omega (arith, h.0), cons-injective_tail h.1))),
          )
      | inr other ↦ rw other (
        (λ h. absurd (omega (arith, h))),
        (λ h. absurd (ground (arith, other, cons-injective_head h.1))),
      )
    ]

AllAgree-trans :
    (k : ℕ) (s t : CString) (rest : List CString)
    → take k t ≡ take k s
    → AllAgree k t rest
    → AllAgree k s rest
AllAgree-trans k s t [] e a = tt
AllAgree-trans k s t (u ∷ rest) e ((l, f), a) = ((l, f ∙ e), AllAgree-trans k s t rest e a)

lcd_loop-le :
    (lcd : ℕ) (s : CString) (rest : List CString)
    → (n : ℕ) × (lcd_loop (some lcd) s rest ≡ some n) × (n ≤ lcd)
unfolding lcd_loop
lcd_loop-le lcd s [] = (lcd, refl, omega arith)
lcd_loop-le lcd s (t ∷ rest) =
    let (n, e, le) = lcd_loop-le (if ltb (common s t) lcd then common s t else lcd) t rest in
    (n, e, ground (arith, le))

lcd_loop-AllAgree :
    (k lcd : ℕ) (s : CString) (rest : List CString)
    → k ≤ length s
    → (n : ℕ) × (lcd_loop (some lcd) s rest ≡ some n) × ((k ≤ n) ↔ ((k ≤ lcd) × AllAgree k s rest))
unfolding lcd_loop
lcd_loop-AllAgree k lcd s [] l = (lcd, refl, ((λ h. (h, tt)), (λ h. h.0)))
lcd_loop-AllAgree k lcd s (t ∷ rest) l =
    let next = if ltb (common s t) lcd then common s t else lcd in
    elim (Bool-cases (leb k (common s t))) [
      | inl reaches ↦
          let agree = (common-AgreeUpTo k s t l).0 (ground (arith, reaches)) in
          let (n, e, iff) = lcd_loop-AllAgree k next t rest agree.0 in
          (
            n,
            e,
            (
              (λ h.
                  let (low, all) = iff.0 h in
                  (ground (arith, low, reaches), (agree, AllAgree-trans k s t rest agree.1 all))),
              (λ h.
                  iff.1
                    (ground (arith, h.0, reaches), AllAgree-trans k t s rest (sym agree.1) h.1.1)),
            ),
          )
      | inr short ↦
          let (n, e, le) = lcd_loop-le next t rest in
          (
            n,
            e,
            (
              (λ h. absurd (ground (arith, h, le, short))),
              (λ h. absurd (ground (arith, short, (common-AgreeUpTo k s t l).1 h.1.0))),
            ),
          )
    ]

if_same : (b : Bool) (x : ℕ) → (if b then x else x) ≡ x
if_same true x = refl
if_same false x = refl

-- At least two strings: any number of bytes of the first, `k`, is at most what `cmd_lcd` returns
-- just when all the others begin with these bytes.
pub cmd_lcd-AllAgree :
    (k : ℕ) (s t : CString) (rest : List CString)
    → k ≤ length s
    → (k ≤ cmd_lcd (s ∷ t ∷ rest)) ↔ AllAgree k s (t ∷ rest)
unfolding cmd_lcd lcd_loop
cmd_lcd-AllAgree k s t rest l =
    let c = common s t in
    let (n, e, iff) = lcd_loop-AllAgree k c s (t ∷ rest) l in
    let known = ap (λ j. lcd_loop (some j) t rest) (sym (if_same (ltb c c) c)) ∙ e in
    rw (known, cmd_lcd) ((λ h. (iff.0 h).1), (λ a. iff.1 ((common-AgreeUpTo k s t l).1 a.0, a)))

common-le : (s t : CString) → common s t ≤ length s
unfolding common
common-le [] t = omega arith
common-le (c ∷ s) [] = omega arith
common-le (c ∷ s) (d ∷ t) = ground (arith, common-le s t)

pub cmd_lcd-le : (s t : CString) (rest : List CString) → cmd_lcd (s ∷ t ∷ rest) ≤ length s
unfolding cmd_lcd lcd_loop
cmd_lcd-le s t rest =
    let (n, e, le) = lcd_loop-le (common s t) t rest in
    rw (e, cmd_lcd) (omega (arith, le, common-le s t))
