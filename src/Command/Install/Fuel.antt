-- ===== src/Command/Install/Fuel.antt =====
-- `cmd_make_descvec` ends.
use qr_wireguard_ui.Base.{
  ℕ, zero, suc, ◌+◌, ◌≤◌, ◌<◌, Bool, true, false, ◌≡◌, refl, Option, none, some, List, [], ◌∷◌,
  ◌++◌, ◌==◌, length, if◌then◌else◌, arith,
}
use qr_wireguard_ui.Text.{CString}
use qr_wireguard_ui.Command.{Desc}
use qr_wireguard_ui.Command.Install.{
  token_of, behind_token, set_last, before_token, Parsed, out_of_fuel, exits, made, descvec_loop,
  cmd_make_descvec, cmd_desc_str, add_desc, cmd_cmdsize,
}
use qr_wireguard_ui.Command.Install.Progress.{round-lt}

-- Every position has a token.
unfoldable pub all_filled : List (List Desc) → Bool
all_filled [] = true
all_filled ([] ∷ strvec) = false
all_filled ((desc ∷ descvec) ∷ strvec) = all_filled strvec

all_filled-concat :
    (allvec : List (List Desc)) (desc : Desc)
    → all_filled allvec ≡ true
    → all_filled (allvec ++ ((desc ∷ []) ∷ [])) ≡ true
unfolding all_filled
all_filled-concat [] desc h = refl
all_filled-concat ([] ∷ allvec) desc h = h
all_filled-concat ((d ∷ descvec) ∷ allvec) desc h = all_filled-concat allvec desc h

all_filled-set_last :
    (allvec : List (List Desc)) (desc : Desc)
    → all_filled allvec ≡ true
    → all_filled (set_last allvec desc) ≡ true
unfolding all_filled set_last
all_filled-set_last [] desc h = refl
all_filled-set_last ([] ∷ []) desc h = refl
all_filled-set_last ((d ∷ descvec) ∷ []) desc h = refl
all_filled-set_last ([] ∷ next ∷ allvec) desc h = h
all_filled-set_last ((d ∷ descvec) ∷ next ∷ allvec) desc h =
    all_filled-set_last (next ∷ allvec) desc h

all_filled-add_desc :
    (allvec : List (List Desc)) (multiple : ℕ) (desc : Desc)
    → all_filled allvec ≡ true
    → all_filled (add_desc allvec multiple desc) ≡ true
unfolding add_desc
all_filled-add_desc allvec zero desc h = all_filled-concat allvec desc h
all_filled-add_desc allvec (suc zero) desc h = all_filled-concat allvec desc h
all_filled-add_desc allvec (suc (suc m)) desc h = all_filled-set_last allvec desc h

-- The parse ends, by `exit` or with a vector that has a token at every position and no more
-- required positions than positions.
abbrev pub IsParsed : Parsed → Type 0
IsParsed out_of_fuel = ⊥
IsParsed exits = Unit
IsParsed (made strvec) = (all_filled strvec ≡ true) × (cmd_cmdsize strvec ≤ length strvec)

cmd_cmdsize-le : (strvec : List (List Desc)) → cmd_cmdsize strvec ≤ length strvec
unfolding cmd_cmdsize
cmd_cmdsize-le [] = omega arith
cmd_cmdsize-le ([] ∷ strvec) = omega (arith, cmd_cmdsize-le strvec)
cmd_cmdsize-le ((desc ∷ []) ∷ strvec) = ground (arith, cmd_cmdsize-le strvec)
cmd_cmdsize-le ((desc ∷ d ∷ ds) ∷ strvec) = omega (arith, cmd_cmdsize-le strvec)

-- The body of a round, behind the punctuation.
abbrev after : ℕ → CString → List (List Desc) → Option (CString × ℕ) → Parsed
after fuel dp allvec none = exits
after fuel dp allvec (some ([], multiple)) = made allvec
after fuel dp allvec (some (c ∷ sp, multiple)) =
    let (str, dp') = cmd_desc_str dp in
    descvec_loop fuel (behind_token (c ∷ sp)) dp' (if multiple == 0 then 0 else multiple + 1)
      (add_desc allvec multiple (record { cmd = token_of (c ∷ sp); str = str }))

module _ (fuel : ℕ)
    (rest : (cp dp : CString) (multiple : ℕ) (allvec : List (List Desc))
      → length cp < fuel
      → all_filled allvec ≡ true
      → IsParsed (descvec_loop fuel cp dp multiple allvec)) where
  after-IsParsed :
      (cp dp : CString) (multiple : ℕ) (allvec : List (List Desc)) (next : Option (CString × ℕ))
      → before_token cp multiple ≡ next
      → length cp < suc fuel
      → all_filled allvec ≡ true
      → IsParsed (after fuel dp allvec next)
  after-IsParsed cp dp multiple allvec none h lt filled = tt
  after-IsParsed cp dp multiple allvec (some ([], m)) h lt filled = (filled, cmd_cmdsize-le allvec)
  after-IsParsed cp dp multiple allvec (some (c ∷ sp, m)) h lt filled =
      rest (behind_token (c ∷ sp)) _ _ _ (omega (arith, round-lt cp multiple c sp m h))
        (all_filled-add_desc allvec m _ filled)

descvec_loop-IsParsed :
    (fuel : ℕ) (cp dp : CString) (multiple : ℕ) (allvec : List (List Desc))
    → length cp < fuel
    → all_filled allvec ≡ true
    → IsParsed (descvec_loop fuel cp dp multiple allvec)
unfolding descvec_loop
descvec_loop-IsParsed zero cp dp multiple allvec lt filled = absurd (omega arith)
descvec_loop-IsParsed (suc fuel) cp dp multiple allvec lt filled =
    after-IsParsed fuel (descvec_loop-IsParsed fuel) cp dp multiple allvec
      (before_token cp multiple) refl lt filled

-- `cmd_make_descvec` ends on every input: it exits, or it makes a vector with a token at every
-- position, for which `cmd_cmdsize` is at most the number of positions.
pub cmd_make_descvec-IsParsed :
    (string descstr : CString) → IsParsed (cmd_make_descvec string descstr)
unfolding cmd_make_descvec all_filled
cmd_make_descvec-IsParsed string descstr =
    descvec_loop-IsParsed (suc (length string)) string descstr 0 [] (omega arith) refl
