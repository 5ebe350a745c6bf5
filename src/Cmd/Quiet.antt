-- ===== src/Cmd/Quiet.antt =====
-- Actions that are defined and leave the session alone: what the handlers do behind ENSURE_CONFIG.
use qr_wireguard_ui.Base.{
  ℕ, ◌<◌, Bool, true, false, ◌≡◌, refl, ap, ◌∙◌, some, List, [], ◌∷◌, arith, length, take, zero,
  suc, ◌-◌, ◌≤◌, lt→ltb, if◌then◌else◌,
}
use mathlib.Core.Path.{fun_ext}
use qr_wireguard_ui.Text.{CString}
use qr_wireguard_ui.Command.{Code, cmd_success}
use qr_wireguard_ui.Cmd.Parts.{length-concat}
use qr_wireguard_ui.Cmd.{
  World, System, M, pure, ◌>>=◌, concat, total, sprintf, snprintf, system, run, call, call_printed,
  cmd_execute_system_command, write_file, unlink,
}

module _ {A : Type 0} where
  pub record Quiet (m : M A) : Type 0 where
    pub at : (w : World) → (a : A) × (w' : World) × (m w ≡ some (a, w')) × (w'.session ≡ w.session)

-- The same, with `CMD_SUCCESS` for the result.
pub record Succeeds (m : M Code) : Type 0 where
  pub at : (w : World) → (w' : World) × (m w ≡ some (cmd_success, w')) × (w'.session ≡ w.session)

pub sprintf-fits :
    (size : ℕ) (parts : List CString)
    → total parts < size
    → sprintf size parts ≡ pure (concat parts)
unfolding sprintf pure
sprintf-fits size parts h = fun_ext λ w. rw (lt→ltb _ _ h)

take_all : (n : ℕ) (s : CString) → length s ≤ n → take n s ≡ s
take_all zero [] h = refl
take_all zero (c ∷ s) h = absurd (omega arith)
take_all (suc n) [] h = refl
take_all (suc n) (c ∷ s) h = ap (◌∷◌ c) (take_all n s (omega arith))

pub snprintf-fits :
    (size : ℕ) (parts : List CString)
    → total parts < size
    → snprintf size parts ≡ pure (concat parts)
unfolding snprintf
snprintf-fits size parts h =
    ap pure (take_all (size - 1) (concat parts) (omega (arith, length-concat parts)))

pub sprintf-some :
    (size : ℕ) (parts : List CString) (w : World)
    → total parts < size
    → sprintf size parts w ≡ some (concat parts, w)
unfolding pure
sprintf-some size parts w h = ap (λ m. m w) (sprintf-fits size parts h)

module _ {A : Type 0} where
  pub Quiet-pure : (a : A) → Quiet (pure a)
  unfolding pure
  Quiet-pure a = record { at = λ w. (a, w, refl, refl) }

  pub Quiet-if : (b : Bool) (m n : M A) → Quiet m → Quiet n → Quiet (if b then m else n)
  Quiet-if true m n km kn = km
  Quiet-if false m n km kn = kn

module _ {A B : Type 0} where
  pub Quiet-bind : (m : M A) (f : A → M B) → Quiet m → ((a : A) → Quiet (f a)) → Quiet (m >>= f)
  unfolding ◌>>=◌
  Quiet-bind m f km kf = record {
    at = λ w.
        let (a, w', ran, same) = km.at w in
        let (b, w'', ran', same') = (kf a).at w' in (b, w'', rw (ran, ◌>>=◌) ran', same' ∙ same);
  }

module _ {A B : Type 0} where
  -- One step of a block.
  pub bind_some :
      (m : M A) (f : A → M B) {a : A} {w w' : World} → m w ≡ some (a, w') → (m >>= f) w ≡ f a w'
  unfolding ◌>>=◌
  bind_some m f h = rw (h, ◌>>=◌) refl

pub Succeeds-pure : Succeeds (pure cmd_success)
unfolding pure
Succeeds-pure = record { at = λ w. (w, refl, refl) }

pub Succeeds-if :
    (b : Bool) (m n : M Code) → Succeeds m → Succeeds n → Succeeds (if b then m else n)
Succeeds-if true m n km kn = km
Succeeds-if false m n km kn = kn

module _ {A : Type 0} where
  pub Succeeds-bind :
      (m : M A) (f : A → M Code) → Quiet m → ((a : A) → Succeeds (f a)) → Succeeds (m >>= f)
  unfolding ◌>>=◌
  Succeeds-bind m f km kf = record {
    at = λ w.
        let (a, w', ran, same) = km.at w in
        let (w'', ran', same') = (kf a).at w' in (w'', rw (ran, ◌>>=◌) ran', same' ∙ same);
  }

pub Quiet-sprintf :
    (size : ℕ) (parts : List CString) → total parts < size → Quiet (sprintf size parts)
Quiet-sprintf size parts h = rw (sprintf-fits size parts h) (Quiet-pure (concat parts))

pub Quiet-system : (sys : System) (command : CString) → Quiet (system sys command)
unfolding system
Quiet-system sys command = record { at = λ w. (_, _, refl, refl) }

pub Quiet-run :
    (sys : System) (size : ℕ) (parts : List CString)
    → total parts < size
    → Quiet (run sys size parts)
unfolding run
Quiet-run sys size parts h =
    Quiet-bind (sprintf size parts) (system sys) (Quiet-sprintf size parts h) (Quiet-system sys)

pub Quiet-call : (sys : System) (command : CString) → Quiet (call sys command)
unfolding call
Quiet-call sys command = Quiet-bind _ _ (Quiet-system sys command) (λ _. Quiet-pure tt)

pub Quiet-call_printed :
    (sys : System) (size : ℕ) (parts : List CString)
    → total parts < size
    → Quiet (call_printed sys size parts)
unfolding call_printed
Quiet-call_printed sys size parts h =
    Quiet-bind _ _ (Quiet-run sys size parts h) (λ _. Quiet-pure tt)

pub Quiet-execute :
    (command : CString) (argv : List CString) → Quiet (cmd_execute_system_command command argv)
unfolding cmd_execute_system_command
Quiet-execute command argv = record { at = λ w. (_, _, refl, refl) }

pub Quiet-write : (path text : CString) → Quiet (write_file path text)
unfolding write_file
Quiet-write path text = record { at = λ w. (_, _, refl, refl) }

pub Quiet-unlink : (path : CString) → Quiet (unlink path)
unfolding unlink
Quiet-unlink path = record { at = λ w. (_, _, refl, refl) }

pub ruleset quiet_rules = (
  Quiet-pure, Quiet-if, Quiet-bind, Succeeds-pure, Succeeds-if, Succeeds-bind, Quiet-system,
  Quiet-run, Quiet-call, Quiet-execute, Quiet-write, Quiet-unlink,
)
