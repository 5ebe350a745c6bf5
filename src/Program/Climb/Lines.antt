-- ===== src/Program/Climb/Lines.antt =====
-- Lines typed in the view node or the enable node: none changes the configuration before one leads
-- to the configuration node.
use qr_wireguard_ui.Base.{
  true, ◌≡◌, ◌⊎◌, inl, inr, refl, sym, ap, ◌∙◌, Option, none, some, List, [], ◌∷◌, ◌++◌, arith,
  length, ◌≤◌,
}
use mathlib.Core.Path.{subst}
use qr_wireguard_ui.Text.{CString}
use qr_wireguard_ui.Command.{Code, CmdElement}
use qr_wireguard_ui.Command.Tokens.{cmd_make_strvec}
use qr_wireguard_ui.Command.Spec.{Slots, all_alone, accepts_completion}
use qr_wireguard_ui.Command.Execute.{
  Outcome, fault, fails, daemon_success, calls, cmd_execute_command,
}
use qr_wireguard_ui.Command.Execute.Sound.{Chosen, IsSound}
use qr_wireguard_ui.Command.Execute.Dispatch.{cmd_execute_command-IsSound}
use qr_wireguard_ui.Session.{
  NodeType, view_node, enable_node, config_node, Host, Session, Step, faults, exits, returns,
}
use qr_wireguard_ui.Session.Shell.{
  Func, run, outcome_step, vtysh_execute_func, execute_at, vtysh_execute, vtysh_lines,
}
use qr_wireguard_ui.Cmd.{System}
use qr_wireguard_ui.Program.{Handler, handle}
use qr_wireguard_ui.Program.Climb.{IsBelow, Keeps, same-Keeps, AnySlot-Slots}
use qr_wireguard_ui.Program.Climb.Nodes.{
  lacks_vararg, lacks_vararg_lem, KeepsAt, view_keeps_all, enable_keeps_all, view_alone,
  enable_alone,
}
use qr_wireguard_ui.Program.Install.{cmdvec}
use qr_wireguard_ui.Program.Main.Eval.{lines_cons}

-- The session is below the configuration node again, with the configuration and the host as before.
abbrev pub StaysBelow : Session → Step → Type 0
StaysBelow s faults = ⊥
StaysBelow s (exits status) = Unit
StaysBelow s (returns ret s') = IsBelow s' × (s'.config_top ≡ s.config_top) × (s'.host ≡ s.host)

module _ (crypt : CString → CString → Option CString) (systems : Session → System)
    (stdin : Session → Option CString) where
  module _ (node : NodeType) (alone : Slots (λ e. all_alone e.strvec ≡ true) (cmdvec node))
      (keeps_all : Slots (KeepsAt crypt systems stdin node) (cmdvec node)) where
    -- The words that choose an element are enough for it.
    enough :
        (e : CmdElement (Func Handler)) (vline : List CString)
        → Chosen accepts_completion vline (cmdvec node) e
        → lacks_vararg e.strvec ≡ true
        → e.cmdsize ≤ length vline
    enough e vline chosen lacks = elim chosen.ends [
      | inl (all, words) ↦ words
      | inr (index, read, (ds, at, has)) ↦
          absurd (ground (arith, has, lacks_vararg_lem e.strvec index ds lacks at))
    ]

    outcome-Keeps :
        (vline : List CString) (s : Session) (o : Outcome (Func Handler))
        → IsSound accepts_completion vline (cmdvec node) o
        → s.vty.node ≡ node
        → IsBelow s
        → Keeps s (outcome_step crypt (handle systems stdin) cmdvec s o)
    outcome-Keeps vline s fault h v b = h
    outcome-Keeps vline s (fails code) h v b = same-Keeps s b
    outcome-Keeps vline s (daemon_success e) h v b = absurd (
        h.1
          (AnySlot-Slots (KeepsAt crypt systems stdin node) (cmdvec node) e keeps_all
            h.0.installed).0)
    outcome-Keeps vline s (calls e argv) h v b =
        let (_, lacks, keeps) =
          AnySlot-Slots (KeepsAt crypt systems stdin node) (cmdvec node) e keeps_all
            h.0.installed in
        subst (λ given. Keeps s (run crypt (handle systems stdin) cmdvec e.func given s)) (sym h.2)
          (keeps vline (enough e vline h.0 lacks) s v b)

    words_keep :
        (o : Option (List CString)) (s : Session)
        → s.vty.node ≡ node
        → IsBelow s
        → Keeps s (elim o [
          | none ↦ returns none s
          | some vline ↦
              outcome_step crypt
                (handle systems stdin)
                cmdvec
                s
                (cmd_execute_command vline (cmdvec s.vty.node))
        ])
    words_keep none s v b = same-Keeps s b
    words_keep (some vline) s v b =
        outcome-Keeps vline s _
          (subst
            (λ n.
              IsSound accepts_completion vline (cmdvec node) (cmd_execute_command vline (cmdvec n)))
            (sym v) (cmd_execute_command-IsSound vline (cmdvec node) alone))
          v b

  -- A line that is typed below the configuration node.
  vtysh_execute-Keeps :
      (line : CString) (s : Session)
      → IsBelow s
      → Keeps s (vtysh_execute crypt (handle systems stdin) cmdvec line s)
  unfolding vtysh_execute vtysh_execute_func
  vtysh_execute-Keeps line s (inl view, no_enable, no_encrypt) =
      subst (λ n. Keeps s (execute_at crypt (handle systems stdin) cmdvec n line s)) (sym view)
        (words_keep view_node view_alone (view_keeps_all crypt systems stdin)
          (cmd_make_strvec (some line)) s view (inl view, no_enable, no_encrypt))
  vtysh_execute-Keeps line s (inr enabled, no_enable, no_encrypt) =
      subst (λ n. Keeps s (execute_at crypt (handle systems stdin) cmdvec n line s)) (sym enabled)
        (words_keep enable_node enable_alone (enable_keeps_all crypt systems stdin)
          (cmd_make_strvec (some line)) s enabled (inr enabled, no_enable, no_encrypt))

  -- The first of the lines lead to the enable node, and the next one from there to the configuration
  -- node, with the configuration and the host as before.
  abbrev pub Enters : Session → List CString → Type 0
  Enters s lines =
      (front : List CString) × (line : CString) × (rest : List CString) × (lines
        ≡ front ++ (line ∷ rest))
      × (enabled : Session) × (vtysh_lines crypt (handle systems stdin) cmdvec front s
          ≡ returns none enabled)
      × (enabled.vty.node ≡ enable_node)
      × (ret : Option Code) × (s' : Session) × (vtysh_execute crypt (handle systems stdin) cmdvec
            line enabled
          ≡ returns ret s')
      × (s'.vty.node ≡ config_node)
      × (s'.config_top ≡ s.config_top)
      × (s'.host ≡ s.host)

  vtysh_lines_nil :
      (s : Session) → vtysh_lines crypt (handle systems stdin) cmdvec [] s ≡ returns none s
  unfolding vtysh_lines
  vtysh_lines_nil s = refl

  stays_on :
      (s s' : Session) (step : Step)
      → s'.config_top ≡ s.config_top
      → s'.host ≡ s.host
      → StaysBelow s' step
      → StaysBelow s step
  stays_on s s' faults c h b = b
  stays_on s s' (exits status) c h b = b
  stays_on s s' (returns ret t) c h (below, config, host) = (below, config ∙ c, host ∙ h)

  -- A session below, with the same host, is without a password too.
  go_on :
      (line : CString) (rest : List CString) (s s' : Session) (ret : Option Code)
      → vtysh_execute crypt (handle systems stdin) cmdvec line s ≡ returns ret s'
      → s'.config_top ≡ s.config_top
      → s'.host ≡ s.host
      → StaysBelow s' (vtysh_lines crypt (handle systems stdin) cmdvec rest s') ⊎ Enters s' rest
      → StaysBelow s (vtysh_lines crypt (handle systems stdin) cmdvec rest s')
        ⊎ Enters s (line ∷ rest)
  go_on line rest s s' ret e c h (inl stays) = inl (stays_on s s' _ c h stays)
  go_on line rest s s' ret e c h
        (inr (front, next, back, split, t, ran, from, code, u, run, at, config, host)) =
      inr (
        line ∷ front,
        next,
        back,
        ap (◌∷◌ line) split,
        t,
        lines_cons crypt systems stdin line front ret s s' e ∙ ran,
        from,
        code,
        u,
        run,
        at,
        config ∙ c,
        host ∙ h,
      )

  IsBelow-again :
      (s s' : Session)
      → IsBelow s
      → s'.host ≡ s.host
      → (s'.vty.node ≡ view_node) ⊎ (s'.vty.node ≡ enable_node)
      → IsBelow s'
  IsBelow-again s s' (at, no_enable, no_encrypt) h at' = (
    at',
    ap (λ (x : Host). x.enable) h ∙ no_enable,
    ap (λ (x : Host). x.enable_encrypt) h ∙ no_encrypt,
  )

  next_lines :
      (line : CString) (rest : List CString) (s : Session) (step : Step)
      → vtysh_execute crypt (handle systems stdin) cmdvec line s ≡ step
      → IsBelow s
      → Keeps s step
      → ((s' : Session)
          → IsBelow s'
          → StaysBelow s' (vtysh_lines crypt (handle systems stdin) cmdvec rest s')
            ⊎ Enters s' rest)
      → StaysBelow s (elim step as (λ x. Step) [
        | faults ↦ faults
        | exits status ↦ exits status
        | returns ret s' ↦ vtysh_lines crypt (handle systems stdin) cmdvec rest s'
      ])
        ⊎ Enters s (line ∷ rest)
  next_lines line rest s faults e b h k = absurd h
  next_lines line rest s (exits status) e b h k = inl tt
  next_lines line rest s (returns ret s') e b (config, host, type, inl view) k =
      go_on line rest s s' ret e config host (k s' (IsBelow-again s s' b host (inl view)))
  next_lines line rest s (returns ret s') e b (config, host, type, inr (inl enabled)) k =
      go_on line rest s s' ret e config host (k s' (IsBelow-again s s' b host (inr enabled)))
  next_lines line rest s (returns ret s') e b (config, host, type, inr (inr (from, at))) k =
      inr ([], line, rest, refl, s, vtysh_lines_nil s, from, ret, s', e, at, config, host)

  -- With the commands that the program installs, no password, and whatever the system answers, the
  -- lines that are typed in the view node or the enable node end the process, or leave the shell in
  -- one of the two nodes with the configuration and the host as before, or else the first of them
  -- lead to the enable node and the next one from there to the configuration node, with the
  -- configuration and the host as before there; no call on the way is undefined.
  pub program-StaysBelow :
      (lines : List CString) (s : Session)
      → IsBelow s
      → StaysBelow s (vtysh_lines crypt (handle systems stdin) cmdvec lines s) ⊎ Enters s lines
  unfolding vtysh_lines
  program-StaysBelow [] s b = inl (b, refl, refl)
  program-StaysBelow (line ∷ rest) s b =
      next_lines line rest s (vtysh_execute crypt (handle systems stdin) cmdvec line s) refl b
        (vtysh_execute-Keeps line s b) (λ s' b'. program-StaysBelow rest s' b')
