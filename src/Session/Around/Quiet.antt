-- ===== src/Session/Around/Quiet.antt =====
-- graph.py, PyPipeGraph._run: the state in which a run leaves the graph and the process.
use pypipegraph.Exec.{Exec, Result, raise, return}
use pypipegraph.Prelude.{
  Bool-cases, List, Option, String, arith, false, inl, inr, none, refl, true, ◌≡◌, ◌⊎◌,
}
use pypipegraph.Session.Around.{
  Conduct, Steps, finally_run, guarded_rounds, install_signals, is_console, restore_signals,
  run_around,
}

module _ {W : Type 0} where
  -- The handlers and the mode are the same in both.
  abbrev pub SameConduct : Conduct W → Conduct W → Type 0
  SameConduct s t =
      (t.run_mode ≡ s.run_mode)
      × (t.on_hup ≡ s.on_hup)
      × (t.on_int ≡ s.on_int)
      × (t.old_signal_hup ≡ s.old_signal_hup)
      × (t.old_signal_int ≡ s.old_signal_int)

  -- Outside of the console nobody has set _old_signal_hup.
  abbrev pub NoOldHup : Conduct W → Type 0
  NoOldHup s = is_console s.run_mode ≡ false → s.old_signal_hup ≡ none

  abbrev pub SameHandlers : Conduct W → Conduct W → Type 0
  SameHandlers s t = (t.on_hup ≡ s.on_hup) × (t.on_int ≡ s.on_int)

  restored :
      (s t : Conduct W)
      → NoOldHup s
      → SameConduct (install_signals s) t
      → SameHandlers s (finally_run t) × ((finally_run t).running ≡ false)
  unfolding install_signals finally_run restore_signals
  restored s t fresh (same_mode, hup_kept, int_kept, old_hup, old_int) =
      elim (Bool-cases (is_console s.run_mode)) [
        | inl console_mode ↦
            ground (arith, console_mode, same_mode, hup_kept, int_kept, old_hup, old_int)
        | inr other_mode ↦
            ground
              (arith, other_mode, fresh other_mode, same_mode, hup_kept, int_kept, old_hup, old_int)
      ]

Result-cases :
    {E A : Type 0} (r : Result E A) → ((a : A) × (r ≡ return a)) ⊎ ((e : E) × (r ≡ raise e))
Result-cases (return a) = inl (a, refl)
Result-cases (raise e) = inr (e, refl)

module _ {W E B : Type 0} where
  abbrev pub Raises : Exec W E B → W → Type 0
  Raises m w = (e : E) × ((m w).0 ≡ raise e)

module _ {W E A : Type 0} where
  -- The rounds leave signals and mode alone.
  abbrev pub LeavesSignals : Steps W E A → Option (List String) → Type 0
  LeavesSignals S focus = (s : Conduct W) → SameConduct s (S.rounds focus s).1

  -- How a run ends for the flag `running`: where it stops before the flag is set, where it stops
  -- between that and the rounds, and otherwise.
  abbrev pub Ending : Steps W E A → Conduct W → Result E A × Conduct W → Type 0
  Ending S s done =
      (((S.is_directed_acyclic_graph s.world ≡ false)
          ⊎ Raises S.resolve_dependency_callbacks s.world)
        × (done.1.running ≡ s.running))
      ⊎ ((Raises S.prepare_logs (S.resolve_dependency_callbacks s.world).1
            ⊎ Raises S.prune (S.prepare_logs (S.resolve_dependency_callbacks s.world).1).1)
          × (e : E) × (done.0 ≡ raise e)
          × (done.1.running ≡ true))
      ⊎ (done.1.running ≡ false)

  -- A run leaves the handlers of SIGHUP and SIGINT as they were, however it ends (provided that the
  -- rounds do not touch them, and that _old_signal_hup is only there in the console). It leaves
  -- `running` False, but for two kinds of exceptions: one from before the flag is set, which
  -- leaves the flag as it was, and one out of the logs' preparation or the pruning, which leaves
  -- the graph marked as running.
  pub run_ends_quiet :
      (S : Steps W E A) (focus : Option (List String)) (s : Conduct W)
      → LeavesSignals S focus
      → NoOldHup s
      → SameHandlers s (run_around S focus s).1 × Ending S s (run_around S focus s)
  unfolding run_around guarded_rounds
  run_ends_quiet S focus s leaves fresh =
      let w1 : W = (S.resolve_dependency_callbacks s.world).1 in
      let w2 : W = (S.prepare_logs w1).1 in
      let ready : Conduct W = record s {
        running = true;
        restart_afterwards = false;
        world = (S.prune w2).1;
      } in
      elim (Bool-cases (S.is_directed_acyclic_graph s.world)) [
        | inr cyclic ↦ rw cyclic ((refl, refl), inl (inl refl, refl))
        | inl acyclic ↦ elim (Result-cases (S.resolve_dependency_callbacks s.world).0) [
          | inr (e, stopped) ↦ rw (acyclic, stopped) ((refl, refl), inl (inr (e, refl), refl))
          | inl (_, resolved) ↦ elim (Result-cases (S.prepare_logs w1).0) [
            | inr (e, stopped) ↦
                rw (acyclic, resolved, stopped)
                  ((refl, refl), inr (inl (inl (e, refl), e, refl, refl)))
            | inl (_, prepared) ↦ elim (Result-cases (S.prune w2).0) [
              | inr (e, stopped) ↦
                  rw (acyclic, resolved, prepared, stopped)
                    ((refl, refl), inr (inl (inr (e, refl), e, refl, refl)))
              | inl (_, kept) ↦
                  let (handlers, quiet) =
                    restored ready (S.rounds focus (install_signals ready)).1 fresh
                      (leaves (install_signals ready)) in
                  rw (acyclic, resolved, prepared, kept) (handlers, inr (inr quiet))
            ]
          ]
        ]
      ]
