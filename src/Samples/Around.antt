-- ===== src/Samples/Around.antt =====
-- A run that pruning stops, and the link to the newer of two logs.
use pypipegraph.Enums.{console}
use pypipegraph.Exec.{raise, return}
use pypipegraph.Logs.Latest.{LinkEntry, entry_itself, latest_is_greatest, link_latest, link_to}
use pypipegraph.Prelude.{
  Bool, Dict, String, [], false, has_key, lookup, none, refl, some, text_le, true, ℕ, ◌+◌, ◌==◌,
  ◌∷◌, ◌≡◌, ◌⊎◌,
}
use pypipegraph.Session.Around.{Conduct, Steps, handler, run_around}
use pypipegraph.Session.Around.Quiet.{Ending, SameHandlers, run_ends_quiet}

abbrev quiet_steps : Steps ℕ Bool ℕ
quiet_steps = record {
  is_directed_acyclic_graph = λ w. true;
  not_a_dag_error = false;
  resolve_dependency_callbacks = λ w. (return tt, w + 1);
  prepare_logs = λ w. (return tt, w);
  prune = λ w. (raise true, w);
  rounds = λ focus s. (return 5, s);
}

abbrev idle : Conduct ℕ
idle = record {
  running = false;
  run_mode = console;
  on_hup = handler 1;
  on_int = handler 2;
  old_signal_hup = none;
  old_signal_int = none;
  restart_afterwards = false;
  restarts = 0;
  world = 0;
}

run_ends_quiet_example :
    SameHandlers idle (run_around quiet_steps none idle).1
    × Ending quiet_steps idle (run_around quiet_steps none idle)
run_ends_quiet_example =
    run_ends_quiet quiet_steps none idle (λ s. (refl, refl, refl, refl, refl)) (λ h. refl)

abbrev log_entries : Dict LinkEntry
log_entries = ("b.log", entry_itself) ∷ ("latest", link_to "a.log") ∷ ("a.log", entry_itself) ∷ []

latest_is_greatest_example :
    ((x : String)
      → ("latest" == x) ≡ false
      → lookup x (link_latest (λ n. true) "latest" log_entries) ≡ lookup x log_entries)
    × (((lookup "latest" (link_latest (λ n. true) "latest" log_entries) ≡ none)
          × ((x : String) → true ≡ true → has_key x log_entries ≡ true → "latest" ≡ x))
        ⊎ ((f : String) × (lookup "latest" (link_latest (λ n. true) "latest" log_entries)
              ≡ some (link_to f))
            × (true ≡ true)
            × (has_key f log_entries ≡ true)
            × (("latest" == f) ≡ false)
            × ((x : String)
                → true ≡ true
                → has_key x log_entries ≡ true
                → ("latest" == x) ≡ false
                → text_le x f ≡ true)))
latest_is_greatest_example = latest_is_greatest (λ n. true) "latest" log_entries
