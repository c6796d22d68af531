-- ===== src/Session/Around.antt =====
-- graph.py, PyPipeGraph._run, run_for_these, _install_signals and _restore_signals: what surrounds the
-- rounds. The steps before them, and the rounds, are the record `Steps`, over a world of their own.
pub mod Quiet
use pypipegraph.Enums.{RunMode, console}
use pypipegraph.Exec.{Exec, modify, throw_if, ◌>>=◌, ◌>>◌}
use pypipegraph.Prelude.{
  Bool, List, Option, String, false, if◌then◌else◌, none, not, some, true, ℕ, ◌+◌,
}
use pypipegraph.Registry.Resolve.{resolve_dependency_callbacks}

pub data Handler : Type 0 where
  -- a handler from outside
  handler : ℕ → Handler
  hup sigint : Handler

-- What _run itself sets. `restarts` counts the calls of subprocess.check_call at the end.
pub record Conduct (W : Type 0) : Type 0 where
  pub running : Bool
  pub run_mode : RunMode
  pub on_hup : Handler
  pub on_int : Handler
  -- the attributes _old_signal_hup and _old_signal_int, where they are there
  pub old_signal_hup : Option Handler
  pub old_signal_int : Option Handler
  pub restart_afterwards : Bool
  pub restarts : ℕ
  pub world : W

pub record Steps (W E A : Type 0) : Type 0 where
  pub is_directed_acyclic_graph : W → Bool
  pub not_a_dag_error : E
  pub resolve_dependency_callbacks : Exec W E Unit
  -- _cleanup_errors, _link_errors, _cleanup_logs, the opening of the logs, _link_logs
  pub prepare_logs : Exec W E Unit
  -- _prune_unrelated and _prune_but, if they were asked for
  pub prune : Exec W E Unit
  -- from _load_history on; the argument are the jobs in focus
  pub rounds : Option (List String) → Exec (Conduct W) E A

abbrev pub is_console : RunMode → Bool
is_console console = true
is_console _ = false

abbrev pub or_same : Option Handler → Handler → Handler
or_same none h = h
or_same (some old) h = old

module _ {W : Type 0} where
  unfoldable pub install_signals : Conduct W → Conduct W
  install_signals s =
      let t =
        if is_console s.run_mode
        then record s { old_signal_hup = some s.on_hup; on_hup = hup }
        else s in
      record t { old_signal_int = some t.on_int; on_int = sigint }

  unfoldable pub restore_signals : Conduct W → Conduct W
  restore_signals s = record s {
    on_hup = or_same s.old_signal_hup s.on_hup;
    on_int = or_same s.old_signal_int s.on_int;
  }

  -- the `finally`
  unfoldable pub finally_run : Conduct W → Conduct W
  unfolding restore_signals
  finally_run s =
      let t = record (restore_signals s) { running = false } in
      if t.restart_afterwards then record t { restarts = t.restarts + 1 } else t

module _ {W E B : Type 0} where
  abbrev pub on_world : Exec W E B → Exec (Conduct W) E B
  on_world m s = let (r, w) = m s.world in (r, record s { world = w })

module _ {W E A : Type 0} where
  -- try: ... finally: ...
  unfoldable pub guarded_rounds : Steps W E A → Option (List String) → Exec (Conduct W) E A
  unfolding install_signals finally_run
  guarded_rounds S focus s = let (r, t) = S.rounds focus (install_signals s) in (r, finally_run t)

  unfoldable pub run_around : Steps W E A → Option (List String) → Exec (Conduct W) E A
  unfolding guarded_rounds
  run_around S focus = do
    (λ s. throw_if (not (S.is_directed_acyclic_graph s.world)) S.not_a_dag_error s)
    on_world S.resolve_dependency_callbacks
    modify (λ s. record s { running = true })
    on_world S.prepare_logs
    modify (λ s. record s { restart_afterwards = false })
    on_world S.prune
    guarded_rounds S focus

  -- run and run_for_these
  abbrev pub run_for_these : Steps W E A → List String → Exec (Conduct W) E A
  run_for_these S jobs = run_around S (some jobs)

  abbrev pub run_all : Steps W E A → Exec (Conduct W) E A
  run_all S = run_around S none
