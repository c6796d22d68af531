-- ===== src/Session.antt =====
-- python/pypipegraph2/graph.py, PyPipeGraph._run: rounds of the Runner for as long as jobs add jobs.
-- What a Runner does in one round is the interface `Rounds`.
pub mod Kept
pub mod Around
use pypipegraph.Enums.{JobOutcome, RecordedJobOutcome, failed}
use pypipegraph.Prelude.{
  Bool, Dict, List, Option, String, [], add, contains, false, if◌then◌else◌, insert, is_empty,
  lookup, none, not, some, suc, true, zero, ℕ, ◌&&◌, ◌+◌, ◌==◌, ◌||◌, ◌∷◌,
}

-- d == e for dicts, which have each key once
abbrev pub included : Dict String → Dict String → Bool
included [] e = true
included ((k, v) ∷ d) e = elim (lookup k e) [ none ↦ false | some w ↦ w == v ] && included d e

unfoldable pub dict_equal : Dict String → Dict String → Bool
dict_equal d e = included d e && included e d

abbrev pub History : Type 0
History = Dict String

module _ (Payload : Type 0) where
  abbrev pub Outcomes : Type 0
  Outcomes = Dict (RecordedJobOutcome Payload)

  -- How `self.runner.run(...)` ends: it returns, it raises _RunAgain, KeyboardInterrupt, or else.
  pub data RoundEnd : Type 0 where
    returned : (result : Outcomes) (new_history : History) (aborted : Bool) → RoundEnd
    run_again : (result : Outcomes) (new_history : History) → RoundEnd
    interrupted : RoundEnd
    round_raised : RoundEnd

  -- `World` is all that a Runner changes; `jobs` are the keys of the graph's `jobs`.
  pub record Rounds : Type 1 where
    pub World : Type 0
    pub jobs : World → List String
    pub runner_run :
        (history : History) (result : Option Outcomes) (jobs_already_run : List String)
        → World
        → RoundEnd × World
    -- Does a KeyboardInterrupt come while _save_history writes? It writes all the same, and then
    -- raises it again.
    pub save_interrupted : World → Bool

  pub record Progress : Type 0 where
    pub history : History
    -- the file that `_load_history` reads
    pub stored : History
    pub result : Option Outcomes
    pub jobs_already_run : List String
    pub final_result : Outcomes
    pub aborted : Bool
    pub run_id : ℕ
    -- the KeyboardInterrupt in `do_raise`
    pub keyboard : Bool

  pub data LoopEnd : Type 0 where
    left_loop : LoopEnd
    -- the ValueError of the recursion depth
    too_deep : LoopEnd
    raised_inside : LoopEnd

  pub data RunEnd : Type 0 where
    run_result : Outcomes → RunEnd
    jobs_failed : List (Option Payload) → RunEnd
    run_failed_internally keyboard_interrupt value_error run_raised : RunEnd

abbrev pub is_failed : JobOutcome → Bool
is_failed failed = true
is_failed _ = false

module _ {Payload : Type 0} where
  abbrev pub failed_entry : Option (RecordedJobOutcome Payload) → Bool
  failed_entry none = false
  failed_entry (some r) = is_failed r.outcome

  -- for k, v in result.items(): what failed stays as it is
  unfoldable pub merge : Outcomes Payload → Outcomes Payload → Outcomes Payload
  merge [] final = final
  merge ((k, v) ∷ result) final =
      merge result (if failed_entry (lookup k final) then final else insert k v final)

  -- The keys of the result that are jobs of the graph, added to `jobs_already_run`.
  unfoldable pub update_run : List String → Outcomes Payload → List String → List String
  update_run jobs [] already = already
  update_run jobs ((k, v) ∷ result) already =
      update_run jobs result (if contains jobs k then add k already else already)

  -- What follows a round that gave a result; `strikes` says whether the history was saved and that
  -- was interrupted, so that `history = new_history` is skipped.
  unfoldable pub after_round :
      (strikes : Bool)
      → List String
      → Outcomes Payload
      → History
      → Progress Payload
      → Progress Payload
  after_round strikes jobs result new_history p = record p {
    history = if strikes then p.history else new_history;
    stored = if dict_equal p.history new_history then p.stored else new_history;
    result = some result;
    jobs_already_run = update_run jobs result p.jobs_already_run;
    final_result = merge result p.final_result;
    keyboard = p.keyboard || strikes;
  }

  -- do_raise, without the KeyboardInterrupt
  unfoldable pub failures : Outcomes Payload → List (Option Payload)
  failures [] = []
  failures ((k, v) ∷ final) =
      let rest = failures final in if is_failed v.outcome then v.payload ∷ rest else rest

  -- What follows the loop.
  unfoldable pub conclude_run :
      (raise_on_job_error restart : Bool) → Progress Payload → RunEnd Payload
  conclude_run raise_on_job_error restart p =
      let failing = failures p.final_result in
      if raise_on_job_error && (p.keyboard || not (is_empty failing)) && not restart
      then if is_empty failing then run_failed_internally else jobs_failed failing
      else if p.aborted
      then keyboard_interrupt
      else run_result p.final_result

  abbrev pub end_run :
      (raise_on_job_error restart : Bool) → LoopEnd Payload → Progress Payload → RunEnd Payload
  end_run raise_on_job_error restart left_loop p = conclude_run raise_on_job_error restart p
  end_run raise_on_job_error restart too_deep p = value_error
  end_run raise_on_job_error restart raised_inside p = run_raised

  module _ (R : Rounds Payload) where
    abbrev pub save_strikes : Progress Payload → History → R.World → Bool
    save_strikes p new_history w = not (dict_equal p.history new_history) && R.save_interrupted w

    -- `while True`, where `max_runs` has been lowered for this turn.
    unfoldable pub loop :
        ℕ → Progress Payload → R.World → LoopEnd Payload × Progress Payload × R.World
    loop zero p w = (too_deep, p, w)
    loop (suc max_runs) p w =
        let (end, w') = R.runner_run p.history p.result p.jobs_already_run w in
        elim end [
          | returned result new_history aborted ↦ (
            left_loop,
            record (after_round (save_strikes p new_history w') (R.jobs w') result new_history p) {
              aborted = aborted;
              run_id = p.run_id + 1;
            },
            w',
          )
          | run_again result new_history ↦
              let p' =
                after_round (save_strikes p new_history w') (R.jobs w') result new_history p in
              let rest = loop max_runs p' w' in
              if save_strikes p new_history w' then (left_loop, p', w') else rest
          | interrupted ↦ (left_loop, record p { keyboard = true }, w')
          | round_raised ↦ (raised_inside, p, w')
        ]

    -- `_run` from the loading of the history on: max_runs = 5, lowered before each turn.
    unfoldable pub run :
        (raise_on_job_error restart : Bool) → History → ℕ → R.World → RunEnd Payload
    run raise_on_job_error restart history run_id w =
        let (end, p, w') =
          loop 4
            (record {
              history = history;
              stored = history;
              result = none;
              jobs_already_run = [];
              final_result = [];
              aborted = false;
              run_id = run_id;
              keyboard = false;
            })
            w in
        end_run raise_on_job_error restart end p
