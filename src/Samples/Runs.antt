-- ===== src/Samples/Runs.antt =====
-- Runs with an engine that has one job ready, and a Runner whose job fails in the first round.
use pypipegraph.Comparisons.{any_altered, history_is_different, shared, unreported_same}
use pypipegraph.CoreLock.{new_lock}
use pypipegraph.Enums.{JobOutcome, RecordedJobOutcome, all_cores, failed, success, to_number}
use pypipegraph.Prelude.{
  Bool, Dict, List, Option, String, [], contains, false, get_elem?, if◌then◌else◌, insert, lookup,
  none, refl, some, total, true, ◌+◌, ◌==◌, ◌↔◌, ◌∷◌, ◌≡◌, ◌⊎◌,
}
use pypipegraph.Runner.{
  Engine, Runner, between_jobs, busy, clean, finish, job_raised, outputs_of, pick, pos,
  recorded_failure, recorded_success, same_keys, take_job,
}
use pypipegraph.Runner.Balance.{flight_counted}
use pypipegraph.Runner.Counting.{blocks, diff, holds, occurrences}
use pypipegraph.Runner.Finish.{finish_records}
use pypipegraph.Runner.Steps.{
  Blocks, after_finish, after_pick, begin, finishes, picks, put, then_step,
}
use pypipegraph.Session.{
  Outcomes, Progress, Rounds, after_round, conclude_run, dict_equal, failed_entry, failures,
  is_failed, loop, merge, returned, run, run_again, run_result,
}
use pypipegraph.Session.Kept.{run_returns_clean, stored_current}

abbrev one_ready : Engine
one_ready = record {
  Graph = Unit;
  jobs_ready_for_cleanup = λ g. [];
  event_job_cleanup_done = λ job_id g. g;
  jobs_ready_to_run = λ g. "a" ∷ [];
  is_finished = λ g. false;
  event_now_running = λ job_id g. g;
  event_job_success = λ job_id outputs g. (none, g);
  event_job_failure = λ job_id g. g;
}

-- "a" takes several cores, and failed in the run before.
abbrev before_a : Runner one_ready
before_a = record {
  jobs = ("a", record { resources = all_cores; outputs = "a" ∷ [] }) ∷ [];
  cores = 4;
  core_lock = new_lock 4;
  last_job_states = ("a", recorded_failure (job_raised "error")) ∷ [];
  stopped = false;
  aborted = false;
  evaluator = tt;
  jobs_in_flight = [];
  jobs_all_cores_in_flight = pos 0;
  threads = between_jobs none ∷ [];
  job_outcomes = [];
  done_counter = 0;
  fail_counter = 0;
}

abbrev a_outputs : Dict String
a_outputs = ("a", "hash") ∷ []

finish_records_example :
    let r' = finish "a" (some 3) (some a_outputs) none before_a in
    ((lookup "a" r'.job_outcomes ≡ some (recorded_success a_outputs)) ↔ (
      (some a_outputs ≡ some a_outputs)
      × (same_keys a_outputs (outputs_of before_a "a") ≡ true)
      × ((one_ready.event_job_success "a" a_outputs tt).0 ≡ none)))
    × (r'.done_counter + r'.fail_counter ≡ 0 + 0 + 1)
    × (lookup "b" r'.job_outcomes
        ≡ (if "a" == "b" then lookup "a" r'.job_outcomes else lookup "b" before_a.job_outcomes))
finish_records_example = finish_records before_a "a" "b" (some 3) (some a_outputs) none a_outputs

abbrev with_a : Runner one_ready
with_a = put 0 (after_pick none (pick before_a).0) (pick before_a).1

abbrev after_a : Runner one_ready
after_a =
    put 0 (after_finish (some 3)) (finish "a" (some 3) none (some (job_raised "error")) with_a)

a_is_taken : get_elem? with_a.threads 0 ≡ some (busy "a" (some 3) true)
unfolding pick take_job clean lookup to_number after_pick
a_is_taken = refl

a_runs : Blocks before_a 1 after_a
a_runs =
    then_step (then_step begin (picks 0 none refl))
      (finishes 0 "a" (some 3) true none (some (job_raised "error")) a_is_taken)

none_held : (x : String) → total (holds x) before_a.threads ≡ 0
unfolding total
none_held x = refl

none_blocks : total blocks before_a.threads ≡ 0
unfolding total
none_blocks = refl

flight_counted_example :
    ((x : String) → occurrences x after_a.jobs_in_flight ≡ total (holds x) after_a.threads)
    × (after_a.jobs_all_cores_in_flight ≡ diff (total blocks after_a.threads) 1)
flight_counted_example = flight_counted before_a after_a 1 none_held none_blocks refl refl a_runs

abbrev entry : String → JobOutcome → RecordedJobOutcome String
entry job_id outcome = record { job_id = job_id; outcome = outcome; payload = none }

-- The first round adds a job and runs again; the second gives the result.
abbrev two_rounds : Rounds String
two_rounds = record {
  World = Bool;
  jobs = λ w. "a" ∷ "b" ∷ [];
  runner_run = λ history result already w.
      if w
      then (returned (("b", entry "b" success) ∷ []) (("b", "hash") ∷ []) false, false)
      else (run_again (("a", entry "a" success) ∷ []) history, true);
  save_interrupted = λ w. w;
}

abbrev a_failed : Progress String
a_failed = record {
  history = [];
  stored = [];
  result = none;
  jobs_already_run = [];
  final_result = ("a", entry "a" failed) ∷ [];
  aborted = false;
  run_id = 0;
  keyboard = false;
}

a_has_failed : failed_entry (lookup "a" a_failed.final_result) ≡ true
unfolding lookup
a_has_failed = refl

stored_current_example :
    ((loop two_rounds 4 a_failed false).1.keyboard ≡ true)
    ⊎ (lookup "b" (loop two_rounds 4 a_failed false).1.stored
        ≡ lookup "b" (loop two_rounds 4 a_failed false).1.history)
stored_current_example = stored_current two_rounds 4 a_failed false "b" refl

abbrev all_well : Outcomes String
all_well = ("a", entry "a" success) ∷ ("b", entry "b" success) ∷ []

run_is_well : run two_rounds true false [] 0 false ≡ run_result all_well
unfolding run loop after_round merge conclude_run failures insert lookup dict_equal
run_is_well = refl

a_is_well : lookup "a" all_well ≡ some (entry "a" success)
unfolding lookup
a_is_well = refl

run_returns_clean_example : (false ≡ true) ⊎ (is_failed success ≡ false)
run_returns_clean_example =
    run_returns_clean two_rounds false [] 0 false all_well "a" (entry "a" success) run_is_well
      a_is_well

-- The job gives two outputs, of which the other job takes the first.
abbrev texts_equal : String → String → Option Bool
texts_equal a b = some (a == b)

abbrev last_hashes : Dict String
last_hashes = ("x", "1") ∷ ("y", "2") ∷ []

abbrev now_hashes : Dict String
now_hashes = ("x", "1") ∷ ("y", "3") ∷ []

abbrev takes_x : Dict (List String)
takes_x = ("down", "x" ∷ []) ∷ []

x_is_taken : lookup "down" takes_x ≡ some ("x" ∷ [])
unfolding lookup
x_is_taken = refl

not_reported :
    history_is_different texts_equal ("x" ∷ "y" ∷ []) takes_x "down" last_hashes now_hashes
    ≡ some false
unfolding history_is_different any_altered shared lookup contains
not_reported = refl

unreported_same_example :
    (last : String) × (now : String) × (lookup "x" last_hashes ≡ some last)
    × (lookup "x" now_hashes ≡ some now)
    × (texts_equal last now ≡ some true)
unfolding contains
unreported_same_example =
    unreported_same texts_equal ("x" ∷ "y" ∷ []) ("x" ∷ []) takes_x "down" last_hashes now_hashes
      "x" refl x_is_taken not_reported refl refl
