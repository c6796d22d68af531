-- ===== src/Runner.antt =====
-- python/pypipegraph2/runner.py, what the threads of `_executing_thread` do to the Runner. All of it
-- happens under `evaluator_lock`, in two blocks: `pick` (the head of the loop) and `finish` (its
-- `finally`); `attempt` is what stands between them. The Rust engine is the interface `Engine`.
pub mod Steps
pub mod Finish
pub mod Counting
pub mod Balance
use pypipegraph.CoreLock.{CoreLock, LockError, refuse}
use pypipegraph.Enums.{Resources, to_number}
use pypipegraph.Exec.{Result, raise, return}
use pypipegraph.Prelude.{
  Bool, Dict, List, Option, String, [], false, if◌then◌else◌, inl, inr, insert, is_empty, is_some,
  keys, leb, length, lookup, ltb, none, not, some, subset, suc, true, zero, ℕ, ◌&&◌, ◌*◌, ◌++◌, ◌+◌,
  ◌==◌, ◌||◌, ◌∷◌, ◌⊎◌,
}

-- The PyO3 object `evaluator`; `event_job_success` may refuse with an exception's text.
pub record Engine : Type 1 where
  pub Graph : Type 0
  pub jobs_ready_for_cleanup : Graph → List String
  pub event_job_cleanup_done : String → Graph → Graph
  pub jobs_ready_to_run : Graph → List String
  pub is_finished : Graph → Bool
  -- An exception of this call or of that for a failure is left out.
  pub event_now_running : String → Graph → Graph
  pub event_job_success : String → Dict String → Graph → Option String × Graph
  pub event_job_failure : String → Graph → Graph

pub data JobError : Type 0 where
  -- what the job raised, as the JobError around it
  job_raised : String → JobError
  contract_wrong_outputs changed_directory aborted_error : JobError
  lock_refused : LockError → JobError
  to_number_raised : JobError

-- RecordedJobOutcome with the payloads that a thread writes.
pub data Recorded : Type 0 where
  recorded_success : Dict String → Recorded
  recorded_failure : JobError → Recorded
  -- the text of the engine's exception
  recorded_refusal : String → Recorded

pub data ℤ : Type 0 where
  pos negsuc : ℕ → ℤ

unfoldable pub increment : ℤ → ℤ
increment (pos n) = pos (suc n)
increment (negsuc zero) = pos 0
increment (negsuc (suc n)) = negsuc n

unfoldable pub decrement : ℤ → ℤ
decrement (pos zero) = negsuc 0
decrement (pos (suc n)) = pos n
decrement (negsuc n) = negsuc (suc n)

-- z >= n
abbrev pub at_least : ℤ → ℕ → Bool
at_least (pos m) n = leb n m
at_least (negsuc m) n = false

-- A thread's local variables: `c` keeps its value from job to job, and is unbound at first.
pub data Thread : Type 0 where
  between_jobs : Option ℕ → Thread
  -- job_id, c, job_failed_last_time
  busy : String → Option ℕ → Bool → Thread
  left_loop : Thread

pub record JobInfo : Type 0 where
  pub resources : Resources
  pub outputs : List String

module _ (En : Engine) where
  pub record Runner : Type 0 where
    pub jobs : Dict JobInfo
    pub cores : ℕ
    pub core_lock : CoreLock
    pub last_job_states : Dict Recorded
    pub stopped : Bool
    pub aborted : Bool
    pub evaluator : En.Graph
    pub jobs_in_flight : List String
    pub jobs_all_cores_in_flight : ℤ
    pub threads : List Thread
    pub job_outcomes : Dict Recorded
    pub done_counter : ℕ
    pub fail_counter : ℕ

-- The error that the job failed with in the last run; `none` where it did not fail.
abbrev pub failure_of : Option Recorded → Option JobError
failure_of (some (recorded_failure e)) = some e
failure_of (some (recorded_refusal text)) = some (job_raised text)
failure_of _ = none

abbrev pub is_multi : Option ℕ → Bool
is_multi none = false
is_multi (some c) = ltb 1 c

pub data Turn : Type 0 where
  run_over asleep dying : Turn
  taken : (job_id : String) (c : Option ℕ) (failed_last : Bool) → Turn
  -- `to_number` raised: `c` stays what it was
  no_cores : (job_id : String) → Turn

-- set(outputs.keys()) != set(self.jobs[job_id].outputs)
unfoldable pub same_keys : Dict String → List String → Bool
same_keys outputs names = subset (keys outputs) names && subset names (keys outputs)

-- The two tests before the outcome is written; `inr` is a failure.
unfoldable pub settle :
    List String → Option (Dict String) → Option JobError → Dict String ⊎ JobError
unfolding same_keys
settle names none none = inr aborted_error
settle names none (some e) = inr e
settle names (some outputs) e =
    if same_keys outputs names then inl outputs else inr contract_wrong_outputs

-- jobs_in_flight.remove(job_id)
unfoldable pub remove_first : String → List String → List String
remove_first x [] = []
remove_first x (y ∷ ys) = let rest = remove_first x ys in if y == x then ys else y ∷ rest

module _ (En : Engine) where
  -- The loop over `cleanups`, where what a `cleanup` raises is only logged.
  unfoldable pub clean : List String → En.Graph → En.Graph
  clean [] g = g
  clean (job_id ∷ rest) g = clean rest (En.event_job_cleanup_done job_id g)

module _ {En : Engine} where
  abbrev pub job_failed_last_time : Runner En → String → Bool
  job_failed_last_time r job_id = is_some (failure_of (lookup job_id r.last_job_states))

  unfoldable pub start_another_thread : Runner En → Runner En
  start_another_thread r =
      if r.stopped || r.aborted
      then r
      else record r { threads = r.threads ++ between_jobs none ∷ [] }

  abbrev pub cores_of : Runner En → String → Option ℕ
  cores_of r job_id = elim (lookup job_id r.jobs) [
    | none ↦ none
    | some job ↦ to_number job.resources r.core_lock.max_cores
  ]

  -- jobs_all_cores_in_flight += 1, and another thread where all would be blocked
  unfoldable pub count_multi : Runner En → Runner En
  unfolding start_another_thread
  count_multi r =
      let counted = record r { jobs_all_cores_in_flight = increment r.jobs_all_cores_in_flight } in
      if at_least counted.jobs_all_cores_in_flight (length r.threads)
        && leb (length r.threads) (r.cores * 5)
      then start_another_thread counted
      else counted

  -- What follows on `to_number`, with `none` for what it raises.
  abbrev pub take_with : String → Option ℕ → Bool → Runner En → Turn × Runner En
  take_with job_id none failed_last r = (no_cores job_id, r)
  take_with job_id (some c) true r = (taken job_id (some c) true, r)
  take_with job_id (some c) false r =
      (taken job_id (some c) false, if ltb 1 c then count_multi r else r)

  -- rr[0]
  unfoldable pub take_job : String → Runner En → Turn × Runner En
  take_job job_id r =
      take_with job_id (cores_of r job_id) (job_failed_last_time r job_id) (record r {
        jobs_in_flight = r.jobs_in_flight ++ job_id ∷ [];
        evaluator = En.event_now_running job_id r.evaluator;
      })

  abbrev pub pick_from : List String → Runner En → Turn × Runner En
  pick_from [] r =
      if En.is_finished r.evaluator
      then (run_over, record r { stopped = true })
      else if is_empty r.jobs_in_flight
      then (dying, r)
      else (asleep, r)
  pick_from (job_id ∷ _) r = take_job job_id r

  -- The first `with self.evaluator_lock:` block.
  unfoldable pub pick : Runner En → Turn × Runner En
  pick r =
      let cleaned = record r {
        evaluator = clean En (En.jobs_ready_for_cleanup r.evaluator) r.evaluator;
      } in
      pick_from (En.jobs_ready_to_run cleaned.evaluator) cleaned

  -- `outputs` and `error` when the `finally` is reached, from what `job.run` does where it is called
  -- and whether it left the working directory as it was. A job that failed last time waits for no
  -- cores and is not run again.
  unfoldable pub attempt :
      Runner En
      → String
      → ℕ
      → Result String (Dict String)
      → Bool
      → Option (Dict String) × Option JobError
  attempt r job_id c ran same_directory =
      let failure = failure_of (lookup job_id r.last_job_states) in
      elim (if is_some failure then none else refuse r.core_lock c) [
        | some e ↦ (none, some (lock_refused e))
        | none ↦
            if r.stopped || r.aborted
            then (none, none)
            else if not same_directory
            then (none, some changed_directory)
            else elim failure [
              | some e ↦ (none, some e)
              | none ↦ elim ran [
                | return outputs ↦ (some outputs, none)
                | raise text ↦ (none, some (job_raised text))
              ]
            ]
      ]

  abbrev pub outputs_of : Runner En → String → List String
  outputs_of r job_id = elim (lookup job_id r.jobs) [ none ↦ [] | some job ↦ job.outputs ]

  abbrev pub record_success :
      String → Dict String → Option String × En.Graph → Runner En → Runner En
  record_success job_id outputs (refused, g) r = record r {
    job_outcomes =
        insert job_id
          (elim refused [ none ↦ recorded_success outputs | some text ↦ recorded_refusal text ])
          r.job_outcomes;
    done_counter = r.done_counter + 1;
    evaluator = g;
  }

  unfoldable pub write_outcome : String → Dict String ⊎ JobError → Runner En → Runner En
  write_outcome job_id (inl outputs) r =
      record_success job_id outputs (En.event_job_success job_id outputs r.evaluator) r
  write_outcome job_id (inr e) r = record r {
    job_outcomes = insert job_id (recorded_failure e) r.job_outcomes;
    fail_counter = r.fail_counter + 1;
    evaluator = En.event_job_failure job_id r.evaluator;
  }

  -- if c > 1: jobs_all_cores_in_flight -= 1. An unbound `c` raises out of the loop, which aborts.
  abbrev pub lower : Option ℕ → Runner En → Runner En
  lower none r = record r { aborted = true }
  lower (some c) r =
      if ltb 1 c
      then record r { jobs_all_cores_in_flight = decrement r.jobs_all_cores_in_flight }
      else r

  -- The `finally` of a thread that has a job.
  unfoldable pub finish :
      String → Option ℕ → Option (Dict String) → Option JobError → Runner En → Runner En
  unfolding settle write_outcome remove_first
  finish job_id c outputs e r =
      let written = write_outcome job_id (settle (outputs_of r job_id) outputs e) r in
      lower c (record written { jobs_in_flight = remove_first job_id written.jobs_in_flight })
