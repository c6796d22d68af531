-- ===== src/Runner/Steps.antt =====
-- runner.py: any number of threads in the loop of `_executing_thread`, one locked block at a time.
-- A thread here may also go on after `stopped` or `aborted`, which only allows more turns.
use pypipegraph.Prelude.{
  Bool, Dict, Option, String, get_elem?, if◌then◌else◌, none, set, some, true, ℕ, ◌&&◌, ◌+◌, ◌≡◌,
}
use pypipegraph.Runner.{
  Engine, JobError, Runner, Thread, Turn, asleep, between_jobs, busy, dying, finish, is_multi,
  left_loop, no_cores, pick, run_over, taken,
}

-- What the thread is after the block at the head of the loop.
unfoldable pub after_pick : Option ℕ → Turn → Thread
after_pick c run_over = left_loop
after_pick c asleep = between_jobs c
after_pick c dying = left_loop
after_pick c (taken job_id c' failed_last) = busy job_id c' failed_last
-- the thread then fails the job with the `c` of the job before
after_pick c (no_cores job_id) = busy job_id c true

abbrev pub after_finish : Option ℕ → Thread
after_finish none = left_loop
after_finish (some c) = between_jobs (some c)

module _ {En : Engine} where
  abbrev pub put : ℕ → Thread → Runner En → Runner En
  put i t r = record r { threads = set r.threads i t }

  -- One locked block. The number counts the jobs that lower `jobs_all_cores_in_flight` at their end
  -- and did not raise it at their start.
  pub data Block (r : Runner En) : ℕ → Runner En → Type 0 where
    picks :
        (i : ℕ) (c : Option ℕ)
        → get_elem? r.threads i ≡ some (between_jobs c)
        → Block r 0 (put i (after_pick c (pick r).0) (pick r).1)
    finishes :
        (i : ℕ) (job_id : String) (c : Option ℕ) (failed_last : Bool)
        (outputs : Option (Dict String)) (e : Option JobError)
        → get_elem? r.threads i ≡ some (busy job_id c failed_last)
        → Block r
            (if failed_last && is_multi c then 1 else 0)
            (put i (after_finish c) (finish job_id c outputs e r))

  pub data Blocks (r : Runner En) : ℕ → Runner En → Type 0 where
    begin : Blocks r 0 r
    then_step : {m n : ℕ} {s t : Runner En} → Blocks r m s → Block s n t → Blocks r (m + n) t
