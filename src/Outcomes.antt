-- ===== src/Outcomes.antt =====
-- python/pypipegraph2/runner.py, the end of Runner.run: the outcomes of the jobs that no thread
-- ran, and whether the graph has to run again because jobs were added.
use pypipegraph.Enums.{JobOutcome, pruned, skipped, upstream_failed}
use pypipegraph.Prelude.{
  Bool, Bool-cases, Dict, List, Option, Option-cases, String, [], arith, contains, eq_iff, has_key,
  if◌then◌else◌, inl, inr, insert, lookup, lookup-insert, nat_eq, none, not, some, ℕ, ◌&&◌, ◌>>?◌,
  ◌∷◌, ◌≡◌,
}

unfoldable pub record_all : JobOutcome → List String → Dict JobOutcome → Option (Dict JobOutcome)
record_all outcome [] d = some d
record_all outcome (job_id ∷ rest) d =
    let after = record_all outcome rest (insert job_id outcome d) in
    if has_key job_id d then none else after

-- for job_id in self.jobs: if not job_id in self.job_outcomes
unfoldable pub skip_rest : List String → Dict JobOutcome → Dict JobOutcome
skip_rest [] d = d
skip_rest (job_id ∷ rest) d =
    skip_rest rest (if has_key job_id d then d else insert job_id skipped d)

pub data RunnerEnd : Type 0 where
  -- the ValueError of a job with two outcomes
  two_outcomes : RunnerEnd
  again : Dict JobOutcome → RunnerEnd
  outcomes : Dict JobOutcome → RunnerEnd

unfoldable pub job_outcomes_at_end :
    (pruned_jobs upstream_failed_jobs jobs : List String)
    → Dict JobOutcome
    → Option (Dict JobOutcome)
job_outcomes_at_end pruned_jobs upstream_failed_jobs jobs d =
    record_all pruned pruned_jobs d >>? λ d.
    record_all upstream_failed upstream_failed_jobs d >>? λ d. some (skip_rest jobs d)

-- What follows the threads; `job_count` was taken before them.
unfoldable pub end_runner :
    (pruned_jobs upstream_failed_jobs jobs : List String) (jobs_now job_count : ℕ) (aborted : Bool)
    → Dict JobOutcome
    → RunnerEnd
end_runner pruned_jobs upstream_failed_jobs jobs jobs_now job_count aborted d =
    elim (job_outcomes_at_end pruned_jobs upstream_failed_jobs jobs d) [
      | none ↦ two_outcomes
      | some d' ↦ if not (nat_eq jobs_now job_count) && not aborted then again d' else outcomes d'
    ]

record_all-lookup :
    (outcome : JobOutcome) (ids : List String) (d d' : Dict JobOutcome) (x : String)
    → record_all outcome ids d ≡ some d'
    → lookup x d' ≡ (if contains ids x then some outcome else lookup x d)
unfolding record_all contains
record_all-lookup outcome [] d d' x h = ground (arith, h)
record_all-lookup outcome (job_id ∷ rest) d d' x h = elim (Bool-cases (has_key job_id d)) [
  | inl twice ↦ absurd (ground (arith, h, twice))
  | inr once ↦ ground (
    arith,
    record_all-lookup outcome rest (insert job_id outcome d) d' x (ground (arith, h, once)),
    lookup-insert job_id x outcome d,
  )
]

skip_rest-lookup :
    (ids : List String) (d : Dict JobOutcome) (x : String)
    → lookup x (skip_rest ids d)
      ≡ (if has_key x d then lookup x d else if contains ids x then some skipped else none)
unfolding skip_rest contains
skip_rest-lookup [] d x = elim (Option-cases (lookup x d)) [
  | inl (o, there) ↦ ground (arith, there)
  | inr gone ↦ ground (arith, gone)
]
skip_rest-lookup (job_id ∷ rest) d x = elim (Bool-cases (has_key job_id d)) [
  | inl known ↦ ground (arith, known, skip_rest-lookup rest d x, eq_iff job_id x)
  | inr new ↦ ground (
    arith,
    new,
    skip_rest-lookup rest (insert job_id skipped d) x,
    lookup-insert job_id x skipped d,
    eq_iff job_id x,
  )
]

-- When the end of Runner.run records the outcomes without a ValueError, a job has exactly this
-- outcome: UpstreamFailed if the engine lists it so, else Pruned if the run left it out, else the
-- one that a thread recorded, else Skipped if it is a job of the graph, else none.
pub outcomes_at_end :
    (pruned_jobs upstream_failed_jobs jobs : List String) (d d' : Dict JobOutcome) (x : String)
    → job_outcomes_at_end pruned_jobs upstream_failed_jobs jobs d ≡ some d'
    → lookup x d' ≡ (
        if contains upstream_failed_jobs x
        then some upstream_failed
        else if contains pruned_jobs x
        then some pruned
        else if has_key x d
        then lookup x d
        else if contains jobs x
        then some skipped
        else none)
unfolding job_outcomes_at_end
outcomes_at_end pruned_jobs upstream_failed_jobs jobs d d' x h =
    elim (Option-cases (record_all pruned pruned_jobs d)) [
      | inr twice ↦ absurd (ground (arith, h, twice))
      | inl (d1, one) ↦ elim (Option-cases (record_all upstream_failed upstream_failed_jobs d1)) [
        | inr twice ↦ absurd (ground (arith, h, one, twice))
        | inl (d2, two) ↦ ground (
          arith,
          h,
          one,
          two,
          record_all-lookup pruned pruned_jobs d d1 x one,
          record_all-lookup upstream_failed upstream_failed_jobs d1 d2 x two,
          skip_rest-lookup jobs d2 x,
        )
      ]
    ]
