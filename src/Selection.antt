-- ===== src/Selection.antt =====
-- python/pypipegraph2/graph.py, _prune_unrelated and _prune_but: which jobs are marked as pruned
-- before a run. `ancestors` and `descendants` are networkx's.
use pypipegraph.Prelude.{List, String, [], contains, difference, true, ◌++◌, ◌∷◌, ◌≡◌, ◌⊎◌}

module _ (ancestors descendants : String → List String) where
  -- keep
  unfoldable pub related : List String → List String
  related [] = []
  related (job_id ∷ rest) = (ancestors job_id ++ descendants job_id) ++ related rest

  -- The jobs whose `prune` is called.
  unfoldable pub prune_unrelated : List String → List String → List String
  prune_unrelated jobs_to_prune_unrelated jobs = difference jobs (related jobs_to_prune_unrelated)

  -- k is upstream or downstream of a listed job.
  abbrev pub IsRelated : List String → String → Type 0
  IsRelated to_prune k =
      (job_id : String) × (contains to_prune job_id ≡ true)
      × ((contains (ancestors job_id) k ≡ true) ⊎ (contains (descendants job_id) k ≡ true))

unfoldable pub prune_but : List String → List String → List String
prune_but jobs_to_prune_but jobs = difference jobs jobs_to_prune_but
