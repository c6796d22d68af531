-- ===== src/Pruning.antt =====
-- python/pypipegraph2/runner.py, Runner._apply_pruning and modify_dag: which jobs of the graph a
-- run leaves out.
pub mod Exact
use pypipegraph.Digraph.{Digraph}
use pypipegraph.Digraph.Walk.{for_each, visit_from}
use pypipegraph.Enums.{pruned}
use pypipegraph.Prelude.{
  Bool, Dict, List, Option, String, [], add, contains, delete, difference, false, has_key,
  if◌then◌else◌, insert, is_empty, keys, lookup, none, not, remove, some, ℕ, ◌&&◌, ◌++◌, ◌>>?◌, ◌∷◌,
}

-- `pruned` is the set, and `reasons` the attribute `prune_reason` of the jobs that have one.
pub record Marks : Type 0 where
  pub pruned : List String
  pub reasons : Dict String

-- What `_recurse_pruning` does to the job itself, which is there for every node of the graph.
unfoldable pub mark : String → String → Marks → Marks
mark reason job_id m = record {
  pruned = add job_id m.pruned;
  reasons = if has_key job_id m.reasons then m.reasons else insert job_id reason m.reasons;
}

-- What `_recurse_unpruning` does to the job itself: `remove` raises a KeyError for a job that is
-- not in the set, which also skips the `del`.
unfoldable pub unmark : String → Marks → Marks
unmark job_id m =
    if contains m.pruned job_id
    then record { pruned = remove job_id m.pruned; reasons = delete job_id m.reasons }
    else m

-- The job is there and its `_pruned` is set.
abbrev pub flagged : Option Bool → Bool
flagged none = false
flagged (some b) = b

module _ (G : Digraph) where
  open G use {Graph, nodes, remove_node, successors, predecessors}

  -- Goes downstream. The fuel is the depth to which Python recurses.
  unfoldable pub recurse_pruning : Graph → ℕ → String → String → Marks → Option Marks
  recurse_pruning dag fuel reason = visit_from (mark reason) (successors dag) fuel

  -- Goes upstream.
  unfoldable pub recurse_unpruning : Graph → ℕ → String → Marks → Option Marks
  recurse_unpruning dag = visit_from unmark (predecessors dag)

  unfoldable pub new_jobs : Graph → List String → List String
  new_jobs dag already_run = if is_empty already_run then [] else difference (nodes dag) already_run

  -- Prune everything but the jobs in focus, the new jobs and their upstreams.
  unfoldable pub apply_focus : Graph → ℕ → List String → List String → Dict String → Option Marks
  apply_focus dag fuel focus fresh reasons =
      if is_empty focus
      then some (record { pruned = []; reasons = reasons })
      else for_each (recurse_unpruning dag fuel) (focus ++ fresh)
          (record { pruned = nodes dag; reasons = reasons })

  -- The jobs of `self.jobs` with their `_pruned` flag; a job in focus keeps its place.
  unfoldable pub prune_flagged : Graph → ℕ → Dict Bool → List String → String → Marks → Option Marks
  prune_flagged dag fuel jobs focus job_id m =
      if flagged (lookup job_id jobs) && not (contains focus job_id)
      then recurse_pruning dag fuel job_id job_id m
      else some m

  -- The NetworkXError for a job that is no node of the graph is caught.
  unfoldable pub remove_all : List String → Graph → Graph
  remove_all [] dag = dag
  remove_all (x ∷ xs) dag =
      remove_all xs (if contains (nodes dag) x then remove_node x dag else dag)

  unfoldable pub apply_pruning :
      Graph → ℕ → Dict Bool → List String → List String → Dict String → Option (Graph × Marks)
  unfolding new_jobs
  apply_pruning dag fuel jobs focus already_run reasons =
      let fresh = new_jobs dag already_run in
      apply_focus dag fuel focus fresh reasons >>? λ m.
      for_each (prune_flagged dag fuel jobs focus) (keys jobs)
        (record m { pruned = m.pruned ++ already_run })
      >>? λ m.
          for_each (recurse_unpruning dag fuel) fresh m >>? λ m. some (remove_all m.pruned dag, m)
