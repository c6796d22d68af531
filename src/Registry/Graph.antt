-- ===== src/Registry/Graph.antt =====
-- graph.py, the state of a PyPipeGraph that its jobs change, and its methods; jobs.py, _dedup_job.
use mathlib.Core.Bool.{decide}
use pypipegraph.Digraph.{Digraph}
use pypipegraph.Enums.{RunMode, is_strict}
use pypipegraph.Exec.{Exec, expect, modify, pure, raise, return, throw_if, ◌>>=◌, ◌>>◌}
use pypipegraph.JobClass.{JobClass, JobClass-discrete, compat_file_invariant, file_invariant}
use pypipegraph.Prelude.{
  Bool, Dict, List, Option, String, [], false, has_key, if◌then◌else◌, insert, is_some, lookup,
  none, not, some, true, ℕ, ◌+◌, ◌==◌, ◌||◌, ◌∷◌,
}
use text.Mathlib.Text.{find?}

pub record Job : Type 0 where
  pub job_id : String
  pub class : JobClass
  pub outputs : List String
  pub job_number : ℕ
  pub is_pruned : Bool
  -- the callables that `depends_on` was given, by number
  pub dependency_callbacks : List ℕ

pub data GraphError : Type 0 where
  value_error type_error key_error : GraphError
  job_output_conflict job_redefinition_error not_a_dag job_contract_error : GraphError

module _ (G : Digraph) where
  pub record PyPipeGraph : Type 0 where
    pub jobs : Dict Job
    pub job_dag : G.Graph
    pub job_inputs : Dict (List String)
    pub outputs_to_job_ids : Dict String
    pub next_job_number : ℕ
    pub run_mode : RunMode

  abbrev pub Method : Type 0 → Type 0
  Method A = Exec PyPipeGraph GraphError A

  abbrev pub new_graph : RunMode → PyPipeGraph
  new_graph run_mode = record {
    jobs = [];
    job_dag = G.empty;
    job_inputs = [];
    outputs_to_job_ids = [];
    next_job_number = 0;
    run_mode = run_mode;
  }

  -- One round of the loop over `job.outputs` in `add`. The conflict's message reads the other job
  -- out of `self.jobs`, which raises a KeyError itself if that job is not there.
  unfoldable pub claim_output : String → String → Method Unit
  claim_output job_id out g = elim (lookup out g.outputs_to_job_ids) [
    | none ↦ (return tt, record g { outputs_to_job_ids = insert out job_id g.outputs_to_job_ids })
    | some other ↦
        if other == job_id
        then (return tt, record g { outputs_to_job_ids = insert out job_id g.outputs_to_job_ids })
        else if has_key other g.jobs
        then (raise job_output_conflict, g)
        else (raise key_error, g)
  ]

  unfoldable pub claim_outputs : String → List String → Method Unit
  claim_outputs job_id [] = pure tt
  claim_outputs job_id (out ∷ outputs) =
      claim_output job_id out >>= λ _. claim_outputs job_id outputs

  -- `running` only chooses whether the number is taken under a lock.
  unfoldable pub add_job : Job → Method Unit
  unfolding claim_outputs
  add_job job = do
    claim_outputs job.job_id job.outputs
    modify (λ g. record g {
      jobs = insert job.job_id (record job { job_number = g.next_job_number }) g.jobs;
      next_job_number = g.next_job_number + 1;
      job_dag = G.add_node job.job_id g.job_dag;
    })

  unfoldable pub find_job_from_file : String → Method Job
  find_job_from_file filename = do
    job_id ← (λ g. expect key_error (lookup filename g.outputs_to_job_ids) g)
    (λ g. expect key_error (lookup job_id g.jobs) g)

  unfoldable pub add_edge : String → String → Method Unit
  add_edge upstream_id downstream_id = do
    (λ g. throw_if (not (has_key upstream_id g.jobs)) key_error g)
    (λ g. throw_if (not (has_key downstream_id g.jobs)) key_error g)
    modify (λ g. record g { job_dag = G.add_edge upstream_id downstream_id g.job_dag })

  unfoldable pub has_edge : String → String → PyPipeGraph → Bool
  has_edge upstream_id downstream_id g = G.has_edge g.job_dag upstream_id downstream_id

  -- The one pair of classes that `_dedup_job` lets pass for one another.
  unfoldable pub may_stand_in : JobClass → JobClass → Bool
  may_stand_in compat_file_invariant file_invariant = true
  may_stand_in _ _ = false

  -- The job that `__new__` hands back: the one that is there, or `none` for a new object.
  unfoldable pub dedup_job : JobClass → String → Method (Option Job)
  unfolding JobClass-discrete
  dedup_job class job_id g =
      if is_some (find? job_id "/../")
      then (raise type_error, g)
      else if is_strict g.run_mode
      then elim (lookup job_id g.jobs) [
        | none ↦ (return none, g)
        | some j ↦
            if decide (JobClass-discrete j.class class) || may_stand_in class j.class
            then (return (some j), g)
            else (raise job_redefinition_error, g)
      ]
      else (return none, g)
