-- ===== src/Registry/Depends.antt =====
-- jobs.py, Job.depends_on, and _InvariantMixin.depends_on.
use pypipegraph.Digraph.{Digraph}
use pypipegraph.Exec.{modify, pure, return, throw, throw_if, ◌>>=◌, ◌>>◌}
use pypipegraph.JobClass.{is_invariant}
use pypipegraph.Prelude.{
  List, String, [], if◌then◌else◌, insert, lookup, none, some, ℕ, ◌++◌, ◌==◌, ◌∷◌,
}
use pypipegraph.Registry.Graph.{
  Job, Method, PyPipeGraph, add_edge, find_job_from_file, has_edge, job_contract_error, not_a_dag,
  type_error,
}

-- What a caller may pass to `depends_on`. A callable is a number here; what it returns is asked
-- for when the graph runs.
mutual
  pub data Dependency : Type 0 where
    on_job : Job → Dependency
    on_none : Dependency
    on_file : String → Dependency
    on_callback : ℕ → Dependency
    -- a CachedJobTuple or PlotJobTuple
    on_job_tuple : Dependency
    on_all : Dependencies → Dependency

  pub data Dependencies : Type 0 where
    nil : Dependencies
    cons : Dependency → Dependencies → Dependencies

module _ (G : Digraph) where
  -- self.dependency_callbacks.append(callback), on the job that the graph holds
  unfoldable pub add_callback : String → ℕ → Method G Unit
  add_callback self_id callback g = elim (lookup self_id g.jobs) [
    | none ↦ (return tt, g)
    | some j ↦ (
      return tt,
      record g {
        jobs =
            insert self_id
              (record j { dependency_callbacks = j.dependency_callbacks ++ callback ∷ [] }) g.jobs;
      },
    )
  ]

  -- job_inputs is a defaultdict of sets.
  unfoldable pub inputs_of : String → PyPipeGraph G → List String
  inputs_of job_id g = elim (lookup job_id g.job_inputs) [ none ↦ [] | some inputs ↦ inputs ]

  -- The last part of `depends_on`, once the upstream job and its outputs are known.
  unfoldable pub connect : String → String → List String → Method G Unit
  unfolding add_edge has_edge
  connect self_id upstream_id o_inputs = do
    throw_if (upstream_id == self_id) not_a_dag
    (λ g. throw_if (has_edge G self_id upstream_id g) not_a_dag g)
    add_edge G upstream_id self_id
    modify (λ g. record g {
      job_inputs = insert self_id (inputs_of self_id g ++ o_inputs) g.job_inputs;
    })

  unfoldable mutual
    pub depends_on : String → Dependency → Method G Unit
    depends_on self_id (on_job job) = connect self_id job.job_id job.outputs
    depends_on self_id on_none = pure tt
    depends_on self_id (on_file file) = do
      job ← find_job_from_file G file
      connect self_id job.job_id (file ∷ [])
    depends_on self_id (on_callback callback) = add_callback self_id callback
    depends_on self_id on_job_tuple = throw type_error
    depends_on self_id (on_all ds) = depends_on_all self_id ds

    pub depends_on_all : String → Dependencies → Method G Unit
    depends_on_all self_id nil = pure tt
    depends_on_all self_id (cons d ds) = depends_on self_id d >>= λ _. depends_on_all self_id ds

  -- The method as the class of the job has it: an invariant refuses.
  unfoldable pub job_depends_on : Job → Dependency → Method G Unit
  job_depends_on self d =
      if is_invariant self.class then throw job_contract_error else depends_on self.job_id d
