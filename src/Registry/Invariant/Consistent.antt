-- ===== src/Registry/Invariant/Consistent.antt =====
-- The invariant of the graph under construction.
use pypipegraph.Digraph.{Digraph}
use pypipegraph.Prelude.{List, String, contains, false, has_key, lookup, some, true, ◌<◌, ◌≡◌}
use pypipegraph.Registry.Depends.{
  Dependencies, Dependency, cons, inputs_of, nil, on_all, on_callback, on_file, on_job,
  on_job_tuple, on_none,
}
use pypipegraph.Registry.Graph.{Job, PyPipeGraph}

module _ (outputs_of : String → List String) where
  -- A job's id is made of its outputs, so it determines them.
  abbrev pub IsNamed : Job → Type 0
  IsNamed job = job.outputs ≡ outputs_of job.job_id

  abbrev mutual
    pub AllNamed : Dependency → Type 0
    AllNamed (on_job job) = IsNamed job
    AllNamed on_none = Unit
    AllNamed (on_file file) = Unit
    AllNamed (on_callback callback) = Unit
    AllNamed on_job_tuple = Unit
    AllNamed (on_all ds) = EachNamed ds

    pub EachNamed : Dependencies → Type 0
    EachNamed nil = Unit
    EachNamed (cons d ds) = AllNamed d × EachNamed ds

module _ (G : Digraph) (outputs_of : String → List String) where
  pub record IsConsistent (g : PyPipeGraph G) : Type 0 where
    pub nodes_are_jobs : (x : String) → contains (G.nodes g.job_dag) x ≡ has_key x g.jobs
    pub named :
        (x : String) (j : Job)
        → lookup x g.jobs ≡ some j
        → (j.job_id ≡ x) × (j.outputs ≡ outputs_of x)
    pub claimed :
        (x : String) (j : Job) (o : String)
        → lookup x g.jobs ≡ some j
        → contains (outputs_of x) o ≡ true
        → lookup o g.outputs_to_job_ids ≡ some x
    pub inputs :
        (x o : String)
        → contains (inputs_of G x g) o ≡ true
        → (u : String) × (lookup o g.outputs_to_job_ids ≡ some u)
          × (G.has_edge g.job_dag u x ≡ true)
    pub no_return :
        (u v : String) → G.has_edge g.job_dag u v ≡ true → G.has_edge g.job_dag v u ≡ false
    pub numbered :
        (x : String) (j : Job) → lookup x g.jobs ≡ some j → j.job_number < g.next_job_number
    pub distinct :
        (x y : String) (j k : Job)
        → lookup x g.jobs ≡ some j
        → lookup y g.jobs ≡ some k
        → j.job_number ≡ k.job_number
        → x ≡ y
