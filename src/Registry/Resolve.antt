-- ===== src/Registry/Resolve.antt =====
-- graph.py, _resolve_dependency_callbacks: what the callables return that `depends_on` was given.
-- A job that a callable replaces by another of the same id stands for that one.
pub mod Below
pub mod Settling
pub mod Termination
use pypipegraph.Digraph.{Digraph}
use pypipegraph.Digraph.Edges.{depth}
use pypipegraph.Exec.{Exec, Result, pure, raise, return, ◌>>=◌, ◌>>◌}
use pypipegraph.Prelude.{
  Dict, List, Option, String, [], if◌then◌else◌, insert, is_empty, keys, lookup, none, some, suc,
  zero, ℕ, ◌∷◌,
}
use pypipegraph.Registry.Depends.{Dependency, job_depends_on}
use pypipegraph.Registry.Graph.{GraphError, Job, Method, PyPipeGraph}

pub data ResolveError : Type 0 where
  graph_raised : GraphError → ResolveError
  recursion_error : ResolveError

abbrev pub lift_outcome : Result GraphError (Unit {0}) → Result ResolveError (Unit {0})
lift_outcome (return u) = return u
lift_outcome (raise e) = raise (graph_raised e)

abbrev pub pending_of : Option Job → List ℕ
pending_of none = []
pending_of (some j) = j.dependency_callbacks

module _ (G : Digraph) where
  abbrev pub Resolving : Type 0 → Type 0
  Resolving A = Exec (PyPipeGraph G) ResolveError A

  -- The callables. One may create jobs, call `depends_on` and raise.
  abbrev pub Callables : Type 0
  Callables = ℕ → Method G Dependency

  -- j.dependency_callbacks
  unfoldable pub pending : String → PyPipeGraph G → List ℕ
  pending job_id g = pending_of (lookup job_id g.jobs)

  -- [j for j in self.jobs.values() if j.dependency_callbacks], for the keys that are left
  unfoldable pub with_callback : List String → Dict Job → List (String × Job)
  with_callback [] jobs = []
  with_callback (job_id ∷ ids) jobs =
      let rest = with_callback ids jobs in
      elim (lookup job_id jobs) [
        | none ↦ rest
        | some j ↦ if is_empty j.dependency_callbacks then rest else (job_id, j) ∷ rest
      ]

  -- j.dependency_callbacks = []
  unfoldable pub reset_callbacks : String → PyPipeGraph G → PyPipeGraph G
  reset_callbacks job_id g = elim (lookup job_id g.jobs) [
    | none ↦ g
    | some j ↦ record g { jobs = insert job_id (record j { dependency_callbacks = [] }) g.jobs }
  ]

  abbrev pub lift : Method G Unit → Resolving Unit
  lift m g = let (r, g') = m g in (lift_outcome r, g')

module _ (G : Digraph) (call : Callables G) where
  -- j.depends_on(c())
  unfoldable pub depend_on_call : Job → ℕ → Method G Unit
  depend_on_call j c = call c >>= job_depends_on G j

  unfoldable pub run_callbacks : Job → List ℕ → Resolving G Unit
  unfolding depend_on_call
  run_callbacks j [] = pure tt
  run_callbacks j (c ∷ dc) = lift G (depend_on_call j c) >> run_callbacks j dc

  -- The body of the loop.
  unfoldable pub resolve_job : String → Job → Resolving G Unit
  unfolding pending reset_callbacks run_callbacks
  resolve_job job_id j g = run_callbacks j (pending G job_id g) (reset_callbacks G job_id g)

  unfoldable pub resolve_jobs : List (String × Job) → Resolving G Unit
  unfolding resolve_job
  resolve_jobs [] = pure tt
  resolve_jobs ((job_id, j) ∷ js) = resolve_job job_id j >> resolve_jobs js

  -- `depth` is what Python's recursion limit leaves.
  unfoldable pub resolve_dependency_callbacks : ℕ → Resolving G Unit
  unfolding keys with_callback resolve_jobs
  resolve_dependency_callbacks zero g = (raise recursion_error, g)
  resolve_dependency_callbacks (suc depth) g =
      if is_empty (with_callback G (keys g.jobs) g.jobs)
      then (return tt, g)
      else (resolve_jobs (with_callback G (keys g.jobs) g.jobs)
            >> resolve_dependency_callbacks depth)
          g
