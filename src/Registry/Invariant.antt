-- ===== src/Registry/Invariant.antt =====
-- graph.py and jobs.py: what the graph under construction keeps through every call that a
-- program makes while it builds its jobs, also through the calls that raise.
pub mod Consistent
pub mod Adding
pub mod Depending
pub mod Callbacks
pub mod Calls
use pypipegraph.Digraph.{Digraph}
use pypipegraph.Enums.{RunMode}
use pypipegraph.Exec.{Keeps}
use pypipegraph.Prelude.{List, String, [], contains, lookup, ◌∷◌}
use pypipegraph.Registry.Depends.{Dependency, inputs_of, job_depends_on}
use pypipegraph.Registry.Graph.{Job, Method, PyPipeGraph, add_job, new_graph}
use pypipegraph.Registry.Invariant.Adding.{add_job-IsConsistent}
use pypipegraph.Registry.Invariant.Calls.{job_depends_on-IsConsistent}
use pypipegraph.Registry.Invariant.Consistent.{AllNamed, IsConsistent, IsNamed}

-- A call that changes the graph: `Job.readd`, or `depends_on` of a job.
pub data Call : Type 0 where
  adding : Job → Call
  depending : Job → Dependency → Call

module _ (G : Digraph) where
  unfoldable pub perform : Call → Method G Unit
  perform (adding job) = add_job G job
  perform (depending self d) = job_depends_on G self d

  -- A program that catches what a call raises and goes on.
  unfoldable pub perform_all : List Call → PyPipeGraph G → PyPipeGraph G
  perform_all [] g = g
  perform_all (c ∷ cs) g = perform_all cs (perform c g).1

module _ (G : Digraph) (outputs_of : String → List String) where
  abbrev pub IsNamedCall : Call → Type 0
  IsNamedCall (adding job) = IsNamed outputs_of job
  IsNamedCall (depending self d) = AllNamed outputs_of d

  abbrev pub AllNamedCalls : List Call → Type 0
  AllNamedCalls [] = Unit
  AllNamedCalls (c ∷ cs) = IsNamedCall c × AllNamedCalls cs

  perform-IsConsistent :
      (c : Call) → IsNamedCall c → Keeps (IsConsistent G outputs_of) (perform G c)
  unfolding perform
  perform-IsConsistent (adding job) named = add_job-IsConsistent G outputs_of job named
  perform-IsConsistent (depending self d) named =
      job_depends_on-IsConsistent G outputs_of self d named

  perform_all-IsConsistent :
      (cs : List Call) (g : PyPipeGraph G)
      → AllNamedCalls cs
      → IsConsistent G outputs_of g
      → IsConsistent G outputs_of (perform_all G cs g)
  unfolding perform_all
  perform_all-IsConsistent [] g named h = h
  perform_all-IsConsistent (c ∷ cs) g named h =
      perform_all-IsConsistent cs (perform G c g).1 named.1 (perform-IsConsistent c named.0 g h)

  new_graph-IsConsistent : (run_mode : RunMode) → IsConsistent G outputs_of (new_graph G run_mode)
  unfolding lookup inputs_of contains
  new_graph-IsConsistent run_mode = record {
    nodes_are_jobs = λ x. G.nodes-empty x;
    named = λ x j h. cc;
    claimed = λ x j o h m. cc;
    inputs = λ x o h. cc;
    no_return = λ u v h. G.has_edge-empty v u;
    numbered = λ x j h. cc;
    distinct = λ x y j k h i e. cc;
  }

-- Whatever calls a program makes, and whichever of them raise, the graph stays consistent: its
-- nodes are the ids of its jobs; each output of a job is registered to that job; each input of
-- a job is registered to a job that has an edge to it; no two jobs depend directly on each
-- other, nor a job on itself; job numbers are below the next one and no two jobs share one.
-- (A job's id determines its outputs.)
pub construction-IsConsistent :
    (G : Digraph) (outputs_of : String → List String) (run_mode : RunMode) (cs : List Call)
    → AllNamedCalls G outputs_of cs
    → IsConsistent G outputs_of (perform_all G cs (new_graph G run_mode))
construction-IsConsistent G outputs_of run_mode cs named =
    perform_all-IsConsistent G outputs_of cs (new_graph G run_mode) named
      (new_graph-IsConsistent G outputs_of run_mode)
