-- ===== src/Launch.antt =====
-- runner.py, Runner.__init__ and modify_dag: what a Runner takes over from the graph, and the tests
-- that it makes of it; build_evaluator: what the engine is told. The collector of jobs that takes
-- the global pipegraph's place meanwhile, the graphml dump and the locks are left out.
pub mod Counting
pub mod Numbers
pub mod Accepts
pub mod Told
use pypipegraph.Digraph.{Digraph}
use pypipegraph.Enums.{pruned, upstream}
use pypipegraph.Exec.{Result, raise, return}
use pypipegraph.JobClass.{EvalJobKind, eval_job_kind}
use pypipegraph.Prelude.{
  Bool, Dict, List, Option, String, [], add, false, if◌then◌else◌, length, lookup, nat_eq, none,
  not, some, ℕ, ◌++◌, ◌+◌, ◌>>?◌, ◌||◌, ◌∷◌,
}
use pypipegraph.Pruning.{apply_pruning}
use pypipegraph.Registry.Graph.{Job, PyPipeGraph}

pub data InitError : Type 0 where
  not_acyclic assertion_error value_error not_implemented_error : InitError
  -- what _apply_pruning raises
  pruning_error : InitError

-- j._pruned by job id
unfoldable pub flags_of : Dict Job → Dict Bool
flags_of [] = []
flags_of ((k, j) ∷ jobs) = (k, j.is_pruned) ∷ flags_of jobs

unfoldable pub number_in : List ℕ → ℕ → Bool
number_in [] n = false
number_in (m ∷ ms) n = nat_eq m n || number_in ms n

-- The loop that fills job_numbers; `none` is the ValueError of a number that is there.
unfoldable pub collect_numbers : Dict Job → List ℕ → Option (List ℕ)
unfolding number_in
collect_numbers [] numbers = some numbers
collect_numbers ((k, j) ∷ jobs) numbers =
    let rest = collect_numbers jobs (j.job_number ∷ numbers) in
    if number_in numbers j.job_number then none else rest

-- the elements of a set, once each
unfoldable pub to_set : List String → List String
to_set [] = []
to_set (x ∷ xs) = add x (to_set xs)

module _ (G : Digraph) where
  pub record Started : Type 0 where
    pub jobs : Dict Job
    pub job_inputs : Dict (List String)
    pub outputs_to_job_ids : Dict String
    pub next_job_number : ℕ
    pub max_cores : ℕ
    pub run_id : ℕ
    pub dag : G.Graph
    pub pruned : List String

  -- The tests after the pruning, where len(jobs) - len(pruned) is of integers.
  unfoldable pub check_started : Started → Option (List ℕ) → Result InitError Started
  check_started r none = raise value_error
  check_started r (some job_numbers) =
      if not (nat_eq (length job_numbers) (length r.jobs))
      then raise assertion_error
      else if not (nat_eq (length r.jobs) (length (G.nodes r.dag) + length (to_set r.pruned)))
      then raise not_implemented_error
      else if not (G.is_directed_acyclic_graph r.dag)
      then raise not_acyclic
      else return r

  abbrev pub started : PyPipeGraph G → (max_cores run_id : ℕ) → G.Graph → List String → Started
  started g max_cores run_id dag left_out = record {
    jobs = g.jobs;
    job_inputs = g.job_inputs;
    outputs_to_job_ids = g.outputs_to_job_ids;
    next_job_number = g.next_job_number;
    max_cores = max_cores;
    run_id = run_id;
    dag = dag;
    pruned = left_out;
  }

  unfoldable pub runner_init :
      PyPipeGraph G
      → (max_cores run_id fuel : ℕ) (focus already_run : List String) (reasons : Dict String)
      → Result InitError Started
  runner_init g max_cores run_id fuel focus already_run reasons =
      if not (G.is_directed_acyclic_graph g.job_dag)
      then raise not_acyclic
      else if not (nat_eq (length g.jobs) (length (G.nodes g.job_dag)))
      then raise assertion_error
      else elim (apply_pruning G g.job_dag fuel (flags_of g.jobs) focus already_run reasons) [
        | none ↦ raise pruning_error
        | some (dag, m) ↦
            check_started (started g max_cores run_id dag m.pruned) (collect_numbers g.jobs [])
      ]

-- A call of the engine's builder.
pub data BuilderCall : Type 0 where
  add_node_call : String → EvalJobKind → BuilderCall
  add_edge_call : (downstream upstream : String) → BuilderCall

-- for job_id in self.dag.nodes; `none` is the KeyError
unfoldable pub node_calls : Dict Job → List String → Option (List BuilderCall)
unfolding eval_job_kind
node_calls jobs [] = some []
node_calls jobs (job_id ∷ ids) =
    let rest = node_calls jobs ids in
    lookup job_id jobs >>? λ job.
    rest >>? λ calls. some (add_node_call job_id (eval_job_kind job.class) ∷ calls)

unfoldable pub edge_calls : List (String × String) → List BuilderCall
edge_calls [] = []
edge_calls ((a, b) ∷ edges) = add_edge_call b a ∷ edge_calls edges

-- `edges` are networkx's dag.edges
unfoldable pub build_evaluator :
    (G : Digraph) → (G.Graph → List (String × String)) → Started G → Option (List BuilderCall)
unfolding node_calls edge_calls
build_evaluator G edges r =
    node_calls r.jobs (G.nodes r.dag) >>? λ calls. some (calls ++ edge_calls (edges r.dag))
