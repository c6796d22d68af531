-- ===== src/Samples/Launches.antt =====
-- A Runner over three jobs, of which "a" has run before.
use pypipegraph.Digraph.Edges.{EdgeList, all_rise, depth, edge_lists, has, highest, inner, sources}
use pypipegraph.Enums.{console}
use pypipegraph.Exec.{return}
use pypipegraph.JobClass.{is_invariant}
use pypipegraph.Launch.{Started, flags_of, runner_init, started}
use pypipegraph.Launch.Accepts.{runner_init_accepts}
use pypipegraph.Launch.Counting.{AreDistinct-remove}
use pypipegraph.Prelude.{
  AreDistinct, Bool, Bool-cases, List, String, [], add, arith, contains, false, has_key,
  if◌then◌else◌, inl, inr, insert, keys, length, lookup, refl, some, subst, sym, true, ℕ, ◌&&◌, ◌<◌,
  ◌∷◌, ◌≡◌,
}
use pypipegraph.Pruning.{Marks, apply_pruning, remove_all}
use pypipegraph.Registry.Depends.{connect, depends_on, inputs_of, job_depends_on, on_job}
use pypipegraph.Registry.Graph.{Job, PyPipeGraph, add_job, claim_output, claim_outputs, new_graph}
use pypipegraph.Registry.Invariant.{
  Call, adding, construction-IsConsistent, depending, perform, perform_all,
}
use pypipegraph.Registry.Invariant.Consistent.{IsConsistent}
use pypipegraph.Samples.Graphs.{file_job, one_output}

abbrev three_calls : List Call
three_calls =
    adding (file_job "a" ("a" ∷ []))
    ∷ adding (file_job "b" ("b" ∷ []))
    ∷ adding (file_job "c" ("c" ∷ []))
    ∷ depending (file_job "b" ("b" ∷ [])) (on_job (file_job "a" ("a" ∷ [])))
    ∷ []

abbrev numbered : String → ℕ → Job
numbered x n = record (file_job x (x ∷ [])) { job_number = n }

abbrev three_jobs : PyPipeGraph edge_lists
three_jobs = record {
  jobs = ("a", numbered "a" 0) ∷ ("b", numbered "b" 1) ∷ ("c", numbered "c" 2) ∷ [];
  job_dag = record { nodes = "c" ∷ "b" ∷ "a" ∷ []; edges = ("a", "b") ∷ [] };
  job_inputs = ("b", "a" ∷ []) ∷ [];
  outputs_to_job_ids = ("a", "a") ∷ ("b", "b") ∷ ("c", "c") ∷ [];
  next_job_number = 3;
  run_mode = console;
}

built_by_calls : perform_all edge_lists three_calls (new_graph edge_lists console) ≡ three_jobs
unfolding contains perform_all perform job_depends_on is_invariant depends_on connect add_job
    claim_output claim_outputs lookup insert add has inner inputs_of
built_by_calls = refl

three_jobs-IsConsistent : IsConsistent edge_lists one_output three_jobs
three_jobs-IsConsistent = subst (IsConsistent edge_lists one_output) built_by_calls (
    construction-IsConsistent edge_lists one_output console three_calls
      (refl, (refl, (refl, (refl, tt)))))

keys-AreDistinct : AreDistinct (keys three_jobs.jobs)
unfolding keys contains
keys-AreDistinct = (refl, (refl, (refl, tt)))

nodes-AreDistinct : AreDistinct three_jobs.job_dag.nodes
unfolding contains
nodes-AreDistinct = (refl, (refl, (refl, tt)))

jobs_acyclic : edge_lists.is_directed_acyclic_graph three_jobs.job_dag ≡ true
unfolding all_rise depth inner contains highest sources
jobs_acyclic = refl

few_jobs : length three_jobs.job_dag.nodes < 4
few_jobs = omega arith

no_focus : (u : String) → contains [] u ≡ true → contains three_jobs.job_dag.nodes u ≡ true
unfolding contains
no_focus u h = cc

a_ran : (u : String) → contains ("a" ∷ []) u ≡ true → contains three_jobs.job_dag.nodes u ≡ true
unfolding contains
a_ran u h = ground (arith, h)

-- One edge, whatever nodes there are.
one_edge_acyclic :
    (ns : List String)
    → edge_lists.is_directed_acyclic_graph (record { nodes = ns; edges = ("a", "b") ∷ [] }) ≡ true
unfolding all_rise depth inner contains highest sources
one_edge_acyclic [] = refl
one_edge_acyclic (n ∷ []) = elim (Bool-cases (contains (n ∷ []) "a" && contains (n ∷ []) "b")) [
  | inl both ↦ rw both refl
  | inr one_only ↦ rw one_only refl
]
one_edge_acyclic (n ∷ m ∷ ns) =
    elim (Bool-cases (contains (n ∷ m ∷ ns) "a" && contains (n ∷ m ∷ ns) "b")) [
      | inl both ↦ rw both refl
      | inr one_only ↦ rw one_only refl
    ]

stays_acyclic :
    (xs : List String) (h : EdgeList)
    → h.edges ≡ ("a", "b") ∷ []
    → edge_lists.is_directed_acyclic_graph (remove_all edge_lists xs h) ≡ true
unfolding remove_all
stays_acyclic [] h e =
    subst
      (λ es. edge_lists.is_directed_acyclic_graph (record { nodes = h.nodes; edges = es }) ≡ true)
      (sym e) (one_edge_acyclic h.nodes)
stays_acyclic (x ∷ xs) h e =
    stays_acyclic xs (if contains h.nodes x then edge_lists.remove_node x h else h)
      (kept (contains h.nodes x))
  where
    kept : (b : Bool) → (if b then edge_lists.remove_node x h else h).edges ≡ ("a", "b") ∷ []
    kept true = e
    kept false = e

runner_init_accepts_example :
    (dag : EdgeList) × (m : Marks) × (apply_pruning edge_lists three_jobs.job_dag 4
        (flags_of three_jobs.jobs)
        []
        ("a" ∷ [])
        []
      ≡ some (dag, m))
    × (runner_init edge_lists three_jobs 2 0 4 [] ("a" ∷ []) []
        ≡ return (started edge_lists three_jobs 2 0 dag m.pruned))
runner_init_accepts_example =
    runner_init_accepts edge_lists one_output three_jobs 2 0 4 [] ("a" ∷ []) []
      three_jobs-IsConsistent keys-AreDistinct nodes-AreDistinct
      (λ u h d. AreDistinct-remove u h.nodes d) jobs_acyclic
      (λ xs. stays_acyclic xs three_jobs.job_dag refl) few_jobs no_focus a_ran

abbrev all_left : Started edge_lists
all_left = started edge_lists three_jobs 2 0 three_jobs.job_dag []

all_are_jobs : (x : String) → contains all_left.dag.nodes x ≡ true → has_key x all_left.jobs ≡ true
unfolding contains lookup
all_are_jobs x h = ground (arith, h)
