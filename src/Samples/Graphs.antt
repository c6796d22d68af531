-- ===== src/Samples/Graphs.antt =====
-- Three jobs: "a" before "b", and "c", which is flagged.
use pypipegraph.Digraph.Edges.{EdgeList, all_rise, depth, edge_lists, highest, inner, sources}
use pypipegraph.Digraph.Walk.{LeadsFrom}
use pypipegraph.Enums.{console}
use pypipegraph.Exec.{raise}
use pypipegraph.JobClass.{multi_file_generating_job}
use pypipegraph.Prelude.{
  Bool, Dict, List, String, [], arith, contains, difference, false, has_key, if◌then◌else◌, keys,
  lookup, none, not, refl, some, true, ◌&&◌, ◌==◌, ◌↔◌, ◌∷◌, ◌≡◌,
}
use pypipegraph.Pruning.{Marks, apply_pruning, new_jobs}
use pypipegraph.Pruning.Exact.{LeftOut, apply_pruning_exact}
use pypipegraph.Pruning.Exact.Loops.{up}
use pypipegraph.Registry.Conflict.{conflict_poisons_output}
use pypipegraph.Registry.Depends.{on_file, on_job}
use pypipegraph.Registry.Graph.{
  Job, PyPipeGraph, add_job, find_job_from_file, job_output_conflict, key_error, new_graph,
}
use pypipegraph.Registry.Invariant.{Call, adding, construction-IsConsistent, depending, perform_all}
use pypipegraph.Registry.Invariant.Consistent.{IsConsistent}
use pypipegraph.Samples.{different}
use pypipegraph.Selection.{prune_unrelated, related}

abbrev three_nodes : EdgeList
three_nodes = record { nodes = "a" ∷ "b" ∷ "c" ∷ []; edges = ("a", "b") ∷ [] }

abbrev flags : Dict Bool
flags = ("a", false) ∷ ("b", false) ∷ ("c", true) ∷ []

flags_are_nodes :
    (u : String) → contains (keys flags) u ≡ true → contains three_nodes.nodes u ≡ true
unfolding keys
flags_are_nodes u h = h

none_in_focus : (u : String) → contains [] u ≡ true → contains three_nodes.nodes u ≡ true
unfolding contains
none_in_focus u h = cc

three_acyclic : edge_lists.is_directed_acyclic_graph three_nodes ≡ true
unfolding all_rise depth inner contains highest sources
three_acyclic = refl

apply_pruning_exact_example :
    (dag' : EdgeList) × (m : Marks) × (apply_pruning edge_lists three_nodes 4 flags [] [] []
      ≡ some (dag', m))
    × ((x : String)
        → (contains m.pruned x ≡ true) ↔ (
            LeftOut edge_lists three_nodes flags [] [] x
            × ¬ LeadsFrom (up edge_lists three_nodes) (new_jobs edge_lists three_nodes []) x))
    × ((x : String)
        → contains (dag'.nodes) x ≡ (not (contains m.pruned x) && contains three_nodes.nodes x))
apply_pruning_exact_example =
    apply_pruning_exact edge_lists three_nodes 4 flags [] [] [] three_acyclic (omega arith)
      none_in_focus flags_are_nodes

abbrev pub file_job : String → List String → Job
file_job job_id outputs = record {
  job_id = job_id;
  class = multi_file_generating_job;
  outputs = outputs;
  job_number = 0;
  is_pruned = false;
  dependency_callbacks = [];
}

abbrev pub one_output : String → List String
one_output x = x ∷ []

-- The last call raises NotADag.
abbrev calls : List Call
calls =
    adding (file_job "a" ("a" ∷ []))
    ∷ adding (file_job "b" ("b" ∷ []))
    ∷ depending (file_job "b" ("b" ∷ [])) (on_job (file_job "a" ("a" ∷ [])))
    ∷ depending (file_job "a" ("a" ∷ [])) (on_file "b")
    ∷ []

construction-IsConsistent_example :
    IsConsistent edge_lists one_output (perform_all edge_lists calls (new_graph edge_lists console))
construction-IsConsistent_example =
    construction-IsConsistent edge_lists one_output console calls (refl, (refl, (refl, (tt, tt))))

abbrev pub with_b : PyPipeGraph edge_lists
with_b = record {
  jobs = ("b", file_job "b" ("b" ∷ [])) ∷ [];
  job_dag = record { nodes = "b" ∷ []; edges = [] };
  job_inputs = [];
  outputs_to_job_ids = ("b", "b") ∷ [];
  next_job_number = 1;
  run_mode = console;
}

a_is_free : lookup "a" with_b.outputs_to_job_ids ≡ none
unfolding lookup
a_is_free = refl

b_is_taken : lookup "b" with_b.outputs_to_job_ids ≡ some "b"
unfolding lookup
b_is_taken = refl

b_is_there : has_key "b" with_b.jobs ≡ true
unfolding lookup
b_is_there = refl

ab_is_new : lookup "a:::b" with_b.jobs ≡ none
unfolding lookup
ab_is_new = refl

conflict_poisons_output_example :
    (h : PyPipeGraph edge_lists) × (add_job edge_lists (file_job "a:::b" ("a" ∷ "b" ∷ [])) with_b
      ≡ (raise job_output_conflict, h))
    × (h.jobs ≡ with_b.jobs)
    × (find_job_from_file edge_lists "a" h ≡ (raise key_error, h))
    × (add_job edge_lists (file_job "a" ("a" ∷ [])) h ≡ (raise key_error, h))
conflict_poisons_output_example =
    conflict_poisons_output edge_lists (file_job "a:::b" ("a" ∷ "b" ∷ [])) (file_job "a" ("a" ∷ []))
      "a" "b" "b" [] [] with_b refl a_is_free b_is_taken (different "b" "a:::b" refl) b_is_there
      ab_is_new refl (different "a" "a:::b" refl)

-- a -> b -> c, and d apart
abbrev above : String → List String
above job_id = if job_id == "b" then "a" ∷ [] else if job_id == "c" then "a" ∷ "b" ∷ [] else []

abbrev below : String → List String
below job_id = if job_id == "a" then "b" ∷ "c" ∷ [] else if job_id == "b" then "c" ∷ [] else []

b_and_d_pruned :
    prune_unrelated above below ("b" ∷ []) ("a" ∷ "b" ∷ "c" ∷ "d" ∷ []) ≡ "b" ∷ "d" ∷ []
unfolding prune_unrelated related contains difference
b_and_d_pruned = refl
