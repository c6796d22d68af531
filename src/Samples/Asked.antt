-- ===== src/Samples/Asked.antt =====
-- A job whose callable returns a callable.
use pypipegraph.Digraph.Edges.{edge_lists, has, inner}
use pypipegraph.Enums.{console}
use pypipegraph.Exec.{raise, return, return-injective}
use pypipegraph.JobClass.{is_invariant}
use pypipegraph.Ppg1.Adaptors.{Adapted, EdgeRemoval, ignore_one}
use pypipegraph.Ppg1.Ignoring.{shared_invariant_breaks}
use pypipegraph.Prelude.{
  Bool-cases, List, String, [], add, ap, arith, contains, eq_iff, if◌then◌else◌, inl, inr, insert,
  lookup, not, refl, some, subst, suc, true, zero, ℕ, ◌&&◌, ◌==◌, ◌∷◌, ◌≡◌, ◌≢◌,
}
use pypipegraph.Registry.Depends.{
  Dependency, connect, depends_on, inputs_of, job_depends_on, on_callback, on_job, on_none,
}
use pypipegraph.Registry.Graph.{
  PyPipeGraph, add_edge, add_job, claim_output, claim_outputs, has_edge, new_graph,
}
use pypipegraph.Registry.Invariant.{
  Call, adding, construction-IsConsistent, depending, perform, perform_all,
}
use pypipegraph.Registry.Invariant.Consistent.{IsConsistent}
use pypipegraph.Registry.Resolve.{Callables, pending, recursion_error, resolve_dependency_callbacks}
use pypipegraph.Registry.Resolve.Below.{IsBelow, IsPending}
use pypipegraph.Registry.Resolve.Settling.{IsRanked}
use pypipegraph.Registry.Resolve.Termination.{callbacks_resolved}
use pypipegraph.Samples.Graphs.{file_job, one_output, with_b}

abbrev asks : PyPipeGraph edge_lists
asks = record with_b {
  jobs = ("b", record (file_job "b" ("b" ∷ [])) { dependency_callbacks = 1 ∷ [] }) ∷ [];
}

abbrev counts_down : ℕ → Dependency
counts_down zero = on_none
counts_down (suc c) = on_callback c

abbrev call_down : Callables edge_lists
call_down c g = (return (counts_down c), g)

counts-IsBelow : (c : ℕ) → IsBelow (λ c. c) c (counts_down c)
counts-IsBelow zero = tt
counts-IsBelow (suc c) = omega arith

down-IsRanked : IsRanked (λ c. c) edge_lists call_down
down-IsRanked = record {
  returns_below = λ c g g' d called.
      subst (IsBelow (λ c. c) c)
        (return-injective (return (counts_down c)) (return d) (counts_down c) d
          (ap (λ p. p.0) called) refl refl)
        (counts-IsBelow c);
  registers_below = λ c bound low g h. h;
}

asks-IsPending : IsPending (λ c. c) edge_lists (λ _. 2) asks
unfolding pending lookup
asks-IsPending job_id = elim (Bool-cases ("b" == job_id)) [
  | inl same ↦ rw same (omega arith, tt)
  | inr other ↦ rw other tt
]

callbacks_resolved_example :
    ((resolve_dependency_callbacks edge_lists call_down 3 asks).0 ≢ raise recursion_error)
    × ((resolve_dependency_callbacks edge_lists call_down 3 asks).0 ≡ return tt
        → (x : String)
        → pending edge_lists x (resolve_dependency_callbacks edge_lists call_down 3 asks).1 ≡ [])
callbacks_resolved_example =
    callbacks_resolved (λ c. c) edge_lists call_down down-IsRanked 2 3 asks (omega arith)
      asks-IsPending

abbrev asking_calls : List Call
asking_calls =
    adding (file_job "a" ("a" ∷ [])) ∷ depending (file_job "a" ("a" ∷ [])) (on_callback 1) ∷ []

asking-IsConsistent :
    IsConsistent edge_lists one_output
      (perform_all edge_lists asking_calls (new_graph edge_lists console))
asking-IsConsistent =
    construction-IsConsistent edge_lists one_output console asking_calls (refl, (tt, tt))

unfoldable without_edge : String → String → List (String × String) → List (String × String)
without_edge u v [] = []
without_edge u v ((a, b) ∷ es) =
    let rest = without_edge u v es in if a == u && b == v then rest else (a, b) ∷ rest

has-without_edge :
    (u v x y : String) (es : List (String × String))
    → has (without_edge u v es) x y ≡ (not (u == x && v == y) && has es x y)
unfolding has without_edge
has-without_edge u v x y [] = ground arith
has-without_edge u v x y ((a, b) ∷ es) = ground (
  arith,
  has-without_edge u v x y es,
  eq_iff a u,
  eq_iff b v,
  eq_iff a x,
  eq_iff b y,
  eq_iff u x,
  eq_iff v y,
)

abbrev edge_removal : EdgeRemoval edge_lists
edge_removal = record {
  remove_edge = λ u v g. some (record g { edges = without_edge u v g.edges });
  removes = λ u v g h. (
    record g { edges = without_edge u v g.edges },
    refl,
    λ x y. ground (arith, has-without_edge u v x y g.edges),
  );
}

-- Two jobs of one function.
abbrev sharing_calls : List Call
sharing_calls =
    adding (file_job "f" ("f" ∷ []))
    ∷ adding (file_job "a" ("a" ∷ []))
    ∷ depending (file_job "a" ("a" ∷ [])) (on_job (file_job "f" ("f" ∷ [])))
    ∷ []

abbrev sharing_graph : PyPipeGraph edge_lists
sharing_graph = perform_all edge_lists sharing_calls (new_graph edge_lists console)

abbrev sharing : Adapted edge_lists
sharing = record {
  graph = sharing_graph;
  depend_on_function = [];
  func_invariant = ("a", "f") ∷ ("b", "f") ∷ [];
  usage_counter = ("f", 2) ∷ [];
}

a_has_f : lookup "a" sharing.func_invariant ≡ some "f"
unfolding lookup
a_has_f = refl

two_use_f : lookup "f" sharing.usage_counter ≡ some 2
unfolding lookup
two_use_f = refl

f_is_there :
    lookup "f" sharing_graph.jobs ≡ some (record (file_job "f" ("f" ∷ [])) { job_number = 0 })
unfolding lookup perform_all perform add_job claim_outputs claim_output insert job_depends_on
    depends_on connect add_edge has_edge is_invariant inputs_of has add contains inner
f_is_there = refl

f_gives_f : contains (one_output "f") "f" ≡ true
unfolding contains
f_gives_f = refl

a_takes_f : contains (inputs_of edge_lists "a" sharing_graph) "f" ≡ true
unfolding lookup perform_all perform add_job claim_outputs claim_output insert job_depends_on
    depends_on connect add_edge has_edge is_invariant inputs_of has add contains inner
a_takes_f = refl

a_after_f : edge_lists.has_edge sharing_graph.job_dag "f" "a" ≡ true
unfolding lookup perform_all perform add_job claim_outputs claim_output insert job_depends_on
    depends_on connect add_edge has_edge is_invariant inputs_of has add contains inner
a_after_f = refl

shared_invariant_breaks_example :
    ¬ IsConsistent edge_lists one_output (ignore_one edge_lists edge_removal "a" sharing).1.graph
shared_invariant_breaks_example =
    shared_invariant_breaks edge_lists edge_removal one_output "a" "f" "f" 2
      (record (file_job "f" ("f" ∷ [])) { job_number = 0 }) sharing
      (construction-IsConsistent edge_lists one_output console sharing_calls
        (refl, (refl, (refl, tt))))
      a_has_f two_use_f (omega arith) f_is_there f_gives_f a_takes_f a_after_f
