-- ===== src/Launch/Told.antt =====
-- runner.py, Runner.build_evaluator: what the engine is told.
use pypipegraph.Digraph.{Digraph}
use pypipegraph.JobClass.{eval_job_kind}
use pypipegraph.Launch.{
  BuilderCall, Started, add_edge_call, add_node_call, build_evaluator, edge_calls, node_calls,
}
use pypipegraph.Prelude.{
  Bool, Dict, List, Option-cases, String, [], arith, contains, eq_refl, false, has_key, inl, inr,
  lookup, refl, some, true, ◌&&◌, ◌++◌, ◌==◌, ◌||◌, ◌∷◌, ◌≡◌,
}
use pypipegraph.Registry.Graph.{Job}
use pypipegraph.Shared.{found}

abbrev pub adds : List BuilderCall → String → Bool
adds [] x = false
adds (add_node_call y kind ∷ calls) x = y == x || adds calls x
adds (add_edge_call v u ∷ calls) x = adds calls x

abbrev pub connects : List BuilderCall → String → String → Bool
connects [] u v = false
connects (add_node_call y kind ∷ calls) u v = connects calls u v
connects (add_edge_call b a ∷ calls) u v = a == u && b == v || connects calls u v

-- u -> v is one of the edges
abbrev pub has_listed : List (String × String) → String → String → Bool
has_listed [] u v = false
has_listed ((a, b) ∷ edges) u v = a == u && b == v || has_listed edges u v

edge_calls_lem :
    (edges : List (String × String)) (x y : String)
    → (adds (edge_calls edges) x ≡ false) × (connects (edge_calls edges) x y ≡ has_listed edges x y)
unfolding edge_calls
edge_calls_lem [] x y = (refl, refl)
edge_calls_lem ((a, b) ∷ edges) x y = ground (arith, edge_calls_lem edges x y)

node_calls_lem :
    (jobs : Dict Job) (ids : List String) (later : List BuilderCall)
    → ((x : String) → contains ids x ≡ true → has_key x jobs ≡ true)
    → (calls : List BuilderCall) × (node_calls jobs ids ≡ some calls)
      × ((x y : String)
          → (adds (calls ++ later) x ≡ (contains ids x || adds later x))
            × (connects (calls ++ later) x y ≡ connects later x y))
unfolding node_calls contains
node_calls_lem jobs [] later known = ([], refl, λ x y. (refl, refl))
node_calls_lem jobs (i ∷ ids) later known =
    let (calls, ends, told) = node_calls_lem jobs ids later (λ x h. known x (ground (arith, h))) in
    elim (Option-cases (lookup i jobs)) [
      | inr gone ↦ absurd (ground (arith, gone, known i (ground (arith, eq_refl i))))
      | inl (job, found) ↦ (
        add_node_call i (eval_job_kind job.class) ∷ calls,
        rw (found, ends) refl,
        λ x y. (ground (arith, told x y), (told x y).1),
      )
    ]

-- The engine is built without a KeyError, if the nodes of the dag are jobs; it is told exactly the
-- nodes that are left, and of exactly the edges of the dag, the downstream end first.
evaluator_built :
    (G : Digraph) (edges : G.Graph → List (String × String)) (r : Started G)
    → ((x : String) → contains (G.nodes r.dag) x ≡ true → has_key x r.jobs ≡ true)
    → (calls : List BuilderCall) × (build_evaluator G edges r ≡ some calls)
      × ((x y : String)
          → (adds calls x ≡ contains (G.nodes r.dag) x)
            × (connects calls x y ≡ has_listed (edges r.dag) x y))
unfolding build_evaluator
evaluator_built G edges r known =
    let later = edge_calls (edges r.dag) in
    let (calls, ends, told) = node_calls_lem r.jobs (G.nodes r.dag) later known in
    (
      calls ++ later,
      rw ends refl,
      λ x y. ground (arith, told x y, edge_calls_lem (edges r.dag) x y),
    )
