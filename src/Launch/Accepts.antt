-- ===== src/Launch/Accepts.antt =====
-- runner.py, Runner.__init__: its tests of a graph that add and depends_on have built.
use mathlib.Core.Logic.{⊎_elim}
use pypipegraph.Digraph.{Digraph}
use pypipegraph.Digraph.Walk.{Leads, along, arrived}
use pypipegraph.Exec.{raise, return}
use pypipegraph.Launch.{
  Started, check_started, collect_numbers, flags_of, not_acyclic, number_in, runner_init, started,
  to_set,
}
use pypipegraph.Launch.Counting.{contains-le, parts_add_up}
use pypipegraph.Launch.Numbers.{collect_numbers_lem, keys-flags_of, length-keys}
use pypipegraph.Prelude.{
  AreDistinct, Bool, Dict, List, String, [], ap, arith, contains, contains-keys, false,
  if◌then◌else◌, keys, length, refl, some, subst, sym, true, ℕ, ◌+◌, ◌<◌, ◌∙◌, ◌∷◌, ◌≡◌,
}
use pypipegraph.Pruning.{Marks, apply_pruning, remove_all}
use pypipegraph.Pruning.Exact.{LeftOut, apply_pruning_exact}
use pypipegraph.Pruning.Exact.Loops.{down, is_node}
use pypipegraph.Registry.Graph.{PyPipeGraph}
use pypipegraph.Registry.Invariant.Consistent.{IsConsistent}

module _ (G : Digraph) (dag : G.Graph) where
  open G use {nodes, has_edge, remove_node}

  Leads-nodes :
      (u v : String)
      → Leads (down G dag) u v
      → contains (nodes dag) u ≡ true
      → contains (nodes dag) v ≡ true
  Leads-nodes u _ arrived h = h
  Leads-nodes u w (along {v = v} e walk) h = Leads-nodes v w walk (G.has_edge-nodes u v dag e).1

  -- What the run leaves out are jobs of the graph.
  LeftOut-nodes :
      (jobs : Dict Bool) (focus already_run : List String) (x : String)
      → ((u : String) → contains (keys jobs) u ≡ true → contains (nodes dag) u ≡ true)
      → ((u : String) → contains already_run u ≡ true → contains (nodes dag) u ≡ true)
      → LeftOut G dag jobs focus already_run x
      → contains (nodes dag) x ≡ true
  LeftOut-nodes jobs focus already_run x known ran h =
      ⊎_elim (λ (focused, is_node, _). is_node)
        (⊎_elim (λ before. ran x before) (λ (u, m, _, walk). Leads-nodes u x walk (known u m))) h

  AreDistinct-remove_all :
      (xs : List String) (h : G.Graph)
      → ((u : String) (g : G.Graph) → AreDistinct (nodes g) → AreDistinct (nodes (remove_node u g)))
      → AreDistinct (nodes h)
      → AreDistinct (nodes (remove_all G xs h))
  unfolding remove_all
  AreDistinct-remove_all [] h keep distinct = distinct
  AreDistinct-remove_all (x ∷ xs) h keep distinct =
      AreDistinct-remove_all xs (if contains (nodes h) x then remove_node x h else h) keep
        (step (contains (nodes h) x))
    where
      step : (b : Bool) → AreDistinct (nodes (if b then remove_node x h else h))
      step true = keep x h distinct
      step false = distinct

same_elements-length :
    (xs ys : List String)
    → AreDistinct xs
    → AreDistinct ys
    → ((x : String) → contains xs x ≡ contains ys x)
    → length xs ≡ length ys
same_elements-length xs ys dx dy same = omega (
  arith,
  contains-le xs ys dx (λ x h. sym (same x) ∙ h),
  contains-le ys xs dy (λ x h. same x ∙ h),
)

module _ (G : Digraph) where
  -- The tests where the numbers are right.
  check_started_lem :
      (r : Started G) (ms : List ℕ)
      → length ms ≡ length r.jobs
      → length r.jobs ≡ length (G.nodes r.dag) + length (to_set r.pruned)
      → check_started G r (some ms)
        ≡ (if G.is_directed_acyclic_graph r.dag then return r else raise not_acyclic)
  unfolding check_started
  check_started_lem r ms one two = ground (arith, one, two)

  runner_init-steps :
      (g : PyPipeGraph G) (max_cores run_id fuel : ℕ) (focus already_run : List String)
      (reasons : Dict String) (dag : G.Graph) (m : Marks) (ms : List ℕ)
      → G.is_directed_acyclic_graph g.job_dag ≡ true
      → length g.jobs ≡ length (G.nodes g.job_dag)
      → apply_pruning G g.job_dag fuel (flags_of g.jobs) focus already_run reasons ≡ some (dag, m)
      → collect_numbers g.jobs [] ≡ some ms
      → runner_init G g max_cores run_id fuel focus already_run reasons
        ≡ check_started G (started G g max_cores run_id dag m.pruned) (some ms)
  unfolding runner_init
  runner_init-steps g max_cores run_id fuel focus already_run reasons dag m ms acyclic size ends
        numbers =
      rw (acyclic, ends, numbers) (ground (arith, size))

  -- The graph that is run is the graph without the pruned jobs.
  pruned_dag :
      (dag : G.Graph) (fuel : ℕ) (jobs : Dict Bool) (focus already_run : List String)
      (reasons : Dict String) (dag' : G.Graph) (m : Marks)
      → apply_pruning G dag fuel jobs focus already_run reasons ≡ some (dag', m)
      → dag' ≡ remove_all G m.pruned dag
  unfolding apply_pruning
  pruned_dag dag fuel jobs focus already_run reasons dag' m ends = ground (arith, ends)

  -- A Runner of a consistent, acyclic graph passes the tests of its __init__: provided that the jobs
  -- in focus and those already run are jobs of the graph (and that networkx has each node once,
  -- also after a removal, and finds the graph acyclic whatever nodes are removed from it), the
  -- pruning ends, the numbers of jobs, nodes and pruned jobs fit each other, and no two jobs share
  -- a number, so that __init__ returns the Runner of the pruned graph.
  pub runner_init_accepts :
      (outputs_of : String → List String) (g : PyPipeGraph G) (max_cores run_id fuel : ℕ)
      (focus already_run : List String) (reasons : Dict String)
      → IsConsistent G outputs_of g
      → AreDistinct (keys g.jobs)
      → AreDistinct (G.nodes g.job_dag)
      → ((u : String) (h : G.Graph)
          → AreDistinct (G.nodes h)
          → AreDistinct (G.nodes (G.remove_node u h)))
      → G.is_directed_acyclic_graph g.job_dag ≡ true
      → ((xs : List String) → G.is_directed_acyclic_graph (remove_all G xs g.job_dag) ≡ true)
      → length (G.nodes g.job_dag) < fuel
      → ((u : String) → contains focus u ≡ true → contains (G.nodes g.job_dag) u ≡ true)
      → ((u : String) → contains already_run u ≡ true → contains (G.nodes g.job_dag) u ≡ true)
      → (dag : G.Graph) × (m : Marks) × (apply_pruning G g.job_dag fuel
            (flags_of g.jobs)
            focus
            already_run
            reasons
          ≡ some (dag, m))
        × (runner_init G g max_cores run_id fuel focus already_run reasons
            ≡ return (started G g max_cores run_id dag m.pruned))
  runner_init_accepts outputs_of g max_cores run_id fuel focus already_run reasons consistent dk dn
        keep acyclic stays_acyclic enough focus_known run_known =
      let nodes = G.nodes g.job_dag in
      let same : (u : String) → contains (keys g.jobs) u ≡ contains nodes u =
        λ u. contains-keys u g.jobs ∙ sym (consistent.nodes_are_jobs u) in
      let flags_known : (u : String)
          → contains (keys (flags_of g.jobs)) u ≡ true
          → contains nodes u ≡ true =
        λ u h. sym (same u) ∙ ap (λ ks. contains ks u) (sym (keys-flags_of g.jobs)) ∙ h in
      let size = sym (length-keys g.jobs) ∙ same_elements-length (keys g.jobs) nodes dk dn same in
      let (dag, m, ends, pruned_iff, kept) =
        apply_pruning_exact G g.job_dag fuel (flags_of g.jobs) focus already_run reasons acyclic
          enough focus_known flags_known in
      let (ms, numbers, one_each) =
        collect_numbers_lem g.jobs [] dk consistent.distinct (λ x j h. unfold number_in in refl) in
      let reduced =
        pruned_dag g.job_dag fuel (flags_of g.jobs) focus already_run reasons dag m ends in
      let dd : AreDistinct (G.nodes dag) =
        subst (λ d. AreDistinct (G.nodes d)) (sym reduced)
          (AreDistinct-remove_all G g.job_dag m.pruned g.job_dag keep dn) in
      let parts =
        parts_add_up nodes m.pruned (G.nodes dag) dn dd
          (λ x h.
            LeftOut-nodes G g.job_dag (flags_of g.jobs) focus already_run x flags_known run_known
              ((pruned_iff x).0 h).0)
          kept in
      (
        dag,
        m,
        ends,
        runner_init-steps g max_cores run_id fuel focus already_run reasons dag m ms acyclic size
              ends numbers
            ∙ check_started_lem (started G g max_cores run_id dag m.pruned) ms
                (omega (arith, one_each)) (size ∙ parts)
            ∙ rw (ap (λ d. G.is_directed_acyclic_graph d) reduced ∙ stays_acyclic m.pruned) refl,
      )
