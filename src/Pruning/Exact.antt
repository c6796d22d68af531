-- ===== src/Pruning/Exact.antt =====
-- runner.py, Runner._apply_pruning: exactly which jobs are left out.
pub mod Loops
use mathlib.Core.Logic.{⊎_elim}
use pypipegraph.Digraph.{Digraph}
use pypipegraph.Digraph.Walk.{LeadsFrom}
use pypipegraph.Enums.{pruned}
use pypipegraph.Prelude.{
  Bool, Dict, List, String, [], arith, contains, contains-append_cases, contains-append_left,
  contains-append_right, contains-difference, eq_iff, false, if◌then◌else◌, inl, inr, is_empty,
  keys, length, not, refl, some, true, ℕ, ◌&&◌, ◌++◌, ◌<◌, ◌↔◌, ◌∷◌, ◌≡◌, ◌⊎◌,
}
use pypipegraph.Pruning.{Marks, apply_focus, apply_pruning, new_jobs, remove_all}
use pypipegraph.Pruning.Exact.Loops.{Below, Yields, prune_loop, unprune_loop, up}

module _ (G : Digraph) (dag : G.Graph) where
  open G use {nodes, has_edge, remove_node}

  nodes-remove_all :
      (xs : List String) (g : G.Graph) (v : String)
      → contains (nodes (remove_all G xs g)) v ≡ (not (contains xs v) && contains (nodes g) v)
  unfolding remove_all contains
  nodes-remove_all [] g v = refl
  nodes-remove_all (x ∷ xs) g v = ground (
    arith,
    nodes-remove_all xs (if contains (nodes g) x then remove_node x g else g) v,
    G.nodes-remove_node x v g,
    eq_iff x v,
  )

  -- The jobs that the run leaves out, before the new jobs are brought back: those out of focus,
  -- those that ran before, and those at or below a flagged job.
  abbrev pub LeftOut : Dict Bool → List String → List String → String → Type 0
  LeftOut jobs focus already_run x =
      ((is_empty focus ≡ false)
        × (contains (nodes dag) x ≡ true)
        × ¬ LeadsFrom (up G dag) (focus ++ new_jobs G dag already_run) x)
      ⊎ (contains already_run x ≡ true)
      ⊎ Below G dag jobs focus (keys jobs) x

  new_jobs-nodes :
      (already_run : List String) (u : String)
      → contains (new_jobs G dag already_run) u ≡ true
      → contains (nodes dag) u ≡ true
  unfolding new_jobs contains
  new_jobs-nodes already_run u h = ground (arith, contains-difference (nodes dag) already_run u)

module _ (G : Digraph) (dag : G.Graph) (acyclic : G.is_directed_acyclic_graph dag ≡ true) (fuel : ℕ)
    (enough : length (G.nodes dag) < fuel) where
  open G use {nodes, has_edge}

  focused :
      (focus fresh : List String) (reasons : Dict String)
      → ((u : String) → contains focus u ≡ true → contains (nodes dag) u ≡ true)
      → ((u : String) → contains fresh u ≡ true → contains (nodes dag) u ≡ true)
      → Yields
          (λ x.
            (is_empty focus ≡ false)
            × (contains (nodes dag) x ≡ true)
            × ¬ LeadsFrom (up G dag) (focus ++ fresh) x)
          (apply_focus G dag fuel focus fresh reasons)
  unfolding apply_focus
  focused [] fresh reasons known new =
      (record { pruned = []; reasons = reasons }, refl, λ x. (λ h. unfold contains in cc, λ h. cc))
  focused (f ∷ fs) fresh reasons known new =
      let (m, e, iff) =
        unprune_loop G dag acyclic fuel enough (f ∷ fs ++ fresh)
          (record { pruned = nodes dag; reasons = reasons })
          (λ u c. ⊎_elim (known u) (new u) (contains-append_cases (f ∷ fs) fresh u c)) in
      (m, e, λ x. (λ h. let (a, b) = (iff x).0 h in (refl, a, b), λ (_, a, b). (iff x).1 (a, b)))

-- On an acyclic graph, when the jobs in focus and the jobs of the run are nodes of it, the
-- recursion ends without an exception, and the set of pruned jobs is exactly this: a job out of
-- focus (that is, neither in focus, nor new, nor upstream of such a job), or one that ran before,
-- or one at or below a flagged job that is not in focus; unless the job is new or upstream of a
-- new job. The graph that is run keeps exactly the other nodes.
pub apply_pruning_exact :
    (G : Digraph) (dag : G.Graph) (fuel : ℕ) (jobs : Dict Bool) (focus already_run : List String)
    (reasons : Dict String)
    → G.is_directed_acyclic_graph dag ≡ true
    → length (G.nodes dag) < fuel
    → ((u : String) → contains focus u ≡ true → contains (G.nodes dag) u ≡ true)
    → ((u : String) → contains (keys jobs) u ≡ true → contains (G.nodes dag) u ≡ true)
    → (dag' : G.Graph) × (m : Marks) × (apply_pruning G dag fuel jobs focus already_run reasons
        ≡ some (dag', m))
      × ((x : String)
          → (contains m.pruned x ≡ true) ↔ (
              LeftOut G dag jobs focus already_run x
              × ¬ LeadsFrom (up G dag) (new_jobs G dag already_run) x))
      × ((x : String)
          → contains (G.nodes dag') x ≡ (not (contains m.pruned x) && contains (G.nodes dag) x))
unfolding apply_pruning
apply_pruning_exact G dag fuel jobs focus already_run reasons acyclic enough known in_graph =
    let fresh = new_jobs G dag already_run in
    let new = new_jobs-nodes G dag already_run in
    let (m1, e1, iff1) = focused G dag acyclic fuel enough focus fresh reasons known new in
    let (m2, e2, iff2) =
      prune_loop G dag acyclic fuel enough jobs focus (keys jobs)
        (record m1 { pruned = m1.pruned ++ already_run }) in_graph in
    let (m3, e3, iff3) = unprune_loop G dag acyclic fuel enough fresh m2 new in
    (
      remove_all G m3.pruned dag,
      m3,
      ground (arith, e1, e2, e3),
      λ x. (
        λ h.
            let (h2, free) = (iff3 x).0 h in
            (
              ⊎_elim
                  (λ h1.
                    ⊎_elim (λ f. inl ((iff1 x).0 f)) (λ a. inr (inl a))
                      (contains-append_cases m1.pruned already_run x h1))
                  (λ b. inr (inr b)) ((iff2 x).0 h2),
              free,
            ),
        λ (left_out, free). (iff3 x).1 (
          (iff2 x).1 (
              ⊎_elim (λ f. inl (contains-append_left m1.pruned already_run x ((iff1 x).1 f)))
                (⊎_elim (λ a. inl (contains-append_right m1.pruned already_run x a)) inr) left_out),
          free,
        ),
      ),
      nodes-remove_all G dag m3.pruned dag,
    )
