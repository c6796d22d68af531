-- ===== src/Pruning/Exact/Loops.antt =====
-- The three loops of `_apply_pruning` over an acyclic graph, with fuel above its number of nodes.
use mathlib.Core.Logic.{⊎_elim}
use pypipegraph.Digraph.{Digraph}
use pypipegraph.Digraph.Walk.{
  Follows, Leads, LeadsFrom, apply_all, for_each, for_each-Visited, visit_from, visit_from-Visited,
}
use pypipegraph.Prelude.{
  Bool, Bool-cases, Dict, List, Option, String, [], arith, contains, contains-add,
  contains-cons_cases, contains-remove, contains_here, contains_singleton, contains_there, eq_iff,
  inl, inr, length, lookup, not, refl, some, subst, sym, true, ℕ, ◌&&◌, ◌-◌, ◌<◌, ◌||◌, ◌↔◌, ◌∷◌,
  ◌≡◌, ◌⊎◌,
}
use pypipegraph.Pruning.{
  Marks, flagged, mark, prune_flagged, recurse_pruning, recurse_unpruning, unmark,
}

-- The call returns, and the set of pruned jobs is then the given one.
abbrev pub Yields : (String → Type 0) → Option Marks → Type 0
Yields P r = (m : Marks) × (r ≡ some m) × ((x : String) → (contains m.pruned x ≡ true) ↔ P x)

contains-apply_mark :
    (reason : String) (ts : List String) (m : Marks) (x : String)
    → contains (apply_all (mark reason) ts m).pruned x ≡ (contains ts x || contains m.pruned x)
unfolding apply_all mark contains
contains-apply_mark reason [] m x = refl
contains-apply_mark reason (t ∷ ts) m x =
    ground (arith, contains-apply_mark reason ts (mark reason t m) x, contains-add t x m.pruned)

contains-apply_unmark :
    (ts : List String) (m : Marks) (x : String)
    → contains (apply_all unmark ts m).pruned x ≡ (not (contains ts x) && contains m.pruned x)
unfolding apply_all unmark contains
contains-apply_unmark [] m x = refl
contains-apply_unmark (t ∷ ts) m x =
    ground
      (arith, contains-apply_unmark ts (unmark t m) x, contains-remove t x m.pruned, eq_iff t x)

-- The jobs of `self.jobs` that are flagged and not in focus.
abbrev pub is_chosen : Dict Bool → List String → String → Bool
is_chosen jobs focus u = flagged (lookup u jobs) && not (contains focus u)

module _ (G : Digraph) (dag : G.Graph) where
  open G use {nodes, has_edge}

  abbrev pub is_node : String → Bool
  is_node = contains (nodes dag)

  abbrev pub down : String → String → Bool
  down = has_edge dag

  abbrev pub up : String → String → Bool
  up v u = has_edge dag u v

  abbrev pub Below : Dict Bool → List String → List String → String → Type 0
  Below jobs focus us x =
      (u : String) × (contains us u ≡ true) × (is_chosen jobs focus u ≡ true) × Leads down u x

module _ (G : Digraph) (dag : G.Graph) (acyclic : G.is_directed_acyclic_graph dag ≡ true) (fuel : ℕ)
    (enough : length (G.nodes dag) < fuel) where
  open G use {nodes, has_edge, successors, predecessors}

  downstream : Follows (successors dag) (is_node G dag) (down G dag)
  downstream = record {
    found = G.successors_lem dag;
    closed = λ u v e. (G.has_edge-nodes u v dag e).1;
  }

  upstream : Follows (predecessors dag) (is_node G dag) (up G dag)
  upstream = record {
    found = G.predecessors_lem dag;
    closed = λ u v e. (G.has_edge-nodes v u dag e).0;
  }

  pub unprune_loop :
      (us : List String) (m : Marks)
      → ((u : String) → contains us u ≡ true → (is_node G dag) u ≡ true)
      → Yields
          (λ x. (contains m.pruned x ≡ true) × ¬ LeadsFrom (up G dag) us x)
          (for_each (recurse_unpruning G dag fuel) us m)
  unfolding recurse_unpruning
  unprune_loop us m known =
      let (position, rises, below) = G.topological_order dag acyclic in
      let done =
        for_each-Visited (visit_from unmark (predecessors dag) fuel) us
          (λ u t c.
            visit_from-Visited upstream position (λ u v e. rises v u e) fuel u t (known u c)
              (omega (arith, below u)))
          m in
      let after = λ (x : String). contains-apply_unmark done.trail m x in
      (
        apply_all unmark done.trail m,
        done.result_lem,
        λ x. (
          λ h. (ground (arith, after x), λ l. ground (arith, after x, done.complete x l)),
          λ (was, free). elim (Bool-cases (contains done.trail x)) [
            | inl seen ↦ absurd (free (done.sound x seen))
            | inr unseen ↦ ground (arith, after x)
          ],
        ),
      )

  pub prune_one :
      (u reason : String) (m : Marks)
      → (is_node G dag) u ≡ true
      → Yields
          (λ x. (contains m.pruned x ≡ true) ⊎ Leads (down G dag) u x)
          (recurse_pruning G dag fuel reason u m)
  unfolding recurse_pruning
  prune_one u reason m known =
      let (position, rises, below) = G.topological_order dag acyclic in
      let height = λ (v : String). length (nodes dag) - position v in
      let done =
        visit_from-Visited {visit = mark reason} downstream height
          (λ v w e. omega (arith, rises v w e, below v, below w)) fuel u m known (omega arith) in
      let after = λ (x : String). contains-apply_mark reason done.trail m x in
      (
        apply_all (mark reason) done.trail m,
        done.result_lem,
        λ x. (
          λ h. elim (Bool-cases (contains done.trail x)) [
            | inl seen ↦ inr (
                let (w, c, l) = done.sound x seen in
                subst (λ y. Leads (down G dag) y x) (sym (contains_singleton u w c)) l)
            | inr unseen ↦ inl (ground (arith, after x))
          ],
          ⊎_elim (λ old. ground (arith, after x))
              (λ l. ground (arith, after x, done.complete x (u, contains_here u [], l))),
        ),
      )

  pub prune_loop :
      (jobs : Dict Bool) (focus us : List String) (m : Marks)
      → ((u : String) → contains us u ≡ true → (is_node G dag) u ≡ true)
      → Yields
          (λ x. (contains m.pruned x ≡ true) ⊎ Below G dag jobs focus us x)
          (for_each (prune_flagged G dag fuel jobs focus) us m)
  unfolding for_each prune_flagged
  prune_loop jobs focus [] m known =
      (m, refl, λ x. (inl, ⊎_elim (λ h. h) (λ (u, c, ch, l). unfold contains in cc)))
  prune_loop jobs focus (u ∷ us) m known = elim (Bool-cases (is_chosen jobs focus u)) [
    | inl yes_chosen ↦
        let (m1, e1, iff1) = prune_one u u m (known u (contains_here u us)) in
        let (m2, e2, iff2) =
          prune_loop jobs focus us m1 (λ v c. known v (contains_there u v us c)) in
        (
          m2,
          ground (arith, e1, e2),
          λ x. (
            λ h. elim ((iff2 x).0 h) [
              | inl h1 ↦ elim ((iff1 x).0 h1) [
                | inl h0 ↦ inl h0
                | inr l ↦ inr (u, contains_here u us, yes_chosen, l)
              ]
              | inr (v, c, ch, l) ↦ inr (v, contains_there u v us c, ch, l)
            ],
            ⊎_elim (λ h0. (iff2 x).1 (inl ((iff1 x).1 (inl h0))))
                (λ (v, c, ch, l). elim (contains-cons_cases u v us c) [
                  | inl e ↦
                      (iff2 x).1
                        (inl ((iff1 x).1 (inr (subst (λ y. Leads (down G dag) y x) (sym e) l))))
                  | inr c' ↦ (iff2 x).1 (inr (v, c', ch, l))
                ]),
          ),
        )
    | inr not_chosen ↦
        let (m2, e2, iff2) =
          prune_loop jobs focus us m (λ v c. known v (contains_there u v us c)) in
        (
          m2,
          ground (arith, e2),
          λ x. (
            λ h. elim ((iff2 x).0 h) [
              | inl h0 ↦ inl h0
              | inr (v, c, ch, l) ↦ inr (v, contains_there u v us c, ch, l)
            ],
            ⊎_elim (λ h0. (iff2 x).1 (inl h0))
                (λ (v, c, ch, l). elim (contains-cons_cases u v us c) [
                  | inl e ↦ absurd (cc (subst (λ y. is_chosen jobs focus y ≡ true) (sym e) ch))
                  | inr c' ↦ (iff2 x).1 (inr (v, c', ch, l))
                ]),
          ),
        )
  ]
