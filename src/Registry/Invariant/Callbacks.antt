-- ===== src/Registry/Invariant/Callbacks.antt =====
-- Changing what a job has of dependency callbacks keeps the invariant.
use pypipegraph.Digraph.{Digraph}
use pypipegraph.Exec.{Keeps}
use pypipegraph.Prelude.{
  List, Option-cases, String, [], arith, eq_iff, inl, inr, insert, lookup, lookup-insert, some,
  subst, sym, ℕ, ◌++◌, ◌∙◌, ◌∷◌, ◌≡◌, ◌⊎◌,
}
use pypipegraph.Registry.Depends.{add_callback, inputs_of}
use pypipegraph.Registry.Graph.{Job, PyPipeGraph}
use pypipegraph.Registry.Invariant.Consistent.{IsConsistent}

module _ (G : Digraph) (outputs_of : String → List String) where
  pub with_callbacks-IsConsistent :
      (self_id : String) (cs : List ℕ) (j : Job) (g : PyPipeGraph G)
      → lookup self_id g.jobs ≡ some j
      → IsConsistent G outputs_of g
      → IsConsistent G outputs_of
          (record g { jobs = insert self_id (record j { dependency_callbacks = cs }) g.jobs })
  unfolding inputs_of
  with_callbacks-IsConsistent self_id cs j g present h =
      let j' : Job = record j { dependency_callbacks = cs } in
      record {
        nodes_are_jobs = λ x.
            ground (arith, h.nodes_are_jobs x, lookup-insert self_id x j' g.jobs, eq_iff self_id x);
        named = λ x k e. elim (replaced x k e) [
          | inl (same, is_new) ↦ ground (arith, h.named self_id j present)
          | inr old ↦ h.named x k old
        ];
        claimed = λ x k o e m. elim (replaced x k e) [
          | inl (same, is_new) ↦
              h.claimed x j o (subst (λ y. lookup y g.jobs ≡ some j) same present) m
          | inr old ↦ h.claimed x k o old m
        ];
        inputs = h.inputs;
        no_return = h.no_return;
        numbered = λ x k e. elim (replaced x k e) [
          | inl (same, is_new) ↦ ground (arith, h.numbered self_id j present)
          | inr old ↦ h.numbered x k old
        ];
        distinct = λ x y k l e f n. elim (replaced x k e) [
          | inl (same, is_new) ↦ elim (replaced y l f) [
            | inl (same', is_new') ↦ sym same ∙ same'
            | inr old' ↦ sym same ∙ h.distinct self_id y j l present old' (ground arith)
          ]
          | inr old ↦ elim (replaced y l f) [
            | inl (same', is_new') ↦ h.distinct x self_id k j old present (ground arith) ∙ same'
            | inr old' ↦ h.distinct x y k l old old' n
          ]
        ];
      }
    where
      replaced :
          (x : String) (k : Job)
          → lookup x (insert self_id (record j { dependency_callbacks = cs }) g.jobs) ≡ some k
          → ((self_id ≡ x) × (k ≡ record j { dependency_callbacks = cs }))
            ⊎ (lookup x g.jobs ≡ some k)
      replaced x k e = ground (
        arith,
        lookup-insert self_id x (record j { dependency_callbacks = cs }) g.jobs,
        eq_iff self_id x,
      )

  pub add_callback-IsConsistent :
      (self_id : String) (callback : ℕ)
      → Keeps (IsConsistent G outputs_of) (add_callback G self_id callback)
  unfolding add_callback
  add_callback-IsConsistent self_id callback g h = elim (Option-cases (lookup self_id g.jobs)) [
    | inr gone ↦ rw (gone, add_callback) h
    | inl (j, present) ↦
        rw (present, add_callback)
          (with_callbacks-IsConsistent self_id (j.dependency_callbacks ++ callback ∷ []) j g present
            h)
  ]
