-- ===== src/Registry/Invariant/Depending.antt =====
-- Job.depends_on keeps the invariant.
use pypipegraph.Digraph.{Digraph}
use pypipegraph.Exec.{raise, return}
use pypipegraph.Prelude.{
  Bool-cases, List, String, arith, contains, contains-append, eq_iff, false, has_key, inl, inr,
  insert, lookup, lookup-insert, some, subst, true, ◌++◌, ◌==◌, ◌≡◌, ◌≢◌, ◌⊎◌,
}
use pypipegraph.Registry.Depends.{connect, inputs_of}
use pypipegraph.Registry.Graph.{GraphError, PyPipeGraph, has_edge, key_error, not_a_dag}
use pypipegraph.Registry.Invariant.Consistent.{IsConsistent}

inputs_grow :
    (G : Digraph) (self_id x o : String) (o_inputs : List String) (g : PyPipeGraph G)
    → contains
        (inputs_of G x (record g {
          job_inputs = insert self_id (inputs_of G self_id g ++ o_inputs) g.job_inputs;
        }))
        o
      ≡ true
    → (contains (inputs_of G x g) o ≡ true) ⊎ ((self_id ≡ x) × (contains o_inputs o ≡ true))
unfolding inputs_of contains
inputs_grow G self_id x o o_inputs g m = ground (
  arith,
  lookup-insert self_id x (inputs_of G self_id g ++ o_inputs) g.job_inputs,
  contains-append (inputs_of G self_id g) o_inputs o,
  eq_iff self_id x,
)

module _ (G : Digraph) (outputs_of : String → List String) where
  abbrev connected : String → String → List String → PyPipeGraph G → PyPipeGraph G
  connected self_id upstream_id o_inputs g = record g {
    job_dag = G.add_edge upstream_id self_id g.job_dag;
    job_inputs = insert self_id (inputs_of G self_id g ++ o_inputs) g.job_inputs;
  }

  -- It raises and changes nothing, or all its tests passed and the edge and the inputs are there.
  pub connect_cases :
      (self_id upstream_id : String) (o_inputs : List String) (g : PyPipeGraph G)
      → ((e : GraphError) × (connect G self_id upstream_id o_inputs g ≡ (raise e, g)))
        ⊎ ((upstream_id ≢ self_id)
            × (has_edge G self_id upstream_id g ≡ false)
            × (has_key upstream_id g.jobs ≡ true)
            × (has_key self_id g.jobs ≡ true)
            × (connect G self_id upstream_id o_inputs g
                ≡ (return tt, connected self_id upstream_id o_inputs g)))
  unfolding connect inputs_of
  connect_cases self_id upstream_id o_inputs g = elim (Bool-cases (upstream_id == self_id)) [
    | inl same ↦ inl (not_a_dag, rw same)
    | inr differs ↦ elim (Bool-cases (has_edge G self_id upstream_id g)) [
      | inl back ↦ inl (not_a_dag, rw (differs, back))
      | inr forth ↦ elim (Bool-cases (has_key upstream_id g.jobs)) [
        | inr gone ↦ inl (key_error, rw (differs, forth, gone))
        | inl there ↦ elim (Bool-cases (has_key self_id g.jobs)) [
          | inr gone ↦ inl (key_error, rw (differs, forth, there, gone))
          | inl here_too ↦ inr (
            ground (arith, eq_iff upstream_id self_id),
            forth,
            there,
            here_too,
            rw (differs, forth, there, here_too),
          )
        ]
      ]
    ]
  ]

  connected-IsConsistent :
      (self_id upstream_id : String) (o_inputs : List String) (g : PyPipeGraph G)
      → upstream_id ≢ self_id
      → has_edge G self_id upstream_id g ≡ false
      → has_key upstream_id g.jobs ≡ true
      → has_key self_id g.jobs ≡ true
      → ((o : String)
          → contains o_inputs o ≡ true
          → lookup o g.outputs_to_job_ids ≡ some upstream_id)
      → IsConsistent G outputs_of g
      → IsConsistent G outputs_of (connected self_id upstream_id o_inputs g)
  unfolding has_edge inputs_of
  connected-IsConsistent self_id upstream_id o_inputs g differs forth up_there self_there known h =
      record {
        nodes_are_jobs = λ x. ground (
          arith,
          h.nodes_are_jobs x,
          G.nodes-add_edge upstream_id self_id x g.job_dag,
          eq_iff upstream_id x,
          eq_iff self_id x,
        );
        named = h.named;
        claimed = h.claimed;
        inputs = connected_inputs;
        no_return = λ u v e. ground (
          arith,
          h.no_return u v,
          G.has_edge-add_edge upstream_id self_id u v g.job_dag,
          G.has_edge-add_edge upstream_id self_id v u g.job_dag,
          eq_iff upstream_id u,
          eq_iff upstream_id v,
          eq_iff self_id u,
          eq_iff self_id v,
        );
        numbered = h.numbered;
        distinct = h.distinct;
      }
    where
      old_edge :
          (u x : String)
          → G.has_edge g.job_dag u x ≡ true
          → G.has_edge (G.add_edge upstream_id self_id g.job_dag) u x ≡ true
      old_edge u x e = ground (arith, G.has_edge-add_edge upstream_id self_id u x g.job_dag)

      new_edge : G.has_edge (G.add_edge upstream_id self_id g.job_dag) upstream_id self_id ≡ true
      new_edge = ground (
        arith,
        G.has_edge-add_edge upstream_id self_id upstream_id self_id g.job_dag,
        eq_iff upstream_id upstream_id,
        eq_iff self_id self_id,
      )

      new_inputs :
          (x o : String)
          → contains (inputs_of G x (connected self_id upstream_id o_inputs g)) o ≡ true
          → (contains (inputs_of G x g) o ≡ true) ⊎ ((self_id ≡ x) × (contains o_inputs o ≡ true))
      new_inputs x o m = inputs_grow G self_id x o o_inputs g m

      connected_inputs :
          (x o : String)
          → contains (inputs_of G x (connected self_id upstream_id o_inputs g)) o ≡ true
          → (u : String) × (lookup o g.outputs_to_job_ids ≡ some u)
            × (G.has_edge (G.add_edge upstream_id self_id g.job_dag) u x ≡ true)
      connected_inputs x o m = elim (new_inputs x o m) [
        | inl old ↦ let (u, t, e) = h.inputs x o old in (u, t, old_edge u x e)
        | inr (same, fresh) ↦ (
          upstream_id,
          known o fresh,
          subst (λ y. G.has_edge (G.add_edge upstream_id self_id g.job_dag) upstream_id y ≡ true)
              same new_edge,
        )
      ]

  pub connect-IsConsistent :
      (self_id upstream_id : String) (o_inputs : List String) (g : PyPipeGraph G)
      → (has_key upstream_id g.jobs ≡ true
          → (o : String) → contains o_inputs o ≡ true
          → lookup o g.outputs_to_job_ids ≡ some upstream_id)
      → IsConsistent G outputs_of g
      → IsConsistent G outputs_of (connect G self_id upstream_id o_inputs g).1
  connect-IsConsistent self_id upstream_id o_inputs g known h =
      elim (connect_cases self_id upstream_id o_inputs g) [
        | inl (e, stopped) ↦ rw stopped h
        | inr (differs, forth, up_there, self_there, went) ↦ rw went (
            connected-IsConsistent self_id upstream_id o_inputs g differs forth up_there self_there
              (known up_there) h)
      ]
