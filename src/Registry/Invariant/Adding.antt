-- ===== src/Registry/Invariant/Adding.antt =====
-- PyPipeGraph.add keeps the invariant, whether or not an output is taken already.
use pypipegraph.Digraph.{Digraph}
use pypipegraph.Exec.{Keeps, Result, and_then, modify, raise, return}
use pypipegraph.Prelude.{
  Bool-cases, List, Option-cases, String, [], ap, arith, contains, contains-cons_cases, eq_iff,
  has_key, inl, inr, insert, lookup, lookup-insert, none, refl, some, subst, sym, true, ◌+◌, ◌==◌,
  ◌∙◌, ◌∷◌, ◌≡◌, ◌⊎◌,
}
use pypipegraph.Registry.Depends.{inputs_of}
use pypipegraph.Registry.Graph.{
  GraphError, Job, PyPipeGraph, add_job, claim_output, claim_outputs, job_output_conflict,
  key_error,
}
use pypipegraph.Registry.Invariant.Consistent.{IsConsistent, IsNamed}

module _ (G : Digraph) (outputs_of : String → List String) where
  -- What `claim_outputs` may do to the table, and what it does to all of it if it returns.
  record Claims (job_id : String) (outs : List String) (g : PyPipeGraph G)
      (r : Result GraphError (Unit {0})) (g' : PyPipeGraph G) : Type 0 where
    jobs_kept : g'.jobs ≡ g.jobs
    dag_kept : g'.job_dag ≡ g.job_dag
    inputs_kept : g'.job_inputs ≡ g.job_inputs
    number_kept : g'.next_job_number ≡ g.next_job_number
    extends :
        (o u : String)
        → lookup o g.outputs_to_job_ids ≡ some u
        → lookup o g'.outputs_to_job_ids ≡ some u
    claims :
        r ≡ return tt
        → (o : String) → contains outs o ≡ true
        → lookup o g'.outputs_to_job_ids ≡ some job_id

  table-grows :
      (job_id out o u : String) (g : PyPipeGraph G)
      → lookup out g.outputs_to_job_ids ≡ none ⊎ (lookup out g.outputs_to_job_ids ≡ some job_id)
      → lookup o g.outputs_to_job_ids ≡ some u
      → lookup o (insert out job_id g.outputs_to_job_ids) ≡ some u
  table-grows job_id out o u g free h =
      ground (arith, lookup-insert out o job_id g.outputs_to_job_ids, eq_iff out o)

  Claims-stop :
      (job_id : String) (outs : List String) (g : PyPipeGraph G) (e : GraphError)
      → Claims job_id outs g (raise e) g
  Claims-stop job_id outs g e = record {
    jobs_kept = refl;
    dag_kept = refl;
    inputs_kept = refl;
    number_kept = refl;
    extends = λ o u h. h;
    claims = λ h. cc;
  }

  abbrev claimed_once : String → String → PyPipeGraph G → PyPipeGraph G
  claimed_once job_id out g = record g {
    outputs_to_job_ids = insert out job_id g.outputs_to_job_ids;
  }

  claim_output_cases :
      (job_id out : String) (g : PyPipeGraph G)
      → ((lookup out g.outputs_to_job_ids ≡ none ⊎ (lookup out g.outputs_to_job_ids ≡ some job_id))
          × (claim_output G job_id out g ≡ (return tt, claimed_once job_id out g)))
        ⊎ ((e : GraphError) × (claim_output G job_id out g ≡ (raise e, g)))
  unfolding claim_output
  claim_output_cases job_id out g = elim (Option-cases (lookup out g.outputs_to_job_ids)) [
    | inr free ↦ inl (inl free, ground arith)
    | inl (other, taken) ↦ elim (Bool-cases (other == job_id)) [
      | inl same ↦ inl (inr (taken ∙ ap some ((eq_iff other job_id).0 same)), ground arith)
      | inr differs ↦ elim (Bool-cases (has_key other g.jobs)) [
        | inl there ↦ inr (job_output_conflict, ground arith)
        | inr gone ↦ inr (key_error, ground arith)
      ]
    ]
  ]

  claim_outputs-Claims :
      (job_id : String) (outs : List String) (g : PyPipeGraph G)
      → Claims job_id outs g (claim_outputs G job_id outs g).0 (claim_outputs G job_id outs g).1
  unfolding claim_outputs
  claim_outputs-Claims job_id [] g = record {
    jobs_kept = refl;
    dag_kept = refl;
    inputs_kept = refl;
    number_kept = refl;
    extends = λ o u h. h;
    claims = λ _ o h. unfold contains in cc;
  }
  claim_outputs-Claims job_id (out ∷ outs) g = elim (claim_output_cases job_id out g) [
    | inr (e, stopped) ↦ rw stopped (Claims-stop job_id (out ∷ outs) g e)
    | inl (free, went) ↦
        let rest = claim_outputs-Claims job_id outs (claimed_once job_id out g) in
        rw went (record {
          jobs_kept = rest.jobs_kept;
          dag_kept = rest.dag_kept;
          inputs_kept = rest.inputs_kept;
          number_kept = rest.number_kept;
          extends = λ o u h. rest.extends o u (table-grows job_id out o u g free h);
          claims = λ ok o h. elim (contains-cons_cases out o outs h) [
            | inr later ↦ rest.claims ok o later
            | inl this ↦ rest.extends o job_id (
                subst (λ x. lookup x (insert out job_id g.outputs_to_job_ids) ≡ some job_id) this
                  (ground
                    (arith, lookup-insert out out job_id g.outputs_to_job_ids, eq_iff out out)))
          ];
        })
  ]

  -- A wider table of outputs keeps everything.
  Claims-IsConsistent :
      (job_id : String) (outs : List String) (g g' : PyPipeGraph G)
      (r : Result GraphError (Unit {0}))
      → Claims job_id outs g r g'
      → IsConsistent G outputs_of g
      → IsConsistent G outputs_of g'
  unfolding inputs_of
  Claims-IsConsistent job_id outs g g' r c h = record {
    nodes_are_jobs = λ x. rw (c.dag_kept, c.jobs_kept) (h.nodes_are_jobs x);
    named = λ x j e. h.named x j (rw c.jobs_kept at e);
    claimed = λ x j o e m. c.extends o x (h.claimed x j o (rw c.jobs_kept at e) m);
    inputs = λ x o m.
        let (u, t, e) = h.inputs x o (rw c.inputs_kept at m) in
        (u, c.extends o u t, rw c.dag_kept e);
    no_return = λ u v e. rw c.dag_kept (h.no_return u v (rw c.dag_kept at e));
    numbered = λ x j e. rw c.number_kept (h.numbered x j (rw c.jobs_kept at e));
    distinct = λ x y j k e f. h.distinct x y j k (rw c.jobs_kept at e) (rw c.jobs_kept at f);
  }

  -- What `add` does once all outputs are claimed.
  abbrev added : Job → PyPipeGraph G → PyPipeGraph G
  added job g = record g {
    jobs = insert job.job_id (record job { job_number = g.next_job_number }) g.jobs;
    next_job_number = g.next_job_number + 1;
    job_dag = G.add_node job.job_id g.job_dag;
  }

  added-IsConsistent :
      (job : Job) (g : PyPipeGraph G)
      → IsNamed outputs_of job
      → ((o : String)
          → contains job.outputs o ≡ true
          → lookup o g.outputs_to_job_ids ≡ some job.job_id)
      → IsConsistent G outputs_of g
      → IsConsistent G outputs_of (added job g)
  unfolding inputs_of
  added-IsConsistent job g is_named claims h = record {
    nodes_are_jobs = λ x. ground (
      arith,
      h.nodes_are_jobs x,
      G.nodes-add_node job.job_id x g.job_dag,
      lookup-insert job.job_id x (record job { job_number = g.next_job_number }) g.jobs,
    );
    named = λ x j e. elim (insert_cases x j e) [
      | inl (same, is_new) ↦ ground (arith, is_named)
      | inr old ↦ h.named x j old
    ];
    claimed = λ x j o e m. elim (insert_cases x j e) [
      | inl (same, is_new) ↦ ground (arith, claims o)
      | inr old ↦ h.claimed x j o old m
    ];
    inputs = λ x o m.
        let (u, t, e) = h.inputs x o m in (u, t, G.has_edge-add_node job.job_id u x g.job_dag ∙ e);
    no_return = λ u v e. ground (
      arith,
      h.no_return u v,
      G.has_edge-add_node job.job_id u v g.job_dag,
      G.has_edge-add_node job.job_id v u g.job_dag,
    );
    numbered = λ x j e. elim (insert_cases x j e) [
      | inl (same, is_new) ↦ ground arith
      | inr old ↦ omega (arith, h.numbered x j old)
    ];
    distinct = λ x y j k e f n. elim (insert_cases x j e) [
      | inl (same, is_new) ↦ elim (insert_cases y k f) [
        | inl (same', is_new') ↦ sym same ∙ same'
        | inr old' ↦ absurd (ground (arith, h.numbered y k old'))
      ]
      | inr old ↦ elim (insert_cases y k f) [
        | inl (same', is_new') ↦ absurd (ground (arith, h.numbered x j old))
        | inr old' ↦ h.distinct x y j k old old' n
      ]
    ];
  }
    where
      insert_cases :
          (x : String) (j : Job)
          → lookup x (insert job.job_id (record job { job_number = g.next_job_number }) g.jobs)
            ≡ some j
          → ((job.job_id ≡ x) × (j ≡ record job { job_number = g.next_job_number }))
            ⊎ (lookup x g.jobs ≡ some j)
      insert_cases x j e = ground (
        arith,
        lookup-insert job.job_id x (record job { job_number = g.next_job_number }) g.jobs,
        eq_iff job.job_id x,
      )

  after-Claims :
      (job : Job) (g g' : PyPipeGraph G) (r : Result GraphError (Unit {0}))
      → IsNamed outputs_of job
      → Claims job.job_id job.outputs g r g'
      → IsConsistent G outputs_of g
      → IsConsistent G outputs_of (and_then r (λ _. modify (added job)) g').1
  after-Claims job g g' (return tt) is_named c h =
      added-IsConsistent job g' is_named (c.claims refl)
        (Claims-IsConsistent job.job_id job.outputs g g' (return tt) c h)
  after-Claims job g g' (raise e) is_named c h =
      Claims-IsConsistent job.job_id job.outputs g g' (raise e) c h

  pub add_job-IsConsistent :
      (job : Job) → IsNamed outputs_of job → Keeps (IsConsistent G outputs_of) (add_job G job)
  unfolding add_job
  add_job-IsConsistent job is_named g h =
      let (r, g') = claim_outputs G job.job_id job.outputs g in
      after-Claims job g g' r is_named (claim_outputs-Claims job.job_id job.outputs g) h
