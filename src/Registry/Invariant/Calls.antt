-- ===== src/Registry/Invariant/Calls.antt =====
-- Job.depends_on, whatever it is given, keeps the invariant.
use pypipegraph.Digraph.{Digraph}
use pypipegraph.Exec.{Keeps, Keeps-bind, raise, return}
use pypipegraph.JobClass.{is_invariant}
use pypipegraph.Prelude.{
  Bool-cases, List, Option-cases, String, [], arith, contains, contains_singleton, has_key, inl,
  inr, lookup, none, some, subst, true, ◌∷◌, ◌≡◌, ◌⊎◌,
}
use pypipegraph.Registry.Depends.{
  Dependencies, Dependency, connect, cons, depends_on, depends_on_all, job_depends_on, nil, on_all,
  on_callback, on_file, on_job, on_job_tuple, on_none,
}
use pypipegraph.Registry.Graph.{GraphError, Job, PyPipeGraph, find_job_from_file, key_error}
use pypipegraph.Registry.Invariant.Callbacks.{add_callback-IsConsistent}
use pypipegraph.Registry.Invariant.Consistent.{AllNamed, EachNamed, IsConsistent, IsNamed}
use pypipegraph.Registry.Invariant.Depending.{connect-IsConsistent}

module _ (G : Digraph) (outputs_of : String → List String) where
  pub find_job_from_file_lem :
      (file : String) (g : PyPipeGraph G)
      → ((e : GraphError) × (find_job_from_file G file g ≡ (raise e, g)))
        ⊎ ((u : String) × (j : Job) × (lookup file g.outputs_to_job_ids ≡ some u)
            × (lookup u g.jobs ≡ some j)
            × (find_job_from_file G file g ≡ (return j, g)))
  unfolding find_job_from_file
  find_job_from_file_lem file g = elim (Option-cases (lookup file g.outputs_to_job_ids)) [
    | inr gone ↦ inl (key_error, rw gone)
    | inl (u, there) ↦ elim (Option-cases (lookup u g.jobs)) [
      | inr gone ↦ inl (key_error, rw (there, gone))
      | inl (j, found) ↦ inr (u, j, there, found, rw (there, found))
    ]
  ]

  on_file-IsConsistent :
      (self_id file : String)
      → Keeps (IsConsistent G outputs_of) (depends_on G self_id (on_file file))
  unfolding depends_on
  on_file-IsConsistent self_id file g h = elim (find_job_from_file_lem file g) [
    | inl (e, stopped) ↦ rw stopped h
    | inr (u, j, there, found, went) ↦ rw went (
        connect-IsConsistent G outputs_of self_id j.job_id (file ∷ []) g
          (λ _ o m. ground (arith, contains_singleton file o m, (h.named u j found).0, there)) h)
  ]

  on_job-IsConsistent :
      (self_id : String) (job : Job)
      → IsNamed outputs_of job
      → Keeps (IsConsistent G outputs_of) (connect G self_id job.job_id job.outputs)
  on_job-IsConsistent self_id job named g h =
      connect-IsConsistent G outputs_of self_id job.job_id job.outputs g
        (λ there o m.
          claimed_by h (Option-cases (lookup job.job_id g.jobs)) there o
            (subst (λ os. contains os o ≡ true) named m))
        h
    where
      claimed_by :
          IsConsistent G outputs_of g
          → ((j : Job) × (lookup job.job_id g.jobs ≡ some j)) ⊎ (lookup job.job_id g.jobs ≡ none)
          → has_key job.job_id g.jobs ≡ true
          → (o : String) → contains (outputs_of job.job_id) o ≡ true
          → lookup o g.outputs_to_job_ids ≡ some job.job_id
      claimed_by h (inl (j, found)) there o m = h.claimed job.job_id j o found m
      claimed_by h (inr gone) there o m = absurd (ground arith)

  mutual
    unfolding depends_on

    pub depends_on-IsConsistent :
        (self_id : String) (d : Dependency)
        → AllNamed outputs_of d
        → Keeps (IsConsistent G outputs_of) (depends_on G self_id d)
    depends_on-IsConsistent self_id (on_job job) named = on_job-IsConsistent self_id job named
    depends_on-IsConsistent self_id on_none named = λ g h. h
    depends_on-IsConsistent self_id (on_file file) named = on_file-IsConsistent self_id file
    depends_on-IsConsistent self_id (on_callback callback) named =
        add_callback-IsConsistent G outputs_of self_id callback
    depends_on-IsConsistent self_id on_job_tuple named = λ g h. h
    depends_on-IsConsistent self_id (on_all ds) named = depends_on_all-IsConsistent self_id ds named

    pub depends_on_all-IsConsistent :
        (self_id : String) (ds : Dependencies)
        → EachNamed outputs_of ds
        → Keeps (IsConsistent G outputs_of) (depends_on_all G self_id ds)
    depends_on_all-IsConsistent self_id nil named = λ g h. h
    depends_on_all-IsConsistent self_id (cons d ds) named =
        Keeps-bind {P = IsConsistent G outputs_of} (depends_on G self_id d)
          (λ _. depends_on_all G self_id ds) (depends_on-IsConsistent self_id d named.0)
          (λ _. depends_on_all-IsConsistent self_id ds named.1)

  pub job_depends_on-IsConsistent :
      (self : Job) (d : Dependency)
      → AllNamed outputs_of d
      → Keeps (IsConsistent G outputs_of) (job_depends_on G self d)
  unfolding job_depends_on
  job_depends_on-IsConsistent self d named g h = elim (Bool-cases (is_invariant self.class)) [
    | inl refuses ↦ rw refuses h
    | inr allows ↦ rw allows (depends_on-IsConsistent self.job_id d named g h)
  ]
