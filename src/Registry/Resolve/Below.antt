-- ===== src/Registry/Resolve/Below.antt =====
-- Ranks of the pending callables, and what `depends_on` does to them.
use pypipegraph.Digraph.{Digraph}
use pypipegraph.Exec.{Keeps, Keeps-bind}
use pypipegraph.JobClass.{is_invariant}
use pypipegraph.Prelude.{
  Bool-cases, List, Option-cases, String, [], arith, eq_iff, inl, inr, insert, lookup,
  lookup-insert, refl, some, subst, sym, true, ℕ, ◌++◌, ◌<◌, ◌==◌, ◌∷◌, ◌≡◌, ◌≤◌, ◌⊎◌,
}
use pypipegraph.Registry.Depends.{
  Dependencies, Dependency, add_callback, connect, cons, depends_on, depends_on_all, job_depends_on,
  nil, on_all, on_callback, on_file, on_job, on_job_tuple, on_none,
}
use pypipegraph.Registry.Graph.{Job, PyPipeGraph}
use pypipegraph.Registry.Invariant.Calls.{find_job_from_file_lem}
use pypipegraph.Registry.Invariant.Depending.{connect_cases}
use pypipegraph.Registry.Resolve.{pending, pending_of}

module _ (rank : ℕ → ℕ) where
  abbrev pub AllBelow : ℕ → List ℕ → Type 0
  AllBelow b [] = Unit
  AllBelow b (c ∷ cs) = (rank c < b) × AllBelow b cs

  -- Each callable that a dependency mentions is below b.
  abbrev mutual
    pub IsBelow : ℕ → Dependency → Type 0
    IsBelow b (on_callback callback) = rank callback < b
    IsBelow b (on_all ds) = EachBelow b ds
    IsBelow b _ = Unit

    pub EachBelow : ℕ → Dependencies → Type 0
    EachBelow b nil = Unit
    EachBelow b (cons d ds) = IsBelow b d × EachBelow b ds

  AllBelow-append :
      (b : ℕ) (cs : List ℕ) (c : ℕ) → AllBelow b cs → rank c < b → AllBelow b (cs ++ c ∷ [])
  AllBelow-append b [] c h l = (l, tt)
  AllBelow-append b (x ∷ cs) c h l = (h.0, AllBelow-append b cs c h.1 l)

  mutual
    pub IsBelow-weaken : (b b' : ℕ) (d : Dependency) → b ≤ b' → IsBelow b d → IsBelow b' d
    IsBelow-weaken b b' (on_callback callback) le h = omega arith
    IsBelow-weaken b b' (on_all ds) le h = EachBelow-weaken b b' ds le h
    IsBelow-weaken b b' (on_job job) le h = tt
    IsBelow-weaken b b' on_none le h = tt
    IsBelow-weaken b b' (on_file file) le h = tt
    IsBelow-weaken b b' on_job_tuple le h = tt

    EachBelow-weaken : (b b' : ℕ) (ds : Dependencies) → b ≤ b' → EachBelow b ds → EachBelow b' ds
    EachBelow-weaken b b' nil le h = tt
    EachBelow-weaken b b' (cons d ds) le h =
        (IsBelow-weaken b b' d le h.0, EachBelow-weaken b b' ds le h.1)

  module _ (G : Digraph) where
    -- What each job still has to ask is below the bound of that job.
    abbrev pub IsPending : (String → ℕ) → PyPipeGraph G → Type 0
    IsPending bound g = (job_id : String) → AllBelow (bound job_id) (pending G job_id g)

    pending-add_callback :
        (self_id job_id : String) (c : ℕ) (g : PyPipeGraph G)
        → (pending G job_id (add_callback G self_id c g).1 ≡ pending G job_id g)
          ⊎ ((self_id ≡ job_id)
              × (pending G job_id (add_callback G self_id c g).1 ≡ pending G job_id g ++ c ∷ []))
    unfolding add_callback pending
    pending-add_callback self_id job_id c g = elim (Option-cases (lookup self_id g.jobs)) [
      | inr gone ↦ inl (rw (gone, add_callback) refl)
      | inl (j, present) ↦
          let j' : Job = record j { dependency_callbacks = j.dependency_callbacks ++ c ∷ [] } in
          elim (Bool-cases (self_id == job_id)) [
            | inl same ↦ inr (
              (eq_iff self_id job_id).0 same,
              rw (present, add_callback) (at_self j j' present same refl),
            )
            | inr other ↦ inl (
                rw (present, add_callback)
                  (rw (lookup-insert self_id job_id j' g.jobs, other) refl))
          ]
    ]
      where
        at_self :
            (j j' : Job)
            → lookup self_id g.jobs ≡ some j
            → (self_id == job_id) ≡ true
            → j'.dependency_callbacks ≡ j.dependency_callbacks ++ c ∷ []
            → pending_of (lookup job_id (insert self_id j' g.jobs))
              ≡ pending_of (lookup job_id g.jobs) ++ c ∷ []
        at_self j j' present same e =
            rw (lookup-insert self_id job_id j' g.jobs, same)
              (subst (λ x. j'.dependency_callbacks ≡ pending_of (lookup x g.jobs) ++ c ∷ [])
                ((eq_iff self_id job_id).0 same) (rw present e))

    add_callback-IsPending :
        (bound : String → ℕ) (self_id : String) (c : ℕ)
        → rank c < bound self_id
        → Keeps (IsPending bound) (add_callback G self_id c)
    add_callback-IsPending bound self_id c below g h job_id =
        elim (pending-add_callback self_id job_id c g) [
          | inl same ↦ subst (AllBelow (bound job_id)) (sym same) (h job_id)
          | inr (same, longer) ↦ subst (AllBelow (bound job_id)) (sym longer) (
              AllBelow-append (bound job_id) (pending G job_id g) c (h job_id)
                (subst (λ x. rank c < bound x) same below))
        ]

    same_jobs-IsPending :
        (bound : String → ℕ) (g g' : PyPipeGraph G)
        → g'.jobs ≡ g.jobs
        → IsPending bound g
        → IsPending bound g'
    unfolding pending
    same_jobs-IsPending bound g g' same h job_id =
        subst (λ jobs. AllBelow (bound job_id) (pending_of (lookup job_id jobs))) (sym same)
          (h job_id)

    connect-IsPending :
        (bound : String → ℕ) (self_id upstream_id : String) (o_inputs : List String)
        → Keeps (IsPending bound) (connect G self_id upstream_id o_inputs)
    connect-IsPending bound self_id upstream_id o_inputs g h =
        elim (connect_cases G (λ _. []) self_id upstream_id o_inputs g) [
          | inl (e, stopped) ↦ rw stopped h
          | inr (_, _, _, _, went) ↦ rw went (same_jobs-IsPending bound g _ refl h)
        ]

    mutual
      unfolding depends_on

      depends_on-IsPending :
          (bound : String → ℕ) (self_id : String) (d : Dependency)
          → IsBelow (bound self_id) d
          → Keeps (IsPending bound) (depends_on G self_id d)
      depends_on-IsPending bound self_id (on_job job) below =
          connect-IsPending bound self_id job.job_id job.outputs
      depends_on-IsPending bound self_id on_none below = λ g h. h
      depends_on-IsPending bound self_id (on_file file) below = λ g h.
          elim (find_job_from_file_lem G (λ _. []) file g) [
            | inl (e, stopped) ↦ rw stopped h
            | inr (u, j, _, _, went) ↦
                rw went (connect-IsPending bound self_id j.job_id (file ∷ []) g h)
          ]
      depends_on-IsPending bound self_id (on_callback callback) below =
          add_callback-IsPending bound self_id callback below
      depends_on-IsPending bound self_id on_job_tuple below = λ g h. h
      depends_on-IsPending bound self_id (on_all ds) below =
          depends_on_all-IsPending bound self_id ds below

      depends_on_all-IsPending :
          (bound : String → ℕ) (self_id : String) (ds : Dependencies)
          → EachBelow (bound self_id) ds
          → Keeps (IsPending bound) (depends_on_all G self_id ds)
      depends_on_all-IsPending bound self_id nil below = λ g h. h
      depends_on_all-IsPending bound self_id (cons d ds) below =
          Keeps-bind {P = IsPending bound} (depends_on G self_id d)
            (λ _. depends_on_all G self_id ds) (depends_on-IsPending bound self_id d below.0)
            (λ _. depends_on_all-IsPending bound self_id ds below.1)

    pub job_depends_on-IsPending :
        (bound : String → ℕ) (self : Job) (d : Dependency)
        → IsBelow (bound self.job_id) d
        → Keeps (IsPending bound) (job_depends_on G self d)
    unfolding job_depends_on
    job_depends_on-IsPending bound self d below g h = elim (Bool-cases (is_invariant self.class)) [
      | inl refuses ↦ rw refuses h
      | inr allows ↦ rw allows (depends_on-IsPending bound self.job_id d below g h)
    ]
