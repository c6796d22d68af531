-- ===== src/Registry/Resolve/Settling.antt =====
-- One pass over the jobs with callables.
use pypipegraph.Digraph.{Digraph}
use pypipegraph.Exec.{Keeps, Result, and_then, raise, return, ◌>>◌}
use pypipegraph.Prelude.{
  Bool-cases, List, Option-cases, String, [], arith, contains, contains_here, eq_iff, if◌then◌else◌,
  inl, inr, keys, lookup, lookup-insert, refl, subst, suc, sym, ℕ, ◌<◌, ◌==◌, ◌||◌, ◌∷◌, ◌≡◌, ◌≤◌,
}
use pypipegraph.Registry.Depends.{Dependency, job_depends_on}
use pypipegraph.Registry.Graph.{GraphError, Job, Method, PyPipeGraph}
use pypipegraph.Registry.Resolve.{
  Callables, ResolveError, Resolving, depend_on_call, graph_raised, lift, lift_outcome, pending,
  recursion_error, reset_callbacks, resolve_job, resolve_jobs, run_callbacks,
}
use pypipegraph.Registry.Resolve.Below.{
  AllBelow, IsBelow, IsBelow-weaken, IsPending, job_depends_on-IsPending,
}

module _ (rank : ℕ → ℕ) (G : Digraph) (call : Callables G) where
  -- What a callable returns and what it registers is of a smaller rank than it is itself.
  pub record IsRanked : Type 0 where
    pub returns_below :
        (c : ℕ) (g g' : PyPipeGraph G) (d : Dependency)
        → call c g ≡ (return d, g')
        → IsBelow rank (rank c) d
    pub registers_below :
        (c : ℕ) (bound : String → ℕ)
        → ((job_id : String) → rank c ≤ bound job_id)
        → Keeps (IsPending rank G bound) (call c)

module _ {G : Digraph} where
  -- It returns with P, or an exception of a callable or of `depends_on` came through.
  abbrev pub Settles :
      (PyPipeGraph G → Type 0) → Result ResolveError (Unit {0}) × PyPipeGraph G → Type 0
  Settles P (return _, g) = P g
  Settles P (raise (graph_raised e), g) = Unit
  Settles P (raise recursion_error, g) = ⊥

  module _ (P Q : PyPipeGraph G → Type 0) where
    pub Settles-bind :
        (m f : Resolving G Unit) (g : PyPipeGraph G)
        → Settles P (m g)
        → ((g' : PyPipeGraph G) → P g' → Settles Q (f g'))
        → Settles Q ((m >> f) g)
    Settles-bind m f g h after = split (m g) h
      where
        split :
            (r : Result ResolveError (Unit {0}) × PyPipeGraph G)
            → Settles P r
            → Settles Q (and_then r.0 (λ _. f) r.1)
        split (return _, g') h = after g' h
        split (raise (graph_raised e), g') h = tt
        split (raise recursion_error, g') h = h

  Settles-lift :
      (P : PyPipeGraph G → Type 0) (m : Method G Unit) (g : PyPipeGraph G)
      → P (m g).1
      → Settles P (lift G m g)
  Settles-lift P m g h = split (m g) h
    where
      split :
          (r : Result GraphError (Unit {0}) × PyPipeGraph G)
          → P r.1
          → Settles P (lift_outcome r.0, r.1)
      split (return _, g') h = h
      split (raise e, g') h = tt

-- In the pass over callables below suc n: what the jobs still in the list have is below suc n.
abbrev pub bound_of : ℕ → List String → String → ℕ
bound_of n ids x = if contains ids x then suc n else n

module _ (rank : ℕ → ℕ) (G : Digraph) (call : Callables G) (ranked : IsRanked rank G call) where
  bound_le : (n : ℕ) (ids : List String) (x : String) → n ≤ bound_of n ids x
  bound_le n ids x = ground arith

  depend_on_call-IsPending :
      (n : ℕ) (ids : List String) (j : Job) (c : ℕ)
      → rank c < suc n
      → Keeps (IsPending rank G (bound_of n ids)) (depend_on_call G call j c)
  unfolding depend_on_call
  depend_on_call-IsPending n ids j c below g h = split (call c g) refl
    where
      low : (x : String) → rank c ≤ bound_of n ids x
      low x = omega (arith, bound_le n ids x)

      split :
          (r : Result GraphError Dependency × PyPipeGraph G)
          → call c g ≡ r
          → IsPending rank G (bound_of n ids) (and_then r.0 (job_depends_on G j) r.1).1
      split (raise e, g') called =
          subst (λ p. IsPending rank G (bound_of n ids) p.1) called
            (ranked.registers_below c (bound_of n ids) low g h)
      split (return d, g') called =
          job_depends_on-IsPending rank G (bound_of n ids) j d
            (IsBelow-weaken rank (rank c) (bound_of n ids j.job_id) d (low j.job_id)
              (ranked.returns_below c g g' d called))
            g'
            (subst (λ p. IsPending rank G (bound_of n ids) p.1) called
              (ranked.registers_below c (bound_of n ids) low g h))

  run_callbacks-Settles :
      (n : ℕ) (ids : List String) (j : Job) (dc : List ℕ) (g : PyPipeGraph G)
      → AllBelow rank (suc n) dc
      → IsPending rank G (bound_of n ids) g
      → Settles (IsPending rank G (bound_of n ids)) (run_callbacks G call j dc g)
  unfolding run_callbacks
  run_callbacks-Settles n ids j [] g below h = h
  run_callbacks-Settles n ids j (c ∷ dc) g below h =
      Settles-bind (IsPending rank G (bound_of n ids)) (IsPending rank G (bound_of n ids))
        (lift G (depend_on_call G call j c)) (run_callbacks G call j dc) g
        (Settles-lift (IsPending rank G (bound_of n ids)) (depend_on_call G call j c) g
          (depend_on_call-IsPending n ids j c below.0 g h))
        (λ g' h'. run_callbacks-Settles n ids j dc g' below.1 h')

  pending-reset :
      (job_id x : String) (g : PyPipeGraph G)
      → pending G x (reset_callbacks G job_id g) ≡ (if job_id == x then [] else pending G x g)
  unfolding pending reset_callbacks
  pending-reset job_id x g = elim (Option-cases (lookup job_id g.jobs)) [
    | inr gone ↦ ground (arith, eq_iff job_id x)
    | inl (j, present) ↦
        let j' : Job = record j { dependency_callbacks = [] } in
        rw (present, reset_callbacks)
          (ground (arith, lookup-insert job_id x j' g.jobs, eq_iff job_id x))
  ]

  reset-IsPending :
      (n : ℕ) (job_id : String) (ids : List String) (g : PyPipeGraph G)
      → IsPending rank G (bound_of n (job_id ∷ ids)) g
      → IsPending rank G (bound_of n ids) (reset_callbacks G job_id g)
  unfolding contains
  reset-IsPending n job_id ids g h x =
      subst (AllBelow rank (bound_of n ids x)) (sym (pending-reset job_id x g))
        (elim (Bool-cases (job_id == x)) [
          | inl same ↦ rw same tt
          | inr other ↦ rw other (
              subst (λ b. AllBelow rank (if b || contains ids x then suc n else n) (pending G x g))
                other (h x))
        ])

  pub resolve_jobs-Settles :
      (n : ℕ) (js : List (String × Job)) (g : PyPipeGraph G)
      → IsPending rank G (bound_of n (keys js)) g
      → Settles (IsPending rank G (bound_of n [])) (resolve_jobs G call js g)
  unfolding resolve_jobs resolve_job keys
  resolve_jobs-Settles n [] g h = h
  resolve_jobs-Settles n ((job_id, j) ∷ js) g h =
      Settles-bind (IsPending rank G (bound_of n (keys js))) (IsPending rank G (bound_of n []))
        (resolve_job G call job_id j) (resolve_jobs G call js) g
        (run_callbacks-Settles n (keys js) j (pending G job_id g) (reset_callbacks G job_id g)
          (subst (λ b. AllBelow rank (if b then suc n else n) (pending G job_id g))
            (contains_here job_id (keys js)) (h job_id))
          (reset-IsPending n job_id (keys js) g h))
        (λ g' h'. resolve_jobs-Settles n js g' h')
