-- ===== src/Registry/Resolve/Termination.antt =====
-- The passes over the jobs with callables come to an end.
use pypipegraph.Digraph.{Digraph}
use pypipegraph.Digraph.Edges.{depth}
use pypipegraph.Exec.{Result, raise, return}
use pypipegraph.Prelude.{
  Bool-cases, Dict, List, Option-cases, String, [], arith, contains, contains-keys, eq_iff, false,
  inl, inr, is_empty, keys, lookup, refl, suc, true, zero, ℕ, ◌<◌, ◌∷◌, ◌≡◌, ◌≢◌,
}
use pypipegraph.Registry.Graph.{Job, PyPipeGraph}
use pypipegraph.Registry.Resolve.{
  Callables, ResolveError, graph_raised, pending, pending_of, recursion_error,
  resolve_dependency_callbacks, resolve_jobs, with_callback,
}
use pypipegraph.Registry.Resolve.Below.{AllBelow, IsPending}
use pypipegraph.Registry.Resolve.Settling.{
  IsRanked, Settles, Settles-bind, bound_of, resolve_jobs-Settles,
}

module _ (rank : ℕ → ℕ) (G : Digraph) (call : Callables G) (ranked : IsRanked rank G call) where
  is_empty_nil : (cs : List ℕ) → is_empty cs ≡ true → cs ≡ []
  is_empty_nil [] h = refl
  is_empty_nil (c ∷ cs) h = absurd (ground arith)

  with_callback_none :
      (ids : List String) (jobs : Dict Job) (x : String)
      → contains ids x ≡ true
      → contains (keys (with_callback G ids jobs)) x ≡ false
      → pending_of (lookup x jobs) ≡ []
  unfolding with_callback contains keys
  with_callback_none [] jobs x m h = cc
  with_callback_none (job_id ∷ ids) jobs x m h = elim (Option-cases (lookup job_id jobs)) [
    | inr gone ↦ ground (arith, with_callback_none ids jobs x, eq_iff job_id x)
    | inl (j, present) ↦
        ground (
          arith,
          with_callback_none ids jobs x,
          is_empty_nil j.dependency_callbacks,
          eq_iff job_id x,
        )
  ]

  none_pending :
      (g : PyPipeGraph G) (x : String)
      → contains (keys (with_callback G (keys g.jobs) g.jobs)) x ≡ false
      → pending G x g ≡ []
  unfolding pending
  none_pending g x h = elim (Option-cases (lookup x g.jobs)) [
    | inr gone ↦ rw gone refl
    | inl (j, present) ↦
        with_callback_none (keys g.jobs) g.jobs x (ground (arith, contains-keys x g.jobs)) h
  ]

  with_callback_all :
      (ids : List String) (jobs : Dict Job)
      → ((x : String) → pending_of (lookup x jobs) ≡ [])
      → with_callback G ids jobs ≡ []
  unfolding with_callback
  with_callback_all [] jobs h = refl
  with_callback_all (job_id ∷ ids) jobs h =
      ground (arith, with_callback_all ids jobs h, h job_id, Option-cases (lookup job_id jobs))

  no_keys :
      (js : List (String × Job)) (x : String) → is_empty js ≡ true → contains (keys js) x ≡ false
  unfolding contains keys
  no_keys [] x h = refl
  no_keys (j ∷ js) x h = absurd (ground arith)

  below_zero : (cs : List ℕ) → AllBelow rank zero cs → cs ≡ []
  below_zero [] h = refl
  below_zero (c ∷ cs) h = absurd (omega (arith, h.0))

  none_below_zero :
      (g : PyPipeGraph G)
      → IsPending rank G (λ _. zero) g
      → is_empty (with_callback G (keys g.jobs) g.jobs) ≡ true
  unfolding pending
  none_below_zero g h =
      rw (with_callback_all (keys g.jobs) g.jobs (λ x. below_zero (pending G x g) (h x))) refl

  before_pass :
      (n : ℕ) (g : PyPipeGraph G)
      → IsPending rank G (λ _. suc n) g
      → IsPending rank G (bound_of n (keys (with_callback G (keys g.jobs) g.jobs))) g
  before_pass n g h x =
      elim (Bool-cases (contains (keys (with_callback G (keys g.jobs) g.jobs)) x)) [
        | inl listed ↦ rw listed (h x)
        | inr unlisted ↦ rw (unlisted, none_pending g x unlisted) tt
      ]

  -- All callables that the jobs have are below n.
  pub resolve-Settles :
      (n depth : ℕ) (g : PyPipeGraph G)
      → n < depth
      → IsPending rank G (λ _. n) g
      → Settles
          (λ g'. (x : String) → pending G x g' ≡ [])
          (resolve_dependency_callbacks G call depth g)
  unfolding resolve_dependency_callbacks contains
  resolve-Settles n zero g enough h = absurd (omega arith)
  resolve-Settles zero (suc depth) g enough h = rw (none_below_zero g h) (λ x.
      none_pending g x (no_keys (with_callback G (keys g.jobs) g.jobs) x (none_below_zero g h)))
  resolve-Settles (suc n) (suc depth) g enough h =
      elim (Bool-cases (is_empty (with_callback G (keys g.jobs) g.jobs))) [
        | inl finished_now ↦
            rw finished_now (λ x.
              none_pending g x (no_keys (with_callback G (keys g.jobs) g.jobs) x finished_now))
        | inr more ↦ rw more (
            Settles-bind (IsPending rank G (bound_of n []))
              (λ g'. (x : String) → pending G x g' ≡ [])
              (resolve_jobs G call (with_callback G (keys g.jobs) g.jobs))
              (resolve_dependency_callbacks G call depth) g
              (resolve_jobs-Settles rank G call ranked n (with_callback G (keys g.jobs) g.jobs) g
                (before_pass n g h))
              (λ g' h'. resolve-Settles n depth g' (omega arith) h'))
      ]

  -- The callables that `depends_on` was given are all resolved: where every callable only
  -- returns and registers callables of a smaller rank, and those that the jobs have at the
  -- start are below n, a recursion depth of more than n is enough. No RecursionError comes, and
  -- when the call returns, no job has a callable left to ask.
  pub callbacks_resolved :
      (n depth : ℕ) (g : PyPipeGraph G)
      → n < depth
      → IsPending rank G (λ _. n) g
      → ((resolve_dependency_callbacks G call depth g).0 ≢ raise recursion_error)
        × ((resolve_dependency_callbacks G call depth g).0 ≡ return tt
            → (x : String) → pending G x (resolve_dependency_callbacks G call depth g).1 ≡ [])
  callbacks_resolved n depth g enough h =
      split (resolve_dependency_callbacks G call depth g) (resolve-Settles n depth g enough h)
    where
      split :
          (r : Result ResolveError (Unit {0}) × PyPipeGraph G)
          → Settles (λ g'. (x : String) → pending G x g' ≡ []) r
          → (r.0 ≢ raise recursion_error) × (r.0 ≡ return tt → (x : String) → pending G x r.1 ≡ [])
      split (return _, g') h = (λ e. absurd (ground arith), λ _. h)
      split (raise (graph_raised e), g') h =
          (λ e. absurd (ground arith), λ e. absurd (ground arith))
      split (raise recursion_error, g') h = absurd h
