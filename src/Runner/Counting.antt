-- ===== src/Runner/Counting.antt =====
-- runner.py: what one block of a thread does to `jobs_in_flight`, `jobs_all_cores_in_flight` and
-- the list of threads.
-- a - b
use pypipegraph.Prelude.{
  Bool, Bool-cases, List, Option, String, [], ap, arith, eq_iff, false, get_elem?, if◌then◌else◌,
  inl, inr, is_empty, ltb, none, not, refl, some, suc, total, true, zero, ℕ, ◌&&◌, ◌++◌, ◌+◌, ◌<◌,
  ◌==◌, ◌∙◌, ◌∷◌, ◌≡◌, ◌⊎◌,
}
use pypipegraph.Runner.{
  Engine, Runner, Thread, Turn, asleep, between_jobs, busy, clean, cores_of, count_multi, decrement,
  dying, increment, is_multi, job_failed_last_time, left_loop, negsuc, pick, pick_from, pos,
  remove_first, run_over, start_another_thread, take_job, take_with, ℤ,
}
use pypipegraph.Runner.Steps.{after_pick}

unfoldable pub diff : ℕ → ℕ → ℤ
diff a zero = pos a
diff zero (suc b) = negsuc b
diff (suc a) (suc b) = diff a b

pub increment-diff : (a b : ℕ) → increment (diff a b) ≡ diff (suc a) b
unfolding increment diff
increment-diff a zero = refl
increment-diff zero (suc zero) = refl
increment-diff zero (suc (suc b)) = refl
increment-diff (suc a) (suc b) = increment-diff a b

pub decrement-diff : (a b : ℕ) → decrement (diff a b) ≡ diff a (suc b)
unfolding decrement diff
decrement-diff zero zero = refl
decrement-diff (suc a) zero = refl
decrement-diff zero (suc b) = refl
decrement-diff (suc a) (suc b) = decrement-diff a b

unfoldable pub occurrences : String → List String → ℕ
occurrences x [] = 0
occurrences x (y ∷ ys) = (if y == x then 1 else 0) + occurrences x ys

-- Threads that have the job.
abbrev pub holds : String → Thread → ℕ
holds x (busy job_id c failed_last) = if job_id == x then 1 else 0
holds x _ = 0

-- Threads with a job that needs several cores and was not run in vain before.
abbrev pub blocks : Thread → ℕ
blocks (busy job_id c failed_last) = if not failed_last && is_multi c then 1 else 0
blocks _ = 0

occurrences-append :
    (x y : String) (ys : List String)
    → occurrences x (ys ++ y ∷ []) ≡ occurrences x ys + (if y == x then 1 else 0)
unfolding occurrences
occurrences-append x y [] = omega arith
occurrences-append x y (z ∷ ys) = omega (arith, occurrences-append x y ys)

pub occurrences-remove :
    (x y : String) (ys : List String)
    → 0 < occurrences y ys
    → occurrences x (remove_first y ys) + (if y == x then 1 else 0) ≡ occurrences x ys
unfolding occurrences remove_first
occurrences-remove x y [] h = absurd (omega (arith, h))
occurrences-remove x y (z ∷ ys) h = elim (Bool-cases (z == y)) [
  | inl same ↦ ground (arith, eq_iff z y, eq_iff z x, eq_iff y x)
  | inr other ↦ let rest = occurrences-remove x y ys (ground arith) in ground (arith, rest)
]

total-append :
    (w : Thread → ℕ) (ts : List Thread) (t : Thread) → total w (ts ++ t ∷ []) ≡ total w ts + w t
unfolding total
total-append w [] t = omega arith
total-append w (x ∷ ts) t = omega (arith, total-append w ts t)

get_elem?-append :
    (ts : List Thread) (i : ℕ) (s t : Thread)
    → get_elem? ts i ≡ some t
    → get_elem? (ts ++ s ∷ []) i ≡ some t
get_elem?-append [] i s t h = cc
get_elem?-append (x ∷ ts) zero s t h = h
get_elem?-append (x ∷ ts) (suc i) s t h = get_elem?-append ts i s t h

module _ {En : Engine} where
  -- What a block at the head of the loop does to the counts: `t` is what its thread becomes.
  pub record Picked (r : Runner En) (t : Thread) (r' : Runner En) : Type 0 where
    pub flight :
        (x : String) → occurrences x r'.jobs_in_flight ≡ occurrences x r.jobs_in_flight + holds x t
    pub multi :
        (a b : ℕ)
        → r.jobs_all_cores_in_flight ≡ diff a b
        → r'.jobs_all_cores_in_flight ≡ diff (a + blocks t) b
    pub weight :
        (w : Thread → ℕ) → w (between_jobs none) ≡ 0 → total w r'.threads ≡ total w r.threads
    pub places :
        (i : ℕ) (s : Thread) → get_elem? r.threads i ≡ some s → get_elem? r'.threads i ≡ some s

  Picked-same :
      (r : Runner En) (t : Thread) (stopped : Bool) (g : En.Graph)
      → ((x : String) → holds x t ≡ 0)
      → blocks t ≡ 0
      → Picked r t (record r { stopped = stopped; evaluator = g })
  Picked-same r t stopped g free light = record {
    flight = λ x. omega (arith, free x);
    multi = λ a b e. e ∙ ap (λ n. diff n b) (omega (arith, light));
    weight = λ w h. refl;
    places = λ i s h. h;
  }

  count_multi_flight : (r : Runner En) → (count_multi r).jobs_in_flight ≡ r.jobs_in_flight
  unfolding count_multi start_another_thread
  count_multi_flight r = ground arith

  count_multi_raises :
      (r : Runner En)
      → (count_multi r).jobs_all_cores_in_flight ≡ increment r.jobs_all_cores_in_flight
  unfolding count_multi start_another_thread
  count_multi_raises r = ground arith

  count_multi_threads :
      (r : Runner En)
      → ((count_multi r).threads ≡ r.threads)
        ⊎ ((count_multi r).threads ≡ r.threads ++ between_jobs none ∷ [])
  unfolding count_multi start_another_thread
  count_multi_threads r = ground arith

  count_multi_weight :
      (r : Runner En) (w : Thread → ℕ)
      → w (between_jobs none) ≡ 0
      → total w (count_multi r).threads ≡ total w r.threads
  count_multi_weight r w h =
      elim (count_multi_threads r) as (λ _. total w (count_multi r).threads ≡ total w r.threads) [
        | inl t ↦ ap (total w) t
        | inr t ↦ ap (total w) t ∙ omega (arith, total-append w r.threads (between_jobs none), h)
      ]

  count_multi_places :
      (r : Runner En) (i : ℕ) (s : Thread)
      → get_elem? r.threads i ≡ some s
      → get_elem? (count_multi r).threads i ≡ some s
  count_multi_places r i s h =
      elim (count_multi_threads r) as (λ _. get_elem? (count_multi r).threads i ≡ some s) [
        | inl t ↦ ap (λ ts. get_elem? ts i) t ∙ h
        | inr t ↦ ap (λ ts. get_elem? ts i) t ∙ get_elem?-append r.threads i (between_jobs none) s h
      ]

  -- `f` is `r` with the job added to `jobs_in_flight`.
  Picked-single :
      (r f : Runner En) (job_id : String) (c : Option ℕ) (failed_last : Bool)
      → f.jobs_in_flight ≡ r.jobs_in_flight ++ job_id ∷ []
      → f.jobs_all_cores_in_flight ≡ r.jobs_all_cores_in_flight
      → f.threads ≡ r.threads
      → (not failed_last && is_multi c) ≡ false
      → Picked r (busy job_id c failed_last) f
  Picked-single r f job_id c failed_last flight same threads light = record {
    flight = λ x. ap (occurrences x) flight ∙ occurrences-append x job_id r.jobs_in_flight;
    multi = λ a b e. same ∙ e ∙ ap (λ n. diff n b) (ground (arith, light));
    weight = λ w h. ap (total w) threads;
    places = λ i s h. ap (λ ts. get_elem? ts i) threads ∙ h;
  }

  Picked-if :
      (r f : Runner En) (job_id : String) (c : ℕ) (many : Bool)
      → f.jobs_in_flight ≡ r.jobs_in_flight ++ job_id ∷ []
      → f.jobs_all_cores_in_flight ≡ r.jobs_all_cores_in_flight
      → f.threads ≡ r.threads
      → ltb 1 c ≡ many
      → Picked r (busy job_id (some c) false) (if many then count_multi f else f)
  Picked-if r f job_id c false flight same threads light =
      Picked-single r f job_id (some c) false flight same threads light
  Picked-if r f job_id c true flight same threads many = record {
    flight = λ x.
        ap (occurrences x) (count_multi_flight f ∙ flight)
        ∙ occurrences-append x job_id r.jobs_in_flight;
    multi = λ a b e.
        count_multi_raises f
        ∙ ap increment (same ∙ e)
        ∙ increment-diff a b
        ∙ ap (λ n. diff n b) (ground (arith, many));
    weight = λ w h. count_multi_weight f w h ∙ ap (total w) threads;
    places = λ i s h. count_multi_places f i s (ap (λ ts. get_elem? ts i) threads ∙ h);
  }

  Picked-with :
      (r f : Runner En) (job_id : String) (old c : Option ℕ) (failed_last : Bool)
      → f.jobs_in_flight ≡ r.jobs_in_flight ++ job_id ∷ []
      → f.jobs_all_cores_in_flight ≡ r.jobs_all_cores_in_flight
      → f.threads ≡ r.threads
      → let turn = take_with job_id c failed_last f in Picked r (after_pick old turn.0) turn.1
  unfolding after_pick
  Picked-with r f job_id old none failed_last flight same threads =
      Picked-single r f job_id old true flight same threads refl
  Picked-with r f job_id old (some c) true flight same threads =
      Picked-single r f job_id (some c) true flight same threads refl
  Picked-with r f job_id old (some c) false flight same threads =
      Picked-if r f job_id c (ltb 1 c) flight same threads refl

  Picked-none :
      (r : Runner En) (old : Option ℕ) (over nothing : Bool) (g : En.Graph)
      → let turn : Turn × Runner En =
          if over
          then (run_over, record r { stopped = true; evaluator = g })
          else if nothing
          then (dying, record r { evaluator = g })
          else (asleep, record r { evaluator = g }) in
        Picked r (after_pick old turn.0) turn.1
  unfolding after_pick
  Picked-none r old true nothing g = Picked-same r left_loop true g (λ x. refl) refl
  Picked-none r old false true g = Picked-same r left_loop r.stopped g (λ x. refl) refl
  Picked-none r old false false g = Picked-same r (between_jobs old) r.stopped g (λ x. refl) refl

  Picked-from :
      (r : Runner En) (old : Option ℕ) (ready : List String) (g : En.Graph)
      → let turn = pick_from ready (record r { evaluator = g }) in
        Picked r (after_pick old turn.0) turn.1
  Picked-from r old [] g = Picked-none r old (En.is_finished g) (is_empty r.jobs_in_flight) g
  Picked-from r old (job_id ∷ rest) g =
      unfold take_job in
      Picked-with r _ job_id old (cores_of r job_id) (job_failed_last_time r job_id) refl refl refl

  pub Picked-pick :
      (r : Runner En) (old : Option ℕ) → Picked r (after_pick old (pick r).0) (pick r).1
  unfolding pick
  Picked-pick r old =
      let g = clean En (En.jobs_ready_for_cleanup r.evaluator) r.evaluator in
      Picked-from r old (En.jobs_ready_to_run g) g
