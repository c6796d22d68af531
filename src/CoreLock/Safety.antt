-- ===== src/CoreLock/Safety.antt =====
-- parallel.py, CoreLock: what holds in every state that any number of threads can reach.
use pypipegraph.CoreLock.{At, Phase, Reach, System, give_back, holding, outside, start}
use pypipegraph.CoreLock.Invariant.{IsAdmitted, IsSound, Reach-IsSound, held, held-le}
use pypipegraph.Prelude.{
  List, [], ap, arith, get_elem?, none, refl, some, subst, suc, total, zero, ℕ, ◌+◌, ◌<◌, ◌∷◌, ◌≡◌,
  ◌≢◌, ◌≤◌,
}

-- The threads before any of them asks for cores.
abbrev pub idle : ℕ → List Phase
idle zero = []
idle (suc n) = outside ∷ idle n

total-idle : (n : ℕ) → total held (idle n) ≡ 0
unfolding total
total-idle zero = refl
total-idle (suc n) = omega (arith, total-idle n)

At-idle : (n i : ℕ) (p : Phase) → get_elem? (idle n) i ≡ some p → outside ≡ p
At-idle zero i p h = cc
At-idle (suc n) zero p h = ground arith
At-idle (suc n) (suc i) p h = At-idle n i p h

pub start-IsSound : (max n : ℕ) → IsSound max (start max (idle n))
start-IsSound max n = record {
  fixed = refl;
  conserved = omega (arith, total-idle n);
  admitted = λ i p h. subst (IsAdmitted max) (At-idle n i p h) tt;
}

-- However the threads interleave, the cores left in the lock and the cores that threads hold
-- add up to `max_cores`.
pub cores_conserved :
    (max n : ℕ) (s : System)
    → Reach (start max (idle n)) s
    → s.lock.remaining + total held s.threads ≡ max
cores_conserved max n s r = (Reach-IsSound (start-IsSound max n) r).conserved

one_held : (ps : List Phase) (j : ℕ) (q : Phase) → get_elem? ps j ≡ some q → held q ≤ total held ps
unfolding total
one_held [] j q h = cc
one_held (y ∷ ps) zero q h = ground arith
one_held (y ∷ ps) (suc j) q h = omega (arith, one_held ps j q h)

two_held :
    (ps : List Phase) (i j : ℕ) (p q : Phase)
    → i ≢ j
    → get_elem? ps i ≡ some p
    → get_elem? ps j ≡ some q
    → held p + held q ≤ total held ps
unfolding total
two_held [] i j p q ne hi hj = cc
two_held (x ∷ ps) zero zero p q ne hi hj = absurd (ne refl)
two_held (x ∷ ps) zero (suc j) p q ne hi hj = ground (arith, one_held ps j q)
two_held (x ∷ ps) (suc i) zero p q ne hi hj = ground (arith, one_held ps i p)
two_held (x ∷ ps) (suc i) (suc j) p q ne hi hj =
    omega (arith, two_held ps i j p q (λ e. ne (ap suc e)) hi hj)

-- Two different threads that are inside `with lock.using(...)` at once never hold more than
-- `max_cores` together, and each holds at least one core.
two_holders_fit :
    (max n : ℕ) (s : System) (i j c d : ℕ)
    → Reach (start max (idle n)) s
    → i ≢ j
    → At s i (holding c)
    → At s j (holding d)
    → (c + d ≤ max) × (0 < c) × (0 < d)
two_holders_fit max n s i j c d r ne hi hj =
    let sound = Reach-IsSound (start-IsSound max n) r in
    (
      omega (arith, sound.conserved, two_held s.threads i j _ _ ne hi hj),
      (sound.admitted i _ hi).0,
      (sound.admitted j _ hj).0,
    )

-- In every state that threads can reach, one that releases the cores it holds gets through:
-- `_release` finds neither a zero count nor too many cores.
release_never_raises :
    (max n : ℕ) (s : System) (i count : ℕ)
    → Reach (start max (idle n)) s
    → At s i (holding count)
    → (give_back s.lock count).0 ≡ none
unfolding give_back
release_never_raises max n s i count r at =
    let sound = Reach-IsSound (start-IsSound max n) r in
    ground (arith, sound.admitted i _ at, held-le i (holding count) sound at, sound.fixed)
