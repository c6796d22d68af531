-- ===== src/CoreLock/Wakeup.antt =====
-- parallel.py, CoreLock: the window between the test in `_acquire` and `condition.wait()`.
use pypipegraph.CoreLock.{
  At, Phase, Reach, Step, System, checking, enter, give, give_back, here, holding, miss, missed,
  next, notify, notifying, outside, refuse, sleep, start, take, try_take, waiting, wake,
}
use pypipegraph.CoreLock.Invariant.{held}
use pypipegraph.CoreLock.Safety.{idle}
use pypipegraph.Prelude.{
  List, [], arith, get_elem?, map, refl, set, some, suc, total, zero, ℕ, ◌<◌, ◌∷◌, ◌≡◌, ◌≤◌,
}

abbrev both : ℕ → ℕ → Phase → Phase → System
both max remaining p q = record {
  lock = record { max_cores = max; remaining = remaining };
  threads = p ∷ q ∷ [];
}

-- All cores are free, nobody is about to notify, and thread 1 waits for `count` cores.
abbrev pub Stranded : ℕ → ℕ → System → Type 0
Stranded max count s =
    (s.lock.remaining ≡ max)
    × At s 1 (waiting count)
    × (total held s.threads ≡ 0)
    × ((i : ℕ) → ¬ At s i notifying)

not_notifying : (count i : ℕ) → ¬ (get_elem? (outside ∷ waiting count ∷ []) i ≡ some notifying)
not_notifying count zero h = cc
not_notifying count (suc zero) h = cc
not_notifying count (suc (suc i)) h = cc

-- A wakeup can be lost: for every number of cores and every count that `_acquire` admits, two
-- threads can reach a state in which all cores are free and nobody is about to notify, and yet
-- one thread waits for that count.
pub lost_wakeup :
    (max count : ℕ)
    → 0 < count
    → count ≤ max
    → (s : System) × Reach (start max (idle 2)) s × Stranded max count s
unfolding refuse try_take give_back wake total
lost_wakeup max count pos le =
    let r0 : Reach (start max (idle 2)) (both max max outside outside) = here in
    let r1 : Reach (start max (idle 2)) (both max max (checking max) outside) =
      next r0 (enter 0 max refl (ground arith)) in
    let r2 : Reach (start max (idle 2)) (both max 0 (holding max) outside) =
      next r1 (take 0 max (record { max_cores = max; remaining = 0 }) refl (ground arith)) in
    let r3 : Reach (start max (idle 2)) (both max 0 (holding max) (checking count)) =
      next r2 (enter 1 count refl (ground arith)) in
    let r4 : Reach (start max (idle 2)) (both max 0 (holding max) (missed count)) =
      next r3 (miss 1 count refl (ground arith)) in
    let r5 : Reach (start max (idle 2)) (both max max notifying (missed count)) =
      next r4 (give 0 max (record { max_cores = max; remaining = max }) refl (ground arith)) in
    let r6 : Reach (start max (idle 2)) (both max max outside (missed count)) =
      next r5 (notify 0 refl) in
    let r7 : Reach (start max (idle 2)) (both max max outside (waiting count)) =
      next r6 (sleep 1 count refl) in
    (both max max outside (waiting count), r7, (refl, refl, omega arith, not_notifying count))

none_waits : (ps : List Phase) (k c : ℕ) → ¬ (get_elem? (map wake ps) k ≡ some (waiting c))
unfolding wake
none_waits [] k c h = cc
none_waits (p ∷ ps) zero c h = ground arith
none_waits (p ∷ ps) (suc k) c h = none_waits ps k c h

wake_at :
    (ps : List Phase) (j count : ℕ)
    → get_elem? ps j ≡ some (waiting count)
    → get_elem? (map wake ps) j ≡ some (checking count)
unfolding wake
wake_at [] j count h = cc
wake_at (p ∷ ps) zero count h = ground arith
wake_at (p ∷ ps) (suc j) count h = wake_at ps j count h

woken :
    (ps : List Phase) (i j count : ℕ)
    → get_elem? ps i ≡ some notifying
    → get_elem? ps j ≡ some (waiting count)
    → get_elem? (map wake (set ps i outside)) j ≡ some (checking count)
unfolding wake
woken [] i j count hi hj = cc
woken (p ∷ ps) zero zero count hi hj = ground arith
woken (p ∷ ps) zero (suc j) count hi hj = wake_at ps j count hj
woken (p ∷ ps) (suc i) zero count hi hj = ground arith
woken (p ∷ ps) (suc i) (suc j) count hi hj = woken ps i j count hi hj

-- A thread that is to notify can do so at once, after which no thread waits and each thread that
-- waited is back at the test with its count.
notify_wakes :
    (s : System) (i j count : ℕ)
    → At s i notifying
    → At s j (waiting count)
    → (t : System) × Step s t × At t j (checking count) × ((k c : ℕ) → ¬ At t k (waiting c))
notify_wakes s i j count at waits = (
  record { lock = s.lock; threads = map wake (set s.threads i outside) },
  notify i at,
  woken s.threads i j count at waits,
  none_waits (set s.threads i outside),
)
