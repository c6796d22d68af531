-- ===== src/Samples/Locks.antt =====
-- CoreLock with four cores and two threads.
use pypipegraph.CoreLock.{
  Reach, System, enter, here, holding, next, notifying, refuse, start, take, try_take, waiting,
}
use pypipegraph.CoreLock.Invariant.{held}
use pypipegraph.CoreLock.Refinement.{Grantings, holdings, lock_refines}
use pypipegraph.CoreLock.Safety.{cores_conserved, idle}
use pypipegraph.CoreLock.Wakeup.{Stranded, lost_wakeup}
use pypipegraph.Prelude.{[], arith, refl, total, ◌+◌, ◌∷◌, ◌≡◌}

abbrev two_holders : System
two_holders = record {
  lock = record { max_cores = 4; remaining = 0 };
  threads = holding 3 ∷ holding 1 ∷ [];
}

two_holders_reached : Reach (start 4 (idle 2)) two_holders
unfolding refuse try_take
two_holders_reached =
    next
      (next
        (next (next here (enter 0 3 refl refl))
          (take 0 3 (record { max_cores = 4; remaining = 1 }) refl refl))
        (enter 1 1 refl refl))
      (take 1 1 (record { max_cores = 4; remaining = 0 }) refl refl)

cores_conserved_example : two_holders.lock.remaining + total held two_holders.threads ≡ 4
cores_conserved_example = cores_conserved 4 2 two_holders two_holders_reached

lost_wakeup_example : (s : System) × Reach (start 2 (idle 2)) s × Stranded 2 1 s
lost_wakeup_example = lost_wakeup 2 1 (omega arith) (omega arith)

abbrev about_to_notify : System
about_to_notify = record {
  lock = record { max_cores = 2; remaining = 2 };
  threads = notifying ∷ waiting 2 ∷ [];
}

lock_refines_example : Grantings 4 (holdings (start 4 (idle 2))) (holdings two_holders)
lock_refines_example = lock_refines 4 2 two_holders two_holders_reached
