-- ===== src/CoreLock/Invariant.antt =====
-- Every step of every thread keeps the cores accounted for.
use pypipegraph.CoreLock.{
  At, CoreLock, Phase, Reach, Step, System, checking, crash, crashed, enter, give, give_back, here,
  holding, miss, missed, next, notify, notifying, outside, place, refuse, sleep, take, try_take,
  waiting, wake,
}
use pypipegraph.Prelude.{
  List, [], arith, get_elem?, inl, inr, map, none, refl, set, some, subst, suc, sym, total,
  total-set, zero, ℕ, ◌+◌, ◌<◌, ◌∷◌, ◌≡◌, ◌≤◌, ◌⊎◌,
}

-- The cores that a thread holds.
abbrev pub held : Phase → ℕ
held (holding count) = count
held _ = 0

-- A count that `_acquire` admitted.
abbrev pub IsAdmitted : ℕ → Phase → Type 0
IsAdmitted max (checking count) = (0 < count) × (count ≤ max)
IsAdmitted max (missed count) = (0 < count) × (count ≤ max)
IsAdmitted max (waiting count) = (0 < count) × (count ≤ max)
IsAdmitted max (holding count) = (0 < count) × (count ≤ max)
IsAdmitted max crashed = ⊥
IsAdmitted max outside = Unit {0}
IsAdmitted max notifying = Unit {0}

pub record IsSound (max : ℕ) (s : System) : Type 0 where
  pub fixed : s.lock.max_cores ≡ max
  pub conserved : s.lock.remaining + total held s.threads ≡ max
  pub admitted : (i : ℕ) (p : Phase) → At s i p → IsAdmitted max p

get_elem?-set :
    (ps : List Phase) (i j : ℕ) (p q : Phase)
    → get_elem? (set ps i p) j ≡ some q
    → (q ≡ p) ⊎ (get_elem? ps j ≡ some q)
get_elem?-set [] i j p q h = inr h
get_elem?-set (x ∷ ps) zero zero p q h = ground arith
get_elem?-set (x ∷ ps) zero (suc j) p q h = inr h
get_elem?-set (x ∷ ps) (suc i) zero p q h = inr h
get_elem?-set (x ∷ ps) (suc i) (suc j) p q h = get_elem?-set ps i j p q h

total-wake : (ps : List Phase) → total held (map wake ps) ≡ total held ps
unfolding total wake
total-wake [] = refl
total-wake (p ∷ ps) = ground (arith, total-wake ps)

get_elem?-wake :
    (max : ℕ) (ps : List Phase) (i : ℕ) (q : Phase)
    → ((j : ℕ) (p : Phase) → get_elem? ps j ≡ some p → IsAdmitted max p)
    → get_elem? (map wake ps) i ≡ some q
    → IsAdmitted max q
unfolding wake
get_elem?-wake max [] i q all h = cc
get_elem?-wake max (p ∷ ps) zero q all h = wake-IsAdmitted p q (all 0 p refl) (ground (arith, h))
  where
    wake-IsAdmitted : (p q : Phase) → IsAdmitted max p → wake p ≡ q → IsAdmitted max q
    wake-IsAdmitted (waiting count) q a e = subst (IsAdmitted max) e a
    wake-IsAdmitted outside q a e = subst (IsAdmitted max) e a
    wake-IsAdmitted (checking count) q a e = subst (IsAdmitted max) e a
    wake-IsAdmitted (missed count) q a e = subst (IsAdmitted max) e a
    wake-IsAdmitted (holding count) q a e = subst (IsAdmitted max) e a
    wake-IsAdmitted notifying q a e = subst (IsAdmitted max) e a
    wake-IsAdmitted crashed q a e = subst (IsAdmitted max) e a
get_elem?-wake max (p ∷ ps) (suc i) q all h = get_elem?-wake max ps i q (λ j. all (suc j)) h

-- One thread moves to a phase that holds what the lock has lost.
place-IsSound :
    {max : ℕ} {s : System} (i : ℕ) (old p : Phase) (lock : CoreLock)
    → IsSound max s
    → At s i old
    → IsAdmitted max p
    → lock.max_cores ≡ s.lock.max_cores
    → lock.remaining + held p ≡ s.lock.remaining + held old
    → IsSound max (place s i p lock)
place-IsSound {max} {s} i old p lock sound at admitted same moved = record {
  fixed = omega (arith, sound.fixed);
  conserved = omega (arith, sound.conserved, total-set held s.threads i p old at);
  admitted = λ j q h. elim (get_elem?-set s.threads i j p q h) [
    | inl e ↦ subst (IsAdmitted max) (sym e) admitted
    | inr before ↦ sound.admitted j q before
  ];
}

pub held-le :
    {max : ℕ} {s : System} (i : ℕ) (p : Phase)
    → IsSound max s
    → At s i p
    → held p + s.lock.remaining ≤ max
held-le {s = s} i p sound at =
    omega (arith, sound.conserved, total-set held s.threads i outside p at)

refuse-admits :
    (lock : CoreLock) (count : ℕ)
    → refuse lock count ≡ none
    → (0 < count) × (count ≤ lock.max_cores)
unfolding refuse
refuse-admits lock count h = ground arith

pub Step-IsSound : {max : ℕ} {s t : System} → Step s t → IsSound max s → IsSound max t
unfolding try_take give_back
Step-IsSound {max} {s} (enter i count at admitted) sound =
    place-IsSound i outside (checking count) s.lock sound at
      (omega (arith, refuse-admits s.lock count admitted, sound.fixed)) refl refl
Step-IsSound {s = s} (take i count lock at took) sound =
    place-IsSound i (checking count) (holding count) lock sound at (sound.admitted i _ at)
      (ground arith) (ground arith)
Step-IsSound {s = s} (miss i count at short) sound =
    place-IsSound i (checking count) (missed count) s.lock sound at (sound.admitted i _ at) refl
      refl
Step-IsSound {s = s} (sleep i count at) sound =
    place-IsSound i (missed count) (waiting count) s.lock sound at (sound.admitted i _ at) refl refl
Step-IsSound {s = s} (give i count lock at gave) sound =
    place-IsSound i (holding count) notifying lock sound at tt (ground arith) (ground arith)
Step-IsSound {s = s} (crash i count e lock at raised) sound =
    absurd (ground (arith, sound.admitted i _ at, held-le i (holding count) sound at, sound.fixed))
Step-IsSound {max} {s} (notify i at) sound =
    let moved : IsSound max (place s i outside s.lock) =
      place-IsSound i notifying outside s.lock sound at tt refl refl in
    record {
      fixed = sound.fixed;
      conserved = omega (arith, moved.conserved, total-wake (set s.threads i outside));
      admitted = λ j q. get_elem?-wake max (set s.threads i outside) j q moved.admitted;
    }

pub Reach-IsSound : {max : ℕ} {s t : System} → IsSound max s → Reach s t → IsSound max t
Reach-IsSound sound here = sound
Reach-IsSound sound (next r st) = Step-IsSound st (Reach-IsSound sound r)
