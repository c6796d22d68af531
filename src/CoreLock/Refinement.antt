-- ===== src/CoreLock/Refinement.antt =====
-- parallel.py, CoreLock: what it promises, apart from locks, conditions and waiting. Each thread has
-- a number of cores; a thread that has none may get some while all together stay within the
-- limit, and gives all of them back at once.
use pypipegraph.CoreLock.{
  At, CoreLock, Phase, Reach, Step, System, checking, crash, crashed, enter, give, here, holding,
  miss, missed, next, notify, notifying, outside, place, sleep, start, take, try_take, waiting,
  wake,
}
use pypipegraph.CoreLock.Invariant.{IsSound, Reach-IsSound, held}
use pypipegraph.CoreLock.Safety.{idle, start-IsSound}
use pypipegraph.Prelude.{
  List, [], ap, arith, get_elem?, map, refl, set, some, subst, suc, sym, total, zero, ℕ, ◌+◌, ◌<◌,
  ◌∙◌, ◌∷◌, ◌≡◌, ◌≤◌,
}

pub data Granting (max : ℕ) (h : List ℕ) : List ℕ → Type 0 where
  nothing_granted : Granting max h h
  grab_cores :
      (i n : ℕ)
      → get_elem? h i ≡ some 0
      → 0 < n
      → total (λ x. x) h + n ≤ max
      → Granting max h (set h i n)
  return_cores : (i n : ℕ) → get_elem? h i ≡ some n → Granting max h (set h i 0)

pub data Grantings (max : ℕ) (h : List ℕ) : List ℕ → Type 0 where
  at_start : Grantings max h h
  then_granting : {k l : List ℕ} → Grantings max h k → Granting max k l → Grantings max h l

-- What each thread holds.
abbrev pub holdings : System → List ℕ
holdings s = map held s.threads

map-set :
    (ps : List Phase) (i : ℕ) (p : Phase) → map held (set ps i p) ≡ set (map held ps) i (held p)
map-set [] i p = refl
map-set (x ∷ ps) zero p = refl
map-set (x ∷ ps) (suc i) p = ap (λ l. held x ∷ l) (map-set ps i p)

get_elem?-map :
    (ps : List Phase) (i : ℕ) (p : Phase)
    → get_elem? ps i ≡ some p
    → get_elem? (map held ps) i ≡ some (held p)
get_elem?-map [] i p h = cc
get_elem?-map (x ∷ ps) zero p h = ground arith
get_elem?-map (x ∷ ps) (suc i) p h = get_elem?-map ps i p h

set_same : (h : List ℕ) (i v : ℕ) → get_elem? h i ≡ some v → set h i v ≡ h
set_same [] i v e = cc
set_same (x ∷ h) zero v e = ground arith
set_same (x ∷ h) (suc i) v e = ap (λ l. x ∷ l) (set_same h i v e)

map-wake : (ps : List Phase) → map held (map wake ps) ≡ map held ps
unfolding wake
map-wake [] = refl
map-wake (p ∷ ps) = head p ∙ ap (λ l. held p ∷ l) (map-wake ps)
  where
    head : (p : Phase) → held (wake p) ∷ map held (map wake ps) ≡ held p ∷ map held (map wake ps)
    head (waiting count) = refl
    head outside = refl
    head (checking count) = refl
    head (missed count) = refl
    head (holding count) = refl
    head notifying = refl
    head crashed = refl

total-map : (ps : List Phase) → total (λ x. x) (map held ps) ≡ total held ps
unfolding total
total-map [] = refl
total-map (p ∷ ps) = omega (arith, total-map ps)

module _ {max : ℕ} where
  -- A move between phases that hold the same.
  place-quiet :
      (s : System) (i : ℕ) (old p : Phase) (lock : CoreLock)
      → At s i old
      → held p ≡ held old
      → Granting max (holdings s) (holdings (place s i p lock))
  place-quiet s i old p lock at same =
      subst (Granting max (holdings s))
        (sym (
          map-set s.threads i p
          ∙ ap (set (holdings s) i) same
          ∙ set_same (holdings s) i (held old) (get_elem?-map s.threads i old at)))
        nothing_granted

  Step-Granting : {s t : System} → Step s t → IsSound max s → Granting max (holdings s) (holdings t)
  unfolding try_take
  Step-Granting {s} (enter i count at admitted) sound =
      place-quiet s i outside (checking count) s.lock at refl
  Step-Granting {s} (take i count lock at took) sound =
      subst (Granting max (holdings s)) (sym (map-set s.threads i (holding count))) (
        grab_cores i count (get_elem?-map s.threads i (checking count) at)
          (sound.admitted i (checking count) at).0
          (ground (arith, sound.conserved, total-map s.threads)))
  Step-Granting {s} (miss i count at short) sound =
      place-quiet s i (checking count) (missed count) s.lock at refl
  Step-Granting {s} (sleep i count at) sound =
      place-quiet s i (missed count) (waiting count) s.lock at refl
  Step-Granting {s} (give i count lock at gave) sound =
      subst (Granting max (holdings s)) (sym (map-set s.threads i notifying))
        (return_cores i count (get_elem?-map s.threads i (holding count) at))
  Step-Granting {s} (crash i count e lock at raised) sound =
      subst (Granting max (holdings s)) (sym (map-set s.threads i crashed))
        (return_cores i count (get_elem?-map s.threads i (holding count) at))
  Step-Granting {s} (notify i at) sound =
      subst (Granting max (holdings s)) (sym (map-wake (set s.threads i outside)))
        (place-quiet s i notifying outside s.lock at refl)

sound-Grantings :
    {max : ℕ} {s t : System} → Reach s t → IsSound max s → Grantings max (holdings s) (holdings t)
sound-Grantings here sound = at_start
sound-Grantings (next r st) sound =
    then_granting (sound-Grantings r sound) (Step-Granting st (Reach-IsSound sound r))

-- The lock does what it promises: whatever the threads do, what they hold develops by grants
-- that keep all together within `max_cores` and by returns of all that one holds.
pub lock_refines :
    (max n : ℕ) (s : System)
    → Reach (start max (idle n)) s
    → Grantings max (holdings (start max (idle n))) (holdings s)
lock_refines max n s r = sound-Grantings r (start-IsSound max n)
