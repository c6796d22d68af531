-- ===== src/CoreLock.antt =====
-- python/pypipegraph2/parallel.py, CoreLock: a semaphore that hands out several cores at once.
-- A thread's place in `_acquire` and `_release` is a `Phase`; a `Step` is what one thread does
-- between two points at which another may run (each `with self.lock:` block is one step).
pub mod Invariant
pub mod Safety
pub mod Wakeup
pub mod Refinement
use pypipegraph.Prelude.{
  List, Option, get_elem?, if◌then◌else◌, leb, ltb, map, nat_eq, none, set, some, ℕ, ◌+◌, ◌-◌, ◌≡◌,
}

pub record CoreLock : Type 0 where
  pub max_cores : ℕ
  pub remaining : ℕ

pub data LockError : Type 0 where
  count_above_max count_zero remaining_above_max : LockError

abbrev pub new_lock : ℕ → CoreLock
new_lock max_cores = record { max_cores = max_cores; remaining = max_cores }

-- The two tests at the head of `_acquire`; `none` lets the thread into the loop.
unfoldable pub refuse : CoreLock → ℕ → Option LockError
refuse lock count =
    if ltb lock.max_cores count
    then some count_above_max
    else if nat_eq count 0
    then some count_zero
    else none

-- The body of the `with self.lock:` block in the loop; `none` goes on to wait.
unfoldable pub try_take : CoreLock → ℕ → Option CoreLock
try_take lock count =
    if leb count lock.remaining
    then some (record lock { remaining = lock.remaining - count })
    else none

-- `_release` up to the notification, with what it raises and the lock that it leaves.
unfoldable pub give_back : CoreLock → ℕ → Option LockError × CoreLock
give_back lock count =
    if nat_eq count 0
    then (some count_zero, lock)
    else let lock' = record lock { remaining = lock.remaining + count } in
      if ltb lock'.max_cores lock'.remaining
      then (some remaining_above_max, lock')
      else (none, lock')

pub data Phase : Type 0 where
  outside : Phase
  -- at the head of the `while True`
  checking : ℕ → Phase
  -- found too few cores, and does not wait yet
  missed : ℕ → Phase
  -- inside `self.condition.wait()`
  waiting : ℕ → Phase
  holding : ℕ → Phase
  -- gave its cores back, and did not notify yet
  notifying : Phase
  -- left `_release` by the exception
  crashed : Phase

pub record System : Type 0 where
  pub lock : CoreLock
  pub threads : List Phase

abbrev pub At : System → ℕ → Phase → Type 0
At s i p = get_elem? s.threads i ≡ some p

-- What `notify_all` does to each thread.
unfoldable pub wake : Phase → Phase
wake (waiting count) = checking count
wake p = p

abbrev pub place : System → ℕ → Phase → CoreLock → System
place s i p lock = record { lock = lock; threads = set s.threads i p }

pub data Step (s : System) : System → Type 0 where
  enter :
      (i count : ℕ)
      → At s i outside
      → refuse s.lock count ≡ none
      → Step s (place s i (checking count) s.lock)
  take :
      (i count : ℕ) (lock : CoreLock)
      → At s i (checking count)
      → try_take s.lock count ≡ some lock
      → Step s (place s i (holding count) lock)
  miss :
      (i count : ℕ)
      → At s i (checking count)
      → try_take s.lock count ≡ none
      → Step s (place s i (missed count) s.lock)
  sleep : (i count : ℕ) → At s i (missed count) → Step s (place s i (waiting count) s.lock)
  give :
      (i count : ℕ) (lock : CoreLock)
      → At s i (holding count)
      → give_back s.lock count ≡ (none, lock)
      → Step s (place s i notifying lock)
  crash :
      (i count : ℕ) (e : LockError) (lock : CoreLock)
      → At s i (holding count)
      → give_back s.lock count ≡ (some e, lock)
      → Step s (place s i crashed lock)
  notify :
      (i : ℕ)
      → At s i notifying
      → Step s (record { lock = s.lock; threads = map wake (set s.threads i outside) })

pub data Reach (s : System) : System → Type 0 where
  here : Reach s s
  next : {t u : System} → Reach s t → Step t u → Reach s u

abbrev pub start : ℕ → List Phase → System
start max_cores threads = record { lock = new_lock max_cores; threads = threads }
