-- ===== src/Launch/Numbers.antt =====
-- runner.py, Runner.__init__: the loop over the job numbers.
use pypipegraph.Launch.{collect_numbers, flags_of, number_in}
use pypipegraph.Prelude.{
  AreDistinct, Bool-cases, Dict, List, String, [], ap, arith, contains, contains-keys, eq_iff,
  eq_refl, false, inl, inr, keys, length, lookup, nat_eq, refl, some, suc, ℕ, ◌+◌, ◌==◌, ◌∷◌, ◌≡◌,
}
use pypipegraph.Registry.Graph.{Job}
use pypipegraph.Shared.{found}

pub keys-flags_of : (jobs : Dict Job) → keys (flags_of jobs) ≡ keys jobs
unfolding keys flags_of
keys-flags_of [] = refl
keys-flags_of ((k, j) ∷ jobs) = ap (λ ks. k ∷ ks) (keys-flags_of jobs)

pub length-keys : (jobs : Dict Job) → length (keys jobs) ≡ length jobs
unfolding keys
length-keys [] = refl
length-keys ((k, j) ∷ jobs) = ap suc (length-keys jobs)

-- No two of the jobs have one number.
abbrev pub AreNumbered : Dict Job → Type 0
AreNumbered jobs =
    (x y : String) (j k : Job)
    → lookup x jobs ≡ some j
    → lookup y jobs ≡ some k
    → j.job_number ≡ k.job_number
    → x ≡ y

-- The other jobs, when the first one is left off.
other_jobs :
    (k x : String) (j a : Job) (jobs : Dict Job)
    → contains (keys jobs) k ≡ false
    → lookup x jobs ≡ some a
    → ((k == x) ≡ false) × (lookup x ((k, j) ∷ jobs) ≡ some a)
unfolding lookup
other_jobs k x j a jobs unique found = elim (Bool-cases (k == x)) [
  | inr other ↦ (other, ground (arith, other, found))
  | inl same ↦ absurd (ground (arith, contains-keys k jobs, unique, found, eq_iff k x, same))
]

-- On jobs with different numbers the loop ends with one number for each job.
pub collect_numbers_lem :
    (jobs : Dict Job) (numbers : List ℕ)
    → AreDistinct (keys jobs)
    → AreNumbered jobs
    → ((x : String) (j : Job) → lookup x jobs ≡ some j → number_in numbers j.job_number ≡ false)
    → (ms : List ℕ) × (collect_numbers jobs numbers ≡ some ms)
      × (length ms ≡ length jobs + length numbers)
unfolding collect_numbers keys
collect_numbers_lem [] numbers distinct numbered fresh = (numbers, refl, omega arith)
collect_numbers_lem ((k, j) ∷ jobs) numbers (unique, distinct) numbered fresh =
    let here : lookup k ((k, j) ∷ jobs) ≡ some j = found_first k j jobs in
    let other = λ (x : String) (a : Job). other_jobs k x j a jobs unique in
    let (ms, ends, size) =
      collect_numbers_lem jobs (j.job_number ∷ numbers) distinct
        (λ x y a b ha hb. numbered x y a b (other x a ha).1 (other y b hb).1)
        (λ x a ha.
          still_fresh x a (other x a ha).0 (numbered k x j a here (other x a ha).1)
            (fresh x a (other x a ha).1)) in
    (ms, rw (fresh k j here) ends, omega (arith, size))
  where
    found_first : (k : String) (j : Job) (jobs : Dict Job) → lookup k ((k, j) ∷ jobs) ≡ some j
    found_first k j jobs = unfold lookup in ground (arith, eq_refl k)

    still_fresh :
        (x : String) (a : Job)
        → (k == x) ≡ false
        → (j.job_number ≡ a.job_number → k ≡ x)
        → number_in numbers a.job_number ≡ false
        → number_in (j.job_number ∷ numbers) a.job_number ≡ false
    still_fresh x a differ same gone =
        unfold number_in in
        elim (Bool-cases (nat_eq j.job_number a.job_number)) [
          | inl e ↦ absurd (ground (arith, same (ground (arith, e)), eq_iff k x, differ))
          | inr e ↦ ground (arith, e, gone)
        ]
