-- ===== src/Console/Killing.antt =====
-- Which job the console kills.
-- An entry of a dict.
use pypipegraph.Console.{ConsoleJob, find_number, kill_target}
use pypipegraph.Enums.{is_external}
use pypipegraph.Prelude.{
  Bool-cases, Dict, Option, Option-cases, String, [], ap, arith, if◌then◌else◌, inl, inr, nat_eq,
  none, not, refl, some, subst, sym, true, ℕ, ◌∙◌, ◌∷◌, ◌≡◌, ◌⊎◌,
}

unfoldable pub IsEntry : String → ConsoleJob → Dict ConsoleJob → Type 0
IsEntry job_id j [] = ⊥
IsEntry job_id j ((k, i) ∷ jobs) = ((k ≡ job_id) × (i ≡ j)) ⊎ IsEntry job_id j jobs

entry_or : ConsoleJob → Option (String × ConsoleJob) → ConsoleJob
entry_or i none = i
entry_or i (some (k, j)) = j

id_or : String → Option (String × ConsoleJob) → String
id_or i none = i
id_or i (some (k, j)) = k

find_number-IsEntry :
    (job_no : ℕ) (jobs : Dict ConsoleJob) (job_id : String) (j : ConsoleJob)
    → find_number job_no jobs ≡ some (job_id, j)
    → IsEntry job_id j jobs × (j.job_number ≡ job_no)
unfolding find_number IsEntry entry_or id_or
find_number-IsEntry job_no [] job_id j h = absurd (ground arith)
find_number-IsEntry job_no ((k, i) ∷ jobs) job_id j h =
    elim (Bool-cases (nat_eq i.job_number job_no)) [
      | inl same ↦
          let e : some (k, i) ≡ some (job_id, j) =
            subst (λ b. (if b then some (k, i) else find_number job_no jobs) ≡ some (job_id, j))
              same h in
          let same_job = ap (entry_or i) e in
          (inl (ap (id_or k) e, same_job), ap (λ x. x.job_number) (sym same_job) ∙ ground arith)
      | inr other ↦
          let (entry, number) = find_number-IsEntry job_no jobs job_id j (ground arith) in
          (inr entry, number)
    ]

-- A job that `kill` kills has the number that was typed, is in flight, and runs in a process of its
-- own.
killed_fits :
    (typed : Option ℕ) (jobs : Dict ConsoleJob) (job_id : String)
    → kill_target typed jobs ≡ some job_id
    → (job_no : ℕ) × (j : ConsoleJob) × (typed ≡ some job_no)
      × IsEntry job_id j jobs
      × (j.job_number ≡ job_no)
      × (j.in_flight ≡ true)
      × (is_external j.resources ≡ true)
unfolding kill_target
killed_fits none jobs job_id h = absurd (ground arith)
killed_fits (some job_no) jobs job_id h = elim (Option-cases (find_number job_no jobs)) [
  | inr gone ↦ absurd (ground arith)
  | inl ((k, j), found_it) ↦
      let (entry, number) = find_number-IsEntry job_no jobs k j found_it in
      let known : kill_of (some (k, j)) ≡ some job_id =
        subst (λ o. kill_of o ≡ some job_id) found_it h in
      (
        job_no,
        j,
        refl,
        subst (λ x. IsEntry x j jobs) (ground arith) entry,
        number,
        ground arith,
        ground arith,
      )
]
  where
    kill_of : Option (String × ConsoleJob) → Option String
    kill_of none = none
    kill_of (some (k, j)) =
        if not j.in_flight then none else if not (is_external j.resources) then none else some k
