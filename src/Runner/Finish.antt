-- ===== src/Runner/Finish.antt =====
-- runner.py: what the end of a job leaves in the Runner, on every branch.
use pypipegraph.Prelude.{
  Bool-cases, Dict, Option, Option-cases, String, ap, arith, eq_iff, eq_refl, if◌then◌else◌, inl,
  inr, lookup, lookup-insert, none, refl, some, true, ℕ, ◌+◌, ◌==◌, ◌↔◌, ◌∙◌, ◌≡◌, ◌⊎◌,
}
use pypipegraph.Runner.{
  Engine, JobError, Recorded, Runner, finish, lower, outputs_of, record_success, recorded_failure,
  recorded_refusal, recorded_success, remove_first, same_keys, settle, write_outcome,
}

module _ {En : Engine} where
  lower_kept :
      (c : Option ℕ) (r : Runner En)
      → ((lower c r).job_outcomes ≡ r.job_outcomes)
        × ((lower c r).done_counter ≡ r.done_counter)
        × ((lower c r).fail_counter ≡ r.fail_counter)
  lower_kept none r = (refl, refl, refl)
  lower_kept (some c) r = ground arith

  record_counts :
      (job_id : String) (outputs : Dict String) (o : Option String × En.Graph) (r : Runner En)
      → let r' = record_success job_id outputs o r in
        (r'.done_counter ≡ r.done_counter + 1) × (r'.fail_counter ≡ r.fail_counter)
  record_counts job_id outputs (refused, g) r = (refl, refl)

  write_counts :
      (job_id : String) (settled : Dict String ⊎ JobError) (r : Runner En)
      → let r' = write_outcome job_id settled r in
        r'.done_counter + r'.fail_counter ≡ r.done_counter + r.fail_counter + 1
  unfolding write_outcome
  write_counts job_id (inl outputs) r =
      omega
        (arith, record_counts job_id outputs (En.event_job_success job_id outputs r.evaluator) r)
  write_counts job_id (inr e) r = omega arith

  -- What is written for a settled job.
  abbrev recorded : Dict String ⊎ JobError → String → Runner En → Recorded
  recorded (inr e) job_id r = recorded_failure e
  recorded (inl outputs) job_id r = elim (En.event_job_success job_id outputs r.evaluator).0 [
    | none ↦ recorded_success outputs
    | some text ↦ recorded_refusal text
  ]

  record_outcomes :
      (job_id other : String) (outputs : Dict String) (o : Option String × En.Graph) (r : Runner En)
      → lookup other (record_success job_id outputs o r).job_outcomes ≡ (
          if job_id == other
          then some
              (elim o.0 [ none ↦ recorded_success outputs | some text ↦ recorded_refusal text ])
          else lookup other r.job_outcomes)
  record_outcomes job_id other outputs (refused, g) r =
      lookup-insert job_id other
        (elim refused [ none ↦ recorded_success outputs | some text ↦ recorded_refusal text ])
        r.job_outcomes

  write_outcomes :
      (job_id other : String) (settled : Dict String ⊎ JobError) (r : Runner En)
      → lookup other (write_outcome job_id settled r).job_outcomes ≡ (
          if job_id == other then some (recorded settled job_id r) else lookup other r.job_outcomes)
  unfolding write_outcome
  write_outcomes job_id other (inl outputs) r =
      record_outcomes job_id other outputs (En.event_job_success job_id outputs r.evaluator) r
  write_outcomes job_id other (inr e) r =
      lookup-insert job_id other (recorded_failure e) r.job_outcomes

  success_iff :
      (job_id : String) (outputs : Option (Dict String)) (e : Option JobError) (got : Dict String)
      (r : Runner En)
      → (recorded (settle (outputs_of r job_id) outputs e) job_id r ≡ recorded_success got) ↔ (
          (outputs ≡ some got)
          × (same_keys got (outputs_of r job_id) ≡ true)
          × ((En.event_job_success job_id got r.evaluator).0 ≡ none))
  unfolding settle
  success_iff job_id none none got r = ground arith
  success_iff job_id none (some e) got r = ground arith
  success_iff job_id (some outputs) e got r =
      elim (Bool-cases (same_keys outputs (outputs_of r job_id))) [
        | inl same ↦ elim (Option-cases (En.event_job_success job_id outputs r.evaluator).0) [
          | inl (text, refused) ↦ (λ h. ground arith, λ (a, b, d). ground arith)
          | inr accepted ↦ (λ h. ground arith, λ (a, b, d). ground arith)
        ]
        | inr other ↦ (λ h. ground arith, λ (a, b, d). ground arith)
      ]

  finish_outcomes :
      (r : Runner En) (job_id other : String) (c : Option ℕ) (outputs : Option (Dict String))
      (e : Option JobError)
      → lookup other (finish job_id c outputs e r).job_outcomes ≡ (
          if job_id == other
          then some (recorded (settle (outputs_of r job_id) outputs e) job_id r)
          else lookup other r.job_outcomes)
  unfolding finish
  finish_outcomes r job_id other c outputs e =
      let settled = settle (outputs_of r job_id) outputs e in
      let written = write_outcome job_id settled r in
      let left = record written { jobs_in_flight = remove_first job_id written.jobs_in_flight } in
      ap (lookup other) (lower_kept c left).0 ∙ write_outcomes job_id other settled r

  finish_counts :
      (r : Runner En) (job_id : String) (c : Option ℕ) (outputs : Option (Dict String))
      (e : Option JobError)
      → let r' = finish job_id c outputs e r in
        r'.done_counter + r'.fail_counter ≡ r.done_counter + r.fail_counter + 1
  unfolding finish
  finish_counts r job_id c outputs e =
      let settled = settle (outputs_of r job_id) outputs e in
      let written = write_outcome job_id settled r in
      let left = record written { jobs_in_flight = remove_first job_id written.jobs_in_flight } in
      let (same, done, fail) = lower_kept c left in
      omega (arith, write_counts job_id settled r, done, fail)

  -- A job that ends is recorded: as a success exactly if it gave outputs, these are the outputs it
  -- declared, and the engine accepts them. It is counted once, as done or as failed, and the
  -- other jobs' outcomes stay as they were.
  pub finish_records :
      (r : Runner En) (job_id other : String) (c : Option ℕ) (outputs : Option (Dict String))
      (e : Option JobError) (got : Dict String)
      → let r' = finish job_id c outputs e r in
        ((lookup job_id r'.job_outcomes ≡ some (recorded_success got)) ↔ (
          (outputs ≡ some got)
          × (same_keys got (outputs_of r job_id) ≡ true)
          × ((En.event_job_success job_id got r.evaluator).0 ≡ none)))
        × (r'.done_counter + r'.fail_counter ≡ r.done_counter + r.fail_counter + 1)
        × (lookup other r'.job_outcomes ≡ (
            if job_id == other then lookup job_id r'.job_outcomes else lookup other r.job_outcomes))
  finish_records r job_id other c outputs e got =
      let here = finish_outcomes r job_id job_id c outputs e in
      let there = finish_outcomes r job_id other c outputs e in
      let (forth, back) = success_iff job_id outputs e got r in
      (
        (
          λ h. forth (ground (arith, eq_refl job_id, h, here)),
          λ h. let same = back h in ground (arith, eq_refl job_id, same, here),
        ),
        finish_counts r job_id c outputs e,
        ground (arith, here, there, eq_iff job_id other),
      )
