-- ===== src/Session/Kept.antt =====
-- graph.py, _run: what the rounds keep, and what a run reports.
use pypipegraph.Enums.{RecordedJobOutcome}
use pypipegraph.Jobs.MultiFile.{missing}
use pypipegraph.Prelude.{
  Bool, Bool-cases, Dict, List, Option-cases, String, [], ap, arith, eq_iff, false, if◌then◌else◌,
  inl, inr, insert, is_empty, lookup, lookup-insert, refl, some, suc, sym, true, zero, ℕ, ◌+◌, ◌==◌,
  ◌||◌, ◌∙◌, ◌∷◌, ◌≡◌, ◌⊎◌,
}
use pypipegraph.Session.{
  History, LoopEnd, Outcomes, Progress, RoundEnd, Rounds, after_round, conclude_run, dict_equal,
  end_run, failed_entry, failures, included, interrupted, is_failed, left_loop, loop, merge,
  raised_inside, returned, round_raised, run, run_again, run_result, save_strikes, too_deep,
}
use pypipegraph.Shared.{found}

included-lookup :
    (d e : Dict String) (k v : String)
    → included d e ≡ true
    → lookup k d ≡ some v
    → lookup k e ≡ some v
unfolding lookup
included-lookup [] e k v h found = cc
included-lookup ((j, w) ∷ d) e k v h found = elim (Bool-cases (j == k)) [
  | inl same ↦ elim (Option-cases (lookup j e)) [
    | inl (w', there) ↦ ground (arith, eq_iff j k, eq_iff w' w)
    | inr missing ↦ absurd (ground (arith, h, missing))
  ]
  | inr other ↦ included-lookup d e k v (ground (arith, h)) (ground (arith, other, found))
]

lookup-included :
    (d e : Dict String) (k : String)
    → included d e ≡ true
    → included e d ≡ true
    → lookup k d ≡ lookup k e
lookup-included d e k de ed = elim (Option-cases (lookup k d)) [
  | inl (v, found) ↦ found ∙ sym (included-lookup d e k v de found)
  | inr missing ↦ elim (Option-cases (lookup k e)) [
    | inl (v, found) ↦ absurd (let back = included-lookup e d k v ed found in cc (back, missing))
    | inr missing' ↦ missing ∙ sym missing'
  ]
]

dict_equal-lookup :
    (d e : Dict String) (k : String) → dict_equal d e ≡ true → lookup k d ≡ lookup k e
unfolding dict_equal
dict_equal-lookup d e k h = lookup-included d e k (ground (arith, h)) (ground (arith, h))

module _ {Payload : Type 0} where
  merge_step_keeps :
      (k j : String) (v : RecordedJobOutcome Payload) (final : Outcomes Payload)
      → failed_entry (lookup j final) ≡ true
      → lookup j (if failed_entry (lookup k final) then final else insert k v final)
        ≡ lookup j final
  merge_step_keeps k j v final h = elim (Bool-cases (failed_entry (lookup k final))) [
    | inl yes_k ↦ rw (yes_k) refl
    | inr no_k ↦ rw (no_k) ground (arith, lookup-insert k j v final, eq_iff k j, h)
  ]

  merge_keeps :
      (result final : Outcomes Payload) (j : String)
      → failed_entry (lookup j final) ≡ true
      → lookup j (merge result final) ≡ lookup j final
  unfolding merge
  merge_keeps [] final j h = refl
  merge_keeps ((k, v) ∷ result) final j h =
      let step = merge_step_keeps k j v final h in
      merge_keeps result _ j (ap failed_entry step ∙ h) ∙ step

  failures-is_empty :
      (final : Outcomes Payload) (j : String) (r : RecordedJobOutcome Payload)
      → is_empty (failures final) ≡ true
      → lookup j final ≡ some r
      → is_failed r.outcome ≡ false
  unfolding failures lookup
  failures-is_empty [] j r h found = cc
  failures-is_empty ((k, v) ∷ final) j r h found = elim (Bool-cases (is_failed v.outcome)) [
    | inl bad ↦ absurd (ground (arith, h, bad))
    | inr good ↦ elim (Bool-cases (k == j)) [
      | inl same ↦ ground (arith, good, same, found)
      | inr other ↦
          failures-is_empty final j r (ground (arith, good, h)) (ground (arith, other, found))
    ]
  ]

  stored_round :
      (p : Progress Payload) (new_history : History) (j : String)
      → lookup j p.stored ≡ lookup j p.history
      → lookup j (if dict_equal p.history new_history then p.stored else new_history)
        ≡ lookup j new_history
  stored_round p new_history j h = elim (Bool-cases (dict_equal p.history new_history)) [
    | inl same ↦ rw (same) (h ∙ dict_equal-lookup p.history new_history j same)
    | inr other ↦ rw (other) refl
  ]

  stored_after :
      (strikes : Bool) (p : Progress Payload) (new_history : History) (j : String)
      → (p.keyboard ≡ true) ⊎ (lookup j p.stored ≡ lookup j p.history)
      → ((p.keyboard || strikes) ≡ true)
        ⊎ (lookup j (if dict_equal p.history new_history then p.stored else new_history)
            ≡ lookup j (if strikes then p.history else new_history))
  stored_after true p new_history j h = inl (ground arith)
  stored_after false p new_history j (inl k) = inl (ground (arith, k))
  stored_after false p new_history j (inr h) = inr (stored_round p new_history j h)

  concluded_result :
      (p : Progress Payload) (f : Outcomes Payload) (j : String) (r : RecordedJobOutcome Payload)
      → is_empty (failures p.final_result) ≡ true
      → conclude_run true false p ≡ run_result f
      → lookup j f ≡ some r
      → lookup j p.final_result ≡ some r
  unfolding conclude_run
  concluded_result p f j r none_failed h found = ground (arith, none_failed, h, found)

  -- With the default arguments, what follows the loop returns a result only if no job in it
  -- failed, or if a restart was asked for.
  conclude_run-failures :
      (restart : Bool) (p : Progress Payload) (f : Outcomes Payload) (j : String)
      (r : RecordedJobOutcome Payload)
      → conclude_run true restart p ≡ run_result f
      → lookup j f ≡ some r
      → (restart ≡ true) ⊎ (is_failed r.outcome ≡ false)
  unfolding conclude_run
  conclude_run-failures true p f j r h found = inl refl
  conclude_run-failures false p f j r h found =
      elim (Bool-cases (is_empty (failures p.final_result))) [
        | inl none_failed ↦ inr (
            failures-is_empty p.final_result j r none_failed
              (concluded_result p f j r none_failed h found))
        | inr some_failed ↦ absurd (ground (arith, h, some_failed))
      ]

  end_run-failures :
      (restart : Bool) (end : LoopEnd Payload) (p : Progress Payload) (f : Outcomes Payload)
      (j : String) (r : RecordedJobOutcome Payload)
      → end_run true restart end p ≡ run_result f
      → lookup j f ≡ some r
      → (restart ≡ true) ⊎ (is_failed r.outcome ≡ false)
  end_run-failures restart left_loop p f j r h found = conclude_run-failures restart p f j r h found
  end_run-failures restart too_deep p f j r h found = absurd (cc h)
  end_run-failures restart raised_inside p f j r h found = absurd (cc h)

  -- A property of the progress that a round's result and the flags leave alone.
  record IsKept (P : Progress Payload → Type 0) : Type 0 where
    round :
        (strikes : Bool) (jobs : List String) (result : Outcomes Payload) (new_history : History)
        (p : Progress Payload)
        → P p
        → P (after_round strikes jobs result new_history p)
    ended :
        (p : Progress Payload) (aborted : Bool) (run_id : ℕ)
        → P p
        → P (record p { aborted = aborted; run_id = run_id })
    struck : (p : Progress Payload) → P p → P (record p { keyboard = true })

  module _ (R : Rounds Payload) {P : Progress Payload → Type 0} (kept : IsKept P) where
    either :
        (b : Bool) (x y : LoopEnd Payload × Progress Payload × R.World)
        → P x.1
        → P y.1
        → P (if b then x else y).1
    either true x y hx hy = hx
    either false x y hx hy = hy

    turn_keeps :
        (max_runs : ℕ) (p : Progress Payload) (w : R.World) (end : RoundEnd Payload)
        → ((q : Progress Payload) (w' : R.World) → P q → P (loop R max_runs q w').1)
        → P p
        → (R.runner_run p.history p.result p.jobs_already_run w).0 ≡ end
        → P (loop R (suc max_runs) p w).1
    unfolding loop
    turn_keeps max_runs p w (returned result new_history aborted) rest h e =
        rw (e, loop) (kept.ended _ aborted (p.run_id + 1) (kept.round _ _ result new_history p h))
    turn_keeps max_runs p w (run_again result new_history) rest h e =
        let w' = (R.runner_run p.history p.result p.jobs_already_run w).1 in
        let p' = after_round (save_strikes R p new_history w') (R.jobs w') result new_history p in
        let h' = kept.round (save_strikes R p new_history w') (R.jobs w') result new_history p h in
        rw (e, loop)
          (either (save_strikes R p new_history w') (left_loop, p', w') (loop R max_runs p' w') h'
            (rest p' w' h'))
    turn_keeps max_runs p w interrupted rest h e = rw (e, loop) (kept.struck p h)
    turn_keeps max_runs p w round_raised rest h e = rw (e, loop) h

    loop_keeps :
        (max_runs : ℕ) (p : Progress Payload) (w : R.World) → P p → P (loop R max_runs p w).1
    loop_keeps zero p w h = unfold loop in h
    loop_keeps (suc max_runs) p w h =
        turn_keeps max_runs p w _ (λ q w' hq. loop_keeps max_runs q w' hq) h refl

  module _ (R : Rounds Payload) where
    -- A job that failed in one round of `_run` keeps that entry in the final result, whatever the
    -- later rounds say of it.
    failure_kept :
        (max_runs : ℕ) (p : Progress Payload) (w : R.World) (j : String)
        → failed_entry (lookup j p.final_result) ≡ true
        → lookup j (loop R max_runs p w).1.final_result ≡ lookup j p.final_result
    failure_kept max_runs p w j h =
        loop_keeps R {P = λ q. lookup j q.final_result ≡ lookup j p.final_result}
          (record {
            round = λ strikes jobs result new_history q e.
                unfold after_round in
                merge_keeps result q.final_result j (ap failed_entry e ∙ h) ∙ e;
            ended = λ q aborted run_id e. e;
            struck = λ q e. e;
          })
          max_runs p w refl

    -- If the file of the history agrees with the history at hand before the loop of `_run`, it
    -- does so after it, although a history equal to the one before is not written; unless a
    -- KeyboardInterrupt ended the loop, which may come while the history is saved.
    pub stored_current :
        (max_runs : ℕ) (p : Progress Payload) (w : R.World) (j : String)
        → lookup j p.stored ≡ lookup j p.history
        → let q = (loop R max_runs p w).1 in
          (q.keyboard ≡ true) ⊎ (lookup j q.stored ≡ lookup j q.history)
    stored_current max_runs p w j h =
        loop_keeps R {P = λ q. (q.keyboard ≡ true) ⊎ (lookup j q.stored ≡ lookup j q.history)}
          (record {
            round = λ strikes jobs result new_history q e.
                unfold after_round in stored_after strikes q new_history j e;
            ended = λ q aborted run_id e. e;
            struck = λ q e. inl refl;
          })
          max_runs p w (inr h)

    -- `_run` with its default arguments returns a result only if no job in it failed, or if a
    -- restart was asked for at the console in the meantime.
    pub run_returns_clean :
        (restart : Bool) (history : History) (run_id : ℕ) (w : R.World) (f : Outcomes Payload)
        (j : String) (r : RecordedJobOutcome Payload)
        → run R true restart history run_id w ≡ run_result f
        → lookup j f ≡ some r
        → (restart ≡ true) ⊎ (is_failed r.outcome ≡ false)
    unfolding run
    run_returns_clean restart history run_id w f j r h found =
        end_run-failures restart _ _ f j r h found
