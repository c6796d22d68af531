-- ===== src/Runner/Balance.antt =====
-- runner.py: what `jobs_in_flight` and `jobs_all_cores_in_flight` count, over any interleaving of
-- the threads.
use pypipegraph.Prelude.{
  Bool, Dict, Option, String, [], ap, arith, eq_refl, false, get_elem?, if◌then◌else◌, inl, inr,
  none, not, refl, set, some, subst, suc, sym, total, total-set, true, ℕ, ◌&&◌, ◌+◌, ◌<◌, ◌∙◌, ◌≡◌,
  ◌⊎◌,
}
use pypipegraph.Runner.{
  Engine, JobError, Runner, Thread, between_jobs, busy, decrement, finish, is_multi, left_loop,
  lower, outputs_of, pick, pos, remove_first, settle, write_outcome, ℤ,
}
use pypipegraph.Runner.Counting.{
  Picked, Picked-pick, blocks, decrement-diff, diff, holds, occurrences, occurrences-remove,
}
use pypipegraph.Runner.Steps.{Block, Blocks, after_finish, begin, finishes, picks, put, then_step}

holds_after : (x : String) (c : Option ℕ) → holds x (after_finish c) ≡ 0
holds_after x none = refl
holds_after x (some c) = refl

blocks_after : (c : Option ℕ) → blocks (after_finish c) ≡ 0
blocks_after none = refl
blocks_after (some c) = refl

diff_cong : {a a' b b' : ℕ} → a ≡ a' → b ≡ b' → diff a b ≡ diff a' b'
diff_cong p q = cc (p, q)

lowered :
    (z z' : ℤ) (n n' drift : ℕ) (many failed_last : Bool)
    → z ≡ diff n drift
    → z' ≡ (if many then decrement z else z)
    → n' + (if not failed_last && many then 1 else 0) ≡ n
    → z' ≡ diff n' (drift + (if failed_last && many then 1 else 0))
lowered z z' n n' drift false true old new count =
    new ∙ old ∙ diff_cong (omega (arith, count)) (omega arith)
lowered z z' n n' drift false false old new count =
    new ∙ old ∙ diff_cong (omega (arith, count)) (omega arith)
lowered z z' n n' drift true true old new count =
    new ∙ ap decrement old ∙ decrement-diff n drift ∙ diff_cong (omega (arith, count)) (omega arith)
lowered z z' n n' drift true false old new count =
    let less : n ≡ suc n' = omega (arith, count) in
    let same : drift ≡ drift + 0 = omega arith in
    let last : diff (suc n') (suc drift) ≡ diff n' (drift + 0) = unfold diff in ap (diff n') same in
    new ∙ ap decrement (old ∙ ap (λ k. diff k drift) less) ∙ decrement-diff (suc n') drift ∙ last

module _ {En : Engine} where
  -- The list and the counter stand for what the threads have, less the drift.
  pub record IsCounted (drift : ℕ) (r : Runner En) : Type 0 where
    pub flight : (x : String) → occurrences x r.jobs_in_flight ≡ total (holds x) r.threads
    pub multi : r.jobs_all_cores_in_flight ≡ diff (total blocks r.threads) drift

  pick-IsCounted :
      (r r' : Runner En) (drift i : ℕ) (c : Option ℕ) (t : Thread)
      → IsCounted drift r
      → get_elem? r.threads i ≡ some (between_jobs c)
      → Picked r t r'
      → IsCounted drift (put i t r')
  pick-IsCounted r r' drift i c t counted at picked = record {
    flight = λ x. omega (
      arith,
      counted.flight x,
      picked.flight x,
      picked.weight (holds x) refl,
      total-set (holds x) r'.threads i t (between_jobs c) (picked.places i (between_jobs c) at),
    );
    multi =
        picked.multi (total blocks r.threads) drift counted.multi
        ∙ ap (λ n. diff n drift)
            (omega (
              arith,
              picked.weight blocks refl,
              total-set blocks r'.threads i t (between_jobs c)
                  (picked.places i (between_jobs c) at),
            ));
  }

  write_kept :
      (job_id : String) (settled : Dict String ⊎ JobError) (r : Runner En)
      → let r' = write_outcome job_id settled r in
        (r'.jobs_in_flight ≡ r.jobs_in_flight)
        × (r'.jobs_all_cores_in_flight ≡ r.jobs_all_cores_in_flight)
        × (r'.threads ≡ r.threads)
  unfolding write_outcome
  write_kept job_id (inl outputs) r = (refl, refl, refl)
  write_kept job_id (inr e) r = (refl, refl, refl)

  lower_counts :
      (c : Option ℕ) (r : Runner En)
      → ((lower c r).jobs_in_flight ≡ r.jobs_in_flight)
        × ((lower c r).threads ≡ r.threads)
        × ((lower c r).jobs_all_cores_in_flight ≡ (
            if is_multi c
            then decrement r.jobs_all_cores_in_flight
            else r.jobs_all_cores_in_flight))
  lower_counts none r = (refl, refl, refl)
  lower_counts (some c) r = ground arith

  finish_counted :
      (job_id : String) (c : Option ℕ) (outputs : Option (Dict String)) (e : Option JobError)
      (r : Runner En)
      → let r' = finish job_id c outputs e r in
        (r'.jobs_in_flight ≡ remove_first job_id r.jobs_in_flight)
        × (r'.threads ≡ r.threads)
        × (r'.jobs_all_cores_in_flight ≡ (
            if is_multi c
            then decrement r.jobs_all_cores_in_flight
            else r.jobs_all_cores_in_flight))
  unfolding finish
  finish_counted job_id c outputs e r =
      let settled = settle (outputs_of r job_id) outputs e in
      let written = write_outcome job_id settled r in
      let left = record written { jobs_in_flight = remove_first job_id written.jobs_in_flight } in
      let (flight, multi, threads) = write_kept job_id settled r in
      let (flight', threads', multi') = lower_counts c left in
      (
        flight' ∙ ap (remove_first job_id) flight,
        threads' ∙ threads,
        multi' ∙ ap (λ z. if is_multi c then decrement z else z) multi,
      )

  flying :
      (job_id : String) (r : Runner En) (drift i : ℕ) (c : Option ℕ) (failed_last : Bool)
      → IsCounted drift r
      → get_elem? r.threads i ≡ some (busy job_id c failed_last)
      → 0 < occurrences job_id r.jobs_in_flight
  flying job_id r drift i c failed_last counted at = ground (
    arith,
    counted.flight job_id,
    total-set (holds job_id) r.threads i left_loop (busy job_id c failed_last) at,
    eq_refl job_id,
  )

  finish-IsCounted :
      (r r' : Runner En) (drift i : ℕ) (job_id : String) (c : Option ℕ) (failed_last : Bool)
      → IsCounted drift r
      → get_elem? r.threads i ≡ some (busy job_id c failed_last)
      → r'.jobs_in_flight ≡ remove_first job_id r.jobs_in_flight
      → r'.threads ≡ r.threads
      → r'.jobs_all_cores_in_flight
        ≡ (if is_multi c then decrement r.jobs_all_cores_in_flight else r.jobs_all_cores_in_flight)
      → IsCounted (drift + (if failed_last && is_multi c then 1 else 0)) (put i (after_finish c) r')
  finish-IsCounted r r' drift i job_id c failed_last counted at flight threads multi =
      let at' = ap (λ ts. get_elem? ts i) threads ∙ at in
      let moved : (w : Thread → ℕ)
          → total w (set r'.threads i (after_finish c)) + w (busy job_id c failed_last)
            ≡ total w r'.threads + w (after_finish c) =
        λ w. total-set w r'.threads i (after_finish c) (busy job_id c failed_last) at' in
      record {
        flight = λ x.
            ap (occurrences x) flight
            ∙ omega (
              arith,
              occurrences-remove x job_id r.jobs_in_flight
                  (flying job_id r drift i c failed_last counted at),
              counted.flight x,
              ap (total (holds x)) threads,
              moved (holds x),
              holds_after x c,
            );
        multi =
            lowered r.jobs_all_cores_in_flight r'.jobs_all_cores_in_flight (total blocks r.threads)
              (total blocks (set r'.threads i (after_finish c))) drift (is_multi c) failed_last
              counted.multi multi
              (omega (arith, ap (total blocks) threads, moved blocks, blocks_after c));
      }

  step-IsCounted :
      (r s : Runner En) (drift n : ℕ) → IsCounted drift r → Block r n s → IsCounted (drift + n) s
  step-IsCounted r s drift n counted (picks i c at) =
      subst (λ d. IsCounted d s) (omega arith)
        (pick-IsCounted r (pick r).1 drift i c _ counted at (Picked-pick r c))
  step-IsCounted r s drift n counted (finishes i job_id c failed_last outputs e at) =
      let (flight, threads, multi) = finish_counted job_id c outputs e r in
      finish-IsCounted r _ drift i job_id c failed_last counted at flight threads multi

  reach-IsCounted :
      (r s : Runner En) (drift : ℕ) → IsCounted 0 r → Blocks r drift s → IsCounted drift s
  reach-IsCounted r s drift counted begin = counted
  reach-IsCounted r s drift counted (then_step reach step) =
      step-IsCounted _ s _ _ (reach-IsCounted r _ _ counted reach) step

  -- However the threads take turns, from a start with no job in flight: `jobs_in_flight` has each
  -- job as often as threads have it, and `jobs_all_cores_in_flight` is the number of threads with
  -- a job that needs several cores and did not fail last time, less the number of jobs so far
  -- that lowered the counter without having raised it.
  pub flight_counted :
      (r s : Runner En) (drift : ℕ)
      → ((x : String) → total (holds x) r.threads ≡ 0)
      → total blocks r.threads ≡ 0
      → r.jobs_in_flight ≡ []
      → r.jobs_all_cores_in_flight ≡ pos 0
      → Blocks r drift s
      → ((x : String) → occurrences x s.jobs_in_flight ≡ total (holds x) s.threads)
        × (s.jobs_all_cores_in_flight ≡ diff (total blocks s.threads) drift)
  flight_counted r s drift free light empty zero_start reach =
      let counted : IsCounted 0 r = record {
        flight = λ x. ap (occurrences x) empty ∙ unfold occurrences in sym (free x);
        multi = zero_start ∙ unfold diff in ap (λ n. diff n 0) (sym light);
      } in
      let after = reach-IsCounted r s drift counted reach in (after.flight, after.multi)
