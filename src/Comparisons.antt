-- ===== src/Comparisons.antt =====
-- python/pypipegraph2/history_comparisons.py: the engine asks whether a changed history entry of a
-- job matters to another job. `V` is a hash as `json.loads` gives it, and `compare_hashes` that
-- method of the upstream job; `none` is an exception: a KeyError of the two histories, or one of `compare_hashes`.
use pypipegraph.Jobs.MultiFile.{missing}
use pypipegraph.Prelude.{
  Bool, Bool-cases, Dict, List, Option, Option-cases, String, [], ap, arith, contains,
  contains-cons_cases, eq_iff, false, if◌then◌else◌, inl, inr, lookup, none, refl, some, sym, true,
  ◌&&◌, ◌==◌, ◌>>?◌, ◌∙◌, ◌∷◌, ◌≡◌,
}
use pypipegraph.Shared.{found}

module _ {V : Type 0} (compare_hashes : V → V → Option Bool) where
  -- Both loops: stop at the first output that compares as altered.
  unfoldable pub any_altered : Dict V → Dict V → List String → Option Bool
  any_altered obj_last obj_now [] = some false
  any_altered obj_last obj_now (ip ∷ rest) =
      let after = any_altered obj_last obj_now rest in
      lookup ip obj_last >>? λ last. lookup ip obj_now >>? λ now.
      compare_hashes last now >>? λ same. if same then after else some true

  -- for ip in inputs: if ip in outputs
  unfoldable pub shared : List String → List String → List String
  shared [] outputs = []
  shared (ip ∷ inputs) outputs =
      let rest = shared inputs outputs in if contains outputs ip then ip ∷ rest else rest

  -- job_inputs[job_downstream_id], of a defaultdict(set)
  abbrev pub job_inputs_of : String → Dict (List String) → List String
  job_inputs_of job_id job_inputs = elim (lookup job_id job_inputs) [ none ↦ [] | some ips ↦ ips ]

  -- `job_inputs` is the runner's; the pair ends with "!!!" where a job is compared with itself.
  unfoldable pub history_is_different :
      (outputs : List String) (job_inputs : Dict (List String)) (job_downstream_id : String)
      (obj_last obj_now : Dict V)
      → Option Bool
  history_is_different outputs job_inputs job_downstream_id obj_last obj_now =
      if job_downstream_id == "!!!"
      then any_altered obj_last obj_now outputs
      else any_altered obj_last obj_now
          (shared (job_inputs_of job_downstream_id job_inputs) outputs)

  first_compared :
      (obj_last obj_now : Dict V) (ip : String) (rest : List String)
      → any_altered obj_last obj_now (ip ∷ rest) ≡ some false
      → (last : V) × (now : V) × (lookup ip obj_last ≡ some last)
        × (lookup ip obj_now ≡ some now)
        × (compare_hashes last now ≡ some true)
        × (any_altered obj_last obj_now rest ≡ some false)
  unfolding any_altered
  first_compared obj_last obj_now ip rest h = elim (Option-cases (lookup ip obj_last)) [
    | inr missing ↦ absurd (ground (arith, h, missing))
    | inl (last, was) ↦ elim (Option-cases (lookup ip obj_now)) [
      | inr missing ↦ absurd (ground (arith, h, was, missing))
      | inl (now, is_now) ↦ elim (Option-cases (compare_hashes last now)) [
        | inr missing ↦ absurd (ground (arith, h, was, is_now, missing))
        | inl (same, compared) ↦ elim (Bool-cases same) [
          | inl e ↦ (
            last,
            now,
            was,
            is_now,
            ground (arith, compared, e),
            ground (arith, h, was, is_now, compared, e),
          )
          | inr e ↦ absurd (ground (arith, h, was, is_now, compared, e))
        ]
      ]
    ]
  ]

  all_compared :
      (obj_last obj_now : Dict V) (names : List String) (ip : String)
      → any_altered obj_last obj_now names ≡ some false
      → contains names ip ≡ true
      → (last : V) × (now : V) × (lookup ip obj_last ≡ some last)
        × (lookup ip obj_now ≡ some now)
        × (compare_hashes last now ≡ some true)
  unfolding any_altered contains
  all_compared obj_last obj_now [] ip h member = absurd (ground (arith, member))
  all_compared obj_last obj_now (name ∷ names) ip h member =
      let (last, now, was, is_now, same, after) = first_compared obj_last obj_now name names h in
      elim (contains-cons_cases name ip names member) [
        | inl e ↦ (
          last,
          now,
          ap (λ n. lookup n obj_last) (sym e) ∙ was,
          ap (λ n. lookup n obj_now) (sym e) ∙ is_now,
          same,
        )
        | inr later ↦ all_compared obj_last obj_now names ip after later
      ]

  contains-shared :
      (inputs outputs : List String) (ip : String)
      → contains (shared inputs outputs) ip ≡ (contains inputs ip && contains outputs ip)
  unfolding shared contains
  contains-shared [] outputs ip = refl
  contains-shared (x ∷ inputs) outputs ip =
      ground (arith, contains-shared inputs outputs ip, eq_iff x ip)

  -- A change that is not reported to another job left every output that this job takes as it was:
  -- both histories have it, and the job's comparison finds the two equal.
  pub unreported_same :
      (outputs inputs : List String) (job_inputs : Dict (List String)) (job_downstream_id : String)
      (obj_last obj_now : Dict V) (ip : String)
      → (job_downstream_id == "!!!") ≡ false
      → lookup job_downstream_id job_inputs ≡ some inputs
      → history_is_different outputs job_inputs job_downstream_id obj_last obj_now ≡ some false
      → contains inputs ip ≡ true
      → contains outputs ip ≡ true
      → (last : V) × (now : V) × (lookup ip obj_last ≡ some last)
        × (lookup ip obj_now ≡ some now)
        × (compare_hashes last now ≡ some true)
  unfolding history_is_different
  unreported_same outputs inputs job_inputs job_downstream_id obj_last obj_now ip other found h
        needed has_ip =
      all_compared obj_last obj_now (shared inputs outputs) ip (ground (arith, other, found, h))
        (ground (arith, contains-shared inputs outputs ip, needed, has_ip))
