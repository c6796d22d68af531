-- ===== src/Shared/Safety.antt =====
-- An output that a graph uses stays, whatever jobs of other graphs do to the directory.
use pypipegraph.Exec.{
  Keeps, Keeps-bind, Keeps-expect, Keeps-throw_if, Result, pure, raise, return, ◌>>=◌, ◌>>◌,
}
use pypipegraph.Files.{FileSystem, Hashing, StoredHash}
use pypipegraph.Jobs.MultiFile.{JobException, run_multi_file}
use pypipegraph.Prelude.{
  Bool, Bool-cases, Dict, List, Option, String, [], arith, eq_iff, inl, inr, is_empty, is_some,
  lookup, lookup-insert, none, not, some, ◌&&◌, ◌==◌, ◌||◌, ◌∷◌, ◌≢◌,
}
use pypipegraph.Shared.{
  SharedDir, SharedJob, after_build, build_output, check_missing, clean_if, find_or_build,
  finish_shared, found, hash_outputs, holds_file, link_input, log_local_usage, log_source,
  log_usage, log_use, output_hashes, report, run_others, run_shared, store_build, target,
  with_folder, write_source,
}
use pypipegraph.Shared.Entries.{all_of, any_of, is_plain, missing_entry, missing_outputs}
use pypipegraph.Shared.Keeps.{IsHeld, clean_up-Keeps, link_input-Keeps, store_build-Keeps}

module _ {H : Hashing} (user key output_key : String) (folder : FileSystem H) where
  after_build-Keeps :
      (j : SharedJob H) (r : Result JobException (Dict StoredHash)) (f : FileSystem H)
      → Keeps (IsHeld user key output_key folder) (after_build j r f)
  after_build-Keeps j (raise e) f s held_before = held_before
  after_build-Keeps j (return res) f s held_before =
      Keeps-bind (link_input j.by_input_key (j.hash_hashes res)) (λ _. pure res)
        (link_input-Keeps user key output_key folder j.by_input_key (j.hash_hashes res))
        (λ _ s h. h) (store_build j.build_name (j.hash_hashes res) f s)
        (store_build-Keeps user key output_key folder j.build_name (j.hash_hashes res) f s
          held_before)

  build_output-Keeps :
      (j : SharedJob H) → Keeps (IsHeld user key output_key folder) (build_output j)
  unfolding build_output
  build_output-Keeps j =
      let (r, f) = run_multi_file H j.job j.historical_output (λ fn. none) in
      after_build-Keeps j r f

  find_or_build-Keeps :
      (j : SharedJob H) → Keeps (IsHeld user key output_key folder) (find_or_build j)
  unfolding find_or_build
  find_or_build-Keeps j s held_before = elim (Bool-cases (all_of (found j s) j.job.files)) [
    | inl full ↦ rw full held_before
    | inr partial ↦ elim (Bool-cases (any_of (found j s) j.job.files)) [
      | inl some_there ↦ rw (partial, some_there) held_before
      | inr nothing ↦
          rw (partial, nothing)
            (Keeps-bind (build_output j) (λ res. pure (some res)) (build_output-Keeps j)
              (λ res s h. h) s held_before)
    ]
  ]

  check_missing-Keeps :
      (j : SharedJob H) (was_building : Bool)
      → Keeps (IsHeld user key output_key folder) (check_missing j was_building)
  check_missing-Keeps j was_building s =
      Keeps-throw_if (IsHeld user key output_key folder)
        (was_building && not (is_empty j.job.files)
          || not (all_of (holds_file (target j.by_input_key s)) j.job.files))
        missing_outputs s

  log_source-Keeps : (j : SharedJob H) → Keeps (IsHeld user key output_key folder) (log_source j)
  log_source-Keeps j s held_before = write (lookup j.usage_dir_hash s.sources)
    where
      write : (o : Option String) → IsHeld user key output_key folder (write_source j o s).1
      write none = held_before
      write (some text) = elim (Bool-cases (text == j.abs_hd)) [
        | inl same ↦ rw same held_before
        | inr differs ↦ rw differs held_before
      ]

  -- The job of another graph
  log_usage-Keeps :
      (j : SharedJob H)
      → j.usage_dir_hash ≢ user
      → Keeps (IsHeld user key output_key folder) (log_usage j)
  unfolding log_usage
  log_usage-Keeps j other =
      Keeps-bind (log_source j) (λ _. log_use j) (log_source-Keeps j)
        λ _ s (u, l, d). (
          ground (
            arith,
            lookup-insert j.usage_dir_hash user j.by_input_key s.uses,
            eq_iff j.usage_dir_hash user,
          ),
          l,
          d,
        )

  pub clean_if-Keeps :
      (j : SharedJob H) (built : Option (Dict StoredHash))
      → Keeps (IsHeld user key output_key folder) (clean_if j built)
  clean_if-Keeps j built s held_before = elim (Bool-cases (is_some built || not j.in_history)) [
    | inl on ↦ rw on (clean_up-Keeps user key output_key folder j s held_before)
    | inr off ↦ rw off held_before
  ]

  finish_shared-Keeps :
      (j : SharedJob H) (built : Option (Dict StoredHash))
      → j.usage_dir_hash ≢ user
      → Keeps (IsHeld user key output_key folder) (finish_shared j built)
  unfolding finish_shared log_local_usage
  finish_shared-Keeps j built other =
      Keeps-bind (log_usage j) (λ _. hash_outputs j built >>= report j built)
        (log_usage-Keeps j other)
        λ _.
          Keeps-bind (hash_outputs j built) (report j built)
            (λ s.
              Keeps-expect (IsHeld user key output_key folder)
                (output_hashes j built (target j.by_input_key s) j.job.files []) missing_entry s)
            λ res.
              Keeps-bind (clean_if j built) (λ _. log_local_usage j >> pure (with_folder j res))
                (clean_if-Keeps j built) λ _ s h. h

  run_shared-Keeps :
      (j : SharedJob H)
      → j.usage_dir_hash ≢ user
      → Keeps (IsHeld user key output_key folder) (run_shared j)
  unfolding run_shared
  run_shared-Keeps j other s held_before =
      elim (Bool-cases (is_plain (lookup j.by_input_key s.by_input))) [
        | inl plain ↦ rw plain held_before
        | inr fine ↦ rw fine (
            Keeps-bind {P = IsHeld user key output_key folder} (find_or_build j)
              (λ built. check_missing j s.building >> finish_shared j built) (find_or_build-Keeps j)
              (λ built.
                Keeps-bind (check_missing j s.building) (λ _. finish_shared j built)
                  (check_missing-Keeps j s.building) (λ _. finish_shared-Keeps j built other))
              s held_before)
      ]

-- None of these runs is one of the graph `user`.
unfoldable pub OfOthers : {H : Hashing} → String → List (SharedJob H × Bool) → Type 0
OfOthers user [] = Unit
OfOthers user ((j, _) ∷ rest) = (j.usage_dir_hash ≢ user) × OfOthers user rest

module _ {H : Hashing} where
  -- As long as only jobs of other graphs run on the shared directory, one after the other and
  -- whether they build, fail or clean up, an output that a graph is logged to use stays as it is:
  -- the graph stays logged, its symlink stays and points to the same folder, and that folder
  -- has the same files.
  pub others_keep_output :
      (user key output_key : String) (folder : FileSystem H) (runs : List (SharedJob H × Bool))
      (s : SharedDir H)
      → OfOthers user runs
      → IsHeld user key output_key folder s
      → IsHeld user key output_key folder (run_others runs s)
  unfolding run_others OfOthers
  others_keep_output user key output_key folder [] s others held_before = held_before
  others_keep_output user key output_key folder ((j, building) ∷ runs) s (other, others)
        held_before =
      others_keep_output user key output_key folder runs
        (run_shared j (record s { building = building })).1 others
        (run_shared-Keeps user key output_key folder j other (record s { building = building })
          held_before)
