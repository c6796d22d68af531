-- ===== src/Jobs/MultiFile/Correct.antt =====
-- jobs.py, MultiFileGeneratingJob.run: a run that returns rebuilt every file.
use mathlib.Core.Path.{fun_ext}
use pypipegraph.Enums.{is_external}
use pypipegraph.Exec.{raise, return, ◌>>=◌}
use pypipegraph.Files.{FileSystem, Hashing, StoredHash, exists, unlink}
use pypipegraph.Jobs.MultiFile.{
  ChildEnd, FileJob, JobException, Running, Scan, check_outputs, conclude, conclude_here,
  empty_files, empty_ones, exited, finished, generate, hash_all, job_died, job_error,
  job_error_died, missing, missing_files, neither, not_implemented, nuke, run_multi_file, signaled,
  unlink_if_there, unlink_present, user_exception,
}
use pypipegraph.Jobs.MultiFile.Hashes.{IsMade, fs-hash_all, hash_all-lookup, size-empty_ones}
use pypipegraph.Prelude.{
  Bool, Bool-cases, Dict, List, Option-cases, String, [], ap, arith, contains, eq_iff, false,
  if◌then◌else◌, inl, inr, is_empty, length, lookup, nat_eq, none, refl, subst, sym, true, ◌+◌,
  ◌==◌, ◌∙◌, ◌∷◌, ◌≡◌, ◌⊎◌,
}

module _ (H : Hashing) where
  -- The file system without the files named.
  abbrev pub without : List String → FileSystem H → FileSystem H
  without fns fs path = if contains fns path then none else fs path

  unlink_if_there_lem :
      (fn path : String) (fs : FileSystem H)
      → unlink_if_there H fn fs path ≡ (if fn == path then none else fs path)
  unfolding unlink_if_there unlink
  unlink_if_there_lem fn path fs = elim (Option-cases (fs fn)) [
    | inl (f, there) ↦ ground arith
    | inr gone ↦ elim (Bool-cases (fn == path)) [
      | inl same ↦ ground (arith, subst (λ p. fs p ≡ none) ((eq_iff fn path).0 same) gone)
      | inr other ↦ ground arith
    ]
  ]

  after-unlink_present :
      (fns : List String) (s : Scan H) (path : String)
      → (unlink_present H fns s).after path ≡ without fns s.after path
  unfolding unlink_present contains
  after-unlink_present [] s path = refl
  after-unlink_present (fn ∷ fns) s path = ground (
    arith,
    after-unlink_present fns
        (record {
          all_present = false;
          del_counter = s.del_counter + (if exists H fn s.after then 1 else 0);
          after = unlink_if_there H fn s.after;
        })
        path,
    unlink_if_there_lem fn path s.after,
  )

  pub nuke_lem :
      (fns : List String) (fs : FileSystem H) (path : String)
      → nuke H fns fs path ≡ without fns fs path
  unfolding nuke contains
  nuke_lem [] fs path = refl
  nuke_lem (fn ∷ fns) fs path =
      ground (arith, nuke_lem fns (unlink_if_there H fn fs) path, unlink_if_there_lem fn path fs)

  all_present-unlink_present :
      (fns : List String) (s : Scan H)
      → s.all_present ≡ false
      → (unlink_present H fns s).all_present ≡ false
  unfolding unlink_present
  all_present-unlink_present [] s h = h
  all_present-unlink_present (fn ∷ fns) s h = all_present-unlink_present fns _ refl

  not_all_present :
      (fns : List String) (s : Scan H) (fn : String) (rest : List String)
      → fns ≡ fn ∷ rest
      → (unlink_present H fns s).all_present ≡ false
  unfolding unlink_present
  not_all_present [] s fn rest h = cc
  not_all_present (x ∷ fns) s fn rest h = all_present-unlink_present fns _ refl

  -- A job with a file never takes the shortcut: it calls the callback, on the file system
  -- without any of its files.
  pub run_calls_callback :
      (job : FileJob H) (hist : Dict StoredHash) (fs : FileSystem H) (fn : String)
      (fns : List String)
      → job.files ≡ fn ∷ fns
      → run_multi_file H job hist fs
        ≡ (generate H job >>= λ _. check_outputs H job >>= λ _. hash_all H job.files [])
            (without job.files fs)
  unfolding run_multi_file
  run_calls_callback job hist fs fn fns shape =
      let rebuild = not_all_present job.files start fn fns shape in
      elim (Bool-cases (nat_eq scan.del_counter (length job.files))) [
        | inl all_deleted ↦ rw (rebuild, all_deleted) (ap rest (fun_ext once))
        | inr some_left ↦ rw (rebuild, some_left) (ap rest (fun_ext twice))
      ]
    where
      start : Scan H
      start = record { all_present = true; del_counter = 0; after = fs }

      scan : Scan H
      scan = unlink_present H job.files start

      rest : Running H (Dict StoredHash)
      rest = generate H job >>= λ _. check_outputs H job >>= λ _. hash_all H job.files []

      once : (path : String) → scan.after path ≡ without job.files fs path
      once path = after-unlink_present job.files _ path

      twice : (path : String) → nuke H job.files scan.after path ≡ without job.files fs path
      twice path = ground (arith, nuke_lem job.files scan.after path, once path)

  -- What a whole run that returned did.
  pub record IsRebuilt (job : FileJob H) (hist : Dict StoredHash) (fs : FileSystem H)
      (res : Dict StoredHash) : Type 0 where
    -- the callback got the files out of the way, and ended well
    pub finished_well : (job.generating_function (without job.files fs)).0 ≡ finished
    -- nothing touched the files after it
    pub left_alone :
        (run_multi_file H job hist fs).1 ≡ (job.generating_function (without job.files fs)).1
    pub made :
        (path : String)
        → contains job.files path ≡ true
        → IsMade H job (run_multi_file H job hist fs).1 res path
    pub no_more : (path : String) → contains job.files path ≡ false → lookup path res ≡ none

  conclude_cases :
      (forked : Bool) (end : ChildEnd) (fs : FileSystem H)
      → ((end ≡ finished)
          × ((if forked then conclude H end fs else conclude_here H end fs) ≡ (return tt, fs)))
        ⊎ ((e : JobException) × ((if forked then conclude H end fs else conclude_here H end fs)
              ≡ (raise e, fs)))
  unfolding conclude conclude_here
  conclude_cases true finished fs = inl (refl, refl)
  conclude_cases true (exited code true) fs = inr (job_error, refl)
  conclude_cases true (exited code false) fs = inr (job_error_died, refl)
  conclude_cases true (signaled number) fs = inr (job_died number, refl)
  conclude_cases true neither fs = inr (not_implemented, refl)
  conclude_cases false finished fs = inl (refl, refl)
  conclude_cases false (exited code read) fs = inr (user_exception, refl)
  conclude_cases false (signaled number) fs = inr (user_exception, refl)
  conclude_cases false neither fs = inr (user_exception, refl)

  generate_cases :
      (job : FileJob H) (fs : FileSystem H)
      → (((job.generating_function fs).0 ≡ finished)
          × (generate H job fs ≡ (return tt, (job.generating_function fs).1)))
        ⊎ ((e : JobException) × (generate H job fs ≡ (raise e, (job.generating_function fs).1)))
  unfolding generate
  generate_cases job fs =
      let (end, fs') = job.generating_function fs in
      conclude_cases (is_external job.resources) end fs'

  check_outputs_cases :
      (job : FileJob H) (fs : FileSystem H)
      → ((check_outputs H job fs ≡ (return tt, fs))
          × (job.empty_ok ≡ false → is_empty (empty_ones H job.files fs) ≡ true))
        ⊎ ((e : JobException) × (check_outputs H job fs ≡ (raise e, fs)))
  unfolding check_outputs
  check_outputs_cases job fs = elim (Bool-cases (is_empty (missing H job.files fs))) [
    | inr some_missing ↦ inr (missing_files (missing H job.files fs), rw some_missing)
    | inl none_missing ↦ elim (Bool-cases job.empty_ok) [
      | inl allowed ↦ inl (rw (none_missing, allowed), λ h. cc)
      | inr forbidden ↦ elim (Bool-cases (is_empty (empty_ones H job.files fs))) [
        | inl none_empty ↦ inl (rw (none_missing, forbidden, none_empty), λ h. none_empty)
        | inr some_empty ↦
            inr (empty_files (empty_ones H job.files fs), rw (none_missing, forbidden, some_empty))
      ]
    ]
  ]

  -- The hashes of files that passed the checks.
  hashed_files :
      (job : FileJob H) (res : Dict StoredHash) (fs : FileSystem H)
      → (job.empty_ok ≡ false → is_empty (empty_ones H job.files fs) ≡ true)
      → (hash_all H job.files [] fs).0 ≡ return res
      → ((path : String) → contains job.files path ≡ true → IsMade H job fs res path)
        × ((path : String) → contains job.files path ≡ false → lookup path res ≡ none)
  hashed_files job res fs not_empty e = (
    λ path m. elim (hash_all-lookup H job.files [] res fs path e) [
      | inl (_, (f, on_disk, hashed)) ↦ record {
        file = f;
        on_disk = on_disk;
        hashed = hashed;
        not_empty = λ strict. size-empty_ones H job.files fs path f (not_empty strict) m on_disk;
      }
      | inr (not_there, _) ↦ absurd (ground arith)
    ],
    λ path m. elim (hash_all-lookup H job.files [] res fs path e) [
      | inl (also, _) ↦ absurd (ground arith)
      | inr (_, kept) ↦ kept ∙ (unfold lookup in refl)
    ],
  )

  -- When a job with a file returns, whatever was on disk before: its callback ran on the file
  -- system without any of the job's files and ended without an error, the run changed no file
  -- after that, and each file of the job exists, is not empty unless that is allowed, and has
  -- in the result the hash, time and size that it has on disk. The result names no other file.
  pub run_rebuilds :
      (job : FileJob H) (hist : Dict StoredHash) (fs : FileSystem H) (fn : String)
      (fns : List String) (res : Dict StoredHash)
      → job.files ≡ fn ∷ fns
      → (run_multi_file H job hist fs).0 ≡ return res
      → IsRebuilt job hist fs res
  run_rebuilds job hist fs fn fns res shape returned =
      let called = run_calls_callback job hist fs fn fns shape in
      let clean = without job.files fs in
      let fs' = (job.generating_function clean).1 in
      elim (generate_cases job clean) [
        | inr (e, broke) ↦
            let stopped : run_multi_file H job hist fs ≡ (raise e, fs') = called ∙ rw broke in
            absurd (ground (arith, stopped))
        | inl (well, generated) ↦ elim (check_outputs_cases job fs') [
          | inr (e, broke) ↦
              let stopped : run_multi_file H job hist fs ≡ (raise e, fs') =
                called ∙ rw (generated, broke) in
              absurd (ground (arith, stopped))
          | inl (passed, not_empty) ↦
              let whole : run_multi_file H job hist fs ≡ hash_all H job.files [] fs' =
                called ∙ rw (generated, passed) in
              let same_fs = ap (λ p. p.1) whole ∙ fs-hash_all H job.files [] fs' in
              let (made, no_more) =
                hashed_files job res fs' not_empty (sym (ap (λ p. p.0) whole) ∙ returned) in
              record {
                finished_well = well;
                left_alone = same_fs;
                made = λ path m. rw same_fs (made path m);
                no_more = no_more;
              }
        ]
      ]
