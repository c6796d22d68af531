-- ===== src/Jobs/Temp/Reuse.antt =====
-- jobs.py, MultiTempFileGeneratingJob.run: when files left by an earlier run are taken as they are.
use pypipegraph.Exec.{raise, return}
use pypipegraph.Files.{
  File, FileSystem, Hashing, StoredHash, compare_file_hashes, file_hash, same_stat, store,
}
use pypipegraph.Jobs.MultiFile.{FileJob, history_key_error, run_multi_file}
use pypipegraph.Jobs.MultiFile.Correct.{nuke_lem}
use pypipegraph.Jobs.Temp.{
  all_files_exist, all_ok, cleanup, compare_entry, new_hashes, rehash, run_temp,
}
use pypipegraph.Prelude.{
  Bool-cases, Dict, List, Option, Option-cases, String, [], arith, contains, contains-cons_cases,
  eq_iff, false, if◌then◌else◌, inl, inr, is_empty, lookup, lookup-insert, none, not, refl, some,
  subst, sym, true, ◌&&◌, ◌==◌, ◌∙◌, ◌∷◌, ◌≡◌, ◌≢◌, ◌⊎◌,
}

module _ (H : Hashing) where
  -- What is known of one file of a job that did not run its callback.
  pub record IsReused (hist res : Dict StoredHash) (fs : FileSystem H) (path : String)
      : Type 0 where
    pub file : File H
    pub old : StoredHash
    pub new : StoredHash
    pub on_disk : fs path ≡ some file
    pub remembered : lookup path hist ≡ some old
    pub reported : lookup path res ≡ some new
    pub equal : compare_file_hashes old new ≡ some true
    -- the old entry where the file has its time and size, and else the file's own hash
    pub source : new ≡ (if same_stat (file_hash H file) old then old else store (file_hash H file))

  all_ok-equal :
      (fns : List String) (hist new : Dict StoredHash) (path : String)
      → all_ok H fns hist new ≡ some true
      → contains fns path ≡ true
      → compare_entry H (lookup path hist) (lookup path new) ≡ some true
  unfolding all_ok contains
  all_ok-equal [] hist new path h m = cc
  all_ok-equal (fn ∷ fns) hist new path h m = elim (contains-cons_cases fn path fns m) [
    | inl same ↦
        subst (λ p. compare_entry H (lookup p hist) (lookup p new) ≡ some true) same (ground arith)
    | inr later ↦ all_ok-equal fns hist new path (ground arith) later
  ]

  new_hashes-lookup :
      (fns : List String) (hist new : Dict StoredHash) (fs : FileSystem H) (path : String)
      → new_hashes H fns hist fs ≡ some new
      → contains fns path ≡ true
      → (f : File H) × (fs path ≡ some f) × (lookup path new ≡ some (rehash H (lookup path hist) f))
  unfolding new_hashes
  new_hashes-lookup [] hist new fs path h m = absurd (unfold contains in cc m)
  new_hashes-lookup (fn ∷ fns) hist new fs path h m = elim (Option-cases (fs fn)) [
    | inr gone ↦ absurd (ground arith)
    | inl (f, there) ↦ elim (Option-cases (new_hashes H fns hist fs)) [
      | inr broke ↦ absurd (ground arith)
      | inl (rest, went) ↦ elim (Bool-cases (fn == path)) [
        | inl same ↦
            let e = (eq_iff fn path).0 same in
            (
              f,
              subst (λ p. fs p ≡ some f) e there,
              subst (λ p. lookup p new ≡ some (rehash H (lookup p hist) f)) e
                  (ground
                    (arith, lookup-insert fn fn (rehash H (lookup fn hist) f) rest, eq_iff fn fn)),
            )
        | inr other ↦ elim (contains-cons_cases fn path fns m) [
          | inl same ↦ absurd (ground (arith, eq_iff fn path))
          | inr later ↦
              let (g, on_disk, found) = new_hashes-lookup fns hist rest fs path went later in
              (g, on_disk, ground (arith, lookup-insert fn path (rehash H (lookup fn hist) f) rest))
        ]
      ]
    ]
  ]

  entries_equal :
      (old new : Option StoredHash)
      → compare_entry H old new ≡ some true
      → (o : StoredHash) × (n : StoredHash) × (old ≡ some o)
        × (new ≡ some n)
        × (compare_file_hashes o n ≡ some true)
  unfolding compare_entry
  entries_equal (some o) (some n) h = (o, n, refl, refl, h)
  entries_equal (some o) none h = absurd (ground arith)
  entries_equal none (some n) h = absurd (ground arith)
  entries_equal none none h = absurd (ground arith)

  -- The files that are looked at are there, so that `stat` finds them.
  new_hashes-all_files_exist :
      (fns : List String) (hist : Dict StoredHash) (fs : FileSystem H)
      → all_files_exist H fns fs ≡ true
      → new_hashes H fns hist fs ≢ none
  unfolding new_hashes all_files_exist
  new_hashes-all_files_exist [] hist fs there gone = absurd (cc gone)
  new_hashes-all_files_exist (fn ∷ fns) hist fs there gone = elim (Option-cases (fs fn)) [
    | inr absent ↦ absurd (ground (arith, there, absent))
    | inl (f, found) ↦ elim (Option-cases (new_hashes H fns hist fs)) [
      | inr broke ↦ new_hashes-all_files_exist fns hist fs (ground (arith, there)) broke
      | inl (rest, went) ↦ absurd (ground (arith, gone, found, went))
    ]
  ]

  -- A temporary job does one of three things: it runs as a file generating job does, it raises the
  -- KeyError of an incomplete entry with the files untouched, or it leaves all files as they are and
  -- returns. In the last case the history was not empty, and each of its files exists, has an
  -- entry in the history, and is reported with an entry that compares equal to that one: the
  -- same entry if time and size are as recorded, and the file's actual hash if they are not.
  pub temp_reuse :
      (job : FileJob H) (hist : Dict StoredHash) (fs : FileSystem H)
      → (run_temp H job hist fs ≡ run_multi_file H job hist fs)
        ⊎ (run_temp H job hist fs ≡ (raise history_key_error, fs))
        ⊎ ((res : Dict StoredHash) × (run_temp H job hist fs ≡ (return res, fs))
            × (is_empty hist ≡ false)
            × ((path : String) → contains job.files path ≡ true → IsReused hist res fs path))
  unfolding run_temp
  temp_reuse job hist fs =
      elim (Bool-cases (not (is_empty hist) && all_files_exist H job.files fs)) [
        | inr rebuild ↦ inl (rw rebuild)
        | inl maybe ↦ elim (Option-cases (new_hashes H job.files hist fs)) [
          | inr gone ↦
              absurd (new_hashes-all_files_exist job.files hist fs (ground (arith, maybe)) gone)
          | inl (new, hashed) ↦ elim (Option-cases (all_ok H job.files hist new)) [
            | inr broke ↦ inr (inl (rw (maybe, hashed, broke)))
            | inl (false, differs) ↦ inl (rw (maybe, hashed, differs))
            | inl (true, same) ↦ inr (
                inr (
                  new,
                  rw (maybe, hashed, same),
                  ground arith,
                  λ path m.
                      let (f, on_disk, found) =
                        new_hashes-lookup job.files hist new fs path hashed m in
                      let (o, n, e, e', equal) =
                        entries_equal (lookup path hist) (lookup path new)
                          (all_ok-equal job.files hist new path same m) in
                      record {
                        file = f;
                        old = o;
                        new = n;
                        on_disk = on_disk;
                        remembered = e;
                        reported = e';
                        equal = equal;
                        source = reuse_source (lookup path hist) o n f e (sym e' ∙ found);
                      },
                ))
          ]
        ]
      ]
    where
      reuse_source :
          (entry : Option StoredHash) (o n : StoredHash) (f : File H)
          → entry ≡ some o
          → some n ≡ some (rehash H entry f)
          → n ≡ (if same_stat (file_hash H f) o then o else store (file_hash H f))
      reuse_source none o n f e h = absurd (ground arith)
      reuse_source (some x) o n f e h = unfold rehash in ground arith

  -- After the cleanup none of the job's files exists and every other file is as it was.
  cleanup_removes :
      (job : FileJob H) (fs : FileSystem H) (path : String)
      → cleanup H job fs path ≡ (if contains job.files path then none else fs path)
  unfolding cleanup
  cleanup_removes job fs path = nuke_lem H job.files fs path
