-- ===== src/Jobs/Temp.antt =====
-- jobs.py, MultiTempFileGeneratingJob: files that go away once all dependents have run.
pub mod Reuse
use pypipegraph.Exec.{raise, return}
use pypipegraph.Files.{
  File, FileSystem, Hashing, StoredHash, compare_file_hashes, exists, file_hash, same_stat, store,
}
use pypipegraph.Jobs.MultiFile.{
  FileJob, Running, file_not_found, history_key_error, nuke, run_multi_file,
}
use pypipegraph.Prelude.{
  Bool, Dict, List, Option, String, [], false, if◌then◌else◌, insert, is_empty, lookup, none, not,
  some, true, ◌&&◌, ◌∷◌,
}

module _ (H : Hashing) where
  unfoldable pub all_files_exist : List String → FileSystem H → Bool
  all_files_exist [] fs = true
  all_files_exist (fn ∷ fns) fs = exists H fn fs && all_files_exist fns fs

  -- The historical entry where the file has its time and size, and a new hash otherwise.
  unfoldable pub rehash : Option StoredHash → File H → StoredHash
  rehash none f = store (file_hash H f)
  rehash (some old) f = if same_stat (file_hash H f) old then old else store (file_hash H f)

  -- The first loop; `none` is the FileNotFoundError of `stat`.
  unfoldable pub new_hashes :
      List String → Dict StoredHash → FileSystem H → Option (Dict StoredHash)
  unfolding rehash
  new_hashes [] hist fs = some []
  new_hashes (fn ∷ fns) hist fs = elim (fs fn) [
    | none ↦ none
    | some f ↦ elim (new_hashes fns hist fs) [
      | none ↦ none
      | some rest ↦ some (insert fn (rehash (lookup fn hist) f) rest)
    ]
  ]

  -- The second loop: is every file in both, and does it compare equal? `none` is the KeyError.
  unfoldable pub compare_entry : Option StoredHash → Option StoredHash → Option Bool
  compare_entry (some old) (some new) = compare_file_hashes old new
  compare_entry _ _ = some false

  unfoldable pub all_ok : List String → Dict StoredHash → Dict StoredHash → Option Bool
  all_ok [] hist new = some true
  all_ok (fn ∷ fns) hist new = elim (compare_entry (lookup fn hist) (lookup fn new)) [
    | none ↦ none
    | some same ↦ elim (all_ok fns hist new) [ none ↦ none | some rest ↦ some (same && rest) ]
  ]

  unfoldable pub run_temp : FileJob H → Dict StoredHash → Running H (Dict StoredHash)
  run_temp job hist fs =
      if not (is_empty hist) && all_files_exist job.files fs
      then elim (new_hashes job.files hist fs) [
        | none ↦ (raise file_not_found, fs)
        | some new ↦ elim (all_ok job.files hist new) [
          | none ↦ (raise history_key_error, fs)
          | some ok ↦ if ok then (return new, fs) else run_multi_file H job hist fs
        ]
      ]
      else run_multi_file H job hist fs

  unfoldable pub cleanup : FileJob H → FileSystem H → FileSystem H
  cleanup job = nuke H job.files
