-- ===== src/Jobs/MultiFile.antt =====
-- jobs.py, MultiFileGeneratingJob.run.
pub mod Hashes
pub mod Correct
use pypipegraph.Enums.{Resources, is_external}
use pypipegraph.Exec.{Exec, pure, raise, return, throw, ◌>>=◌}
use pypipegraph.Files.{File, FileSystem, Hashing, StoredHash, exists, hash_file, store, unlink}
use pypipegraph.Prelude.{
  Bool, Dict, List, Option, String, [], false, if◌then◌else◌, insert, is_empty, length, nat_eq,
  none, not, some, true, ℕ, ◌&&◌, ◌+◌, ◌∷◌,
}

-- How the forked process, or the call in this process, came to an end.
pub data ChildEnd : Type 0 where
  finished : ChildEnd
  -- a nonzero exit code; whether an exception could be read back from the child
  exited : ℕ → Bool → ChildEnd
  signaled : ℕ → ChildEnd
  neither : ChildEnd

pub data JobException : Type 0 where
  -- JobError, around the child's exception or around a JobDied in its place
  job_error job_error_died : JobException
  job_died : ℕ → JobException
  not_implemented : JobException
  missing_files empty_files : List String → JobException
  file_not_found history_key_error type_error : JobException
  -- an exception of the callback that passes through
  user_exception : JobException

module _ (H : Hashing) where
  -- The callback with what it does to the files. In this process it may raise.
  abbrev pub Callback : Type 0
  Callback = FileSystem H → ChildEnd × FileSystem H

  pub record FileJob : Type 0 where
    -- org_files, which `_map_filename` leaves as they are
    pub files : List String
    pub resources : Resources
    pub empty_ok : Bool
    pub generating_function : Callback

  abbrev pub Running : Type 0 → Type 0
  Running A = Exec (FileSystem H) JobException A

  -- The first loop: the files left, whether all were found in place, and how many it unlinked.
  -- Each file that exists is unlinked, so `all_present` stays True only for no file at all.
  pub record Scan : Type 0 where
    pub all_present : Bool
    pub del_counter : ℕ
    pub after : FileSystem H

  unfoldable pub unlink_if_there : String → FileSystem H → FileSystem H
  unlink_if_there fn fs = if exists H fn fs then unlink H fn fs else fs

  unfoldable pub unlink_present : List String → Scan → Scan
  unlink_present [] s = s
  unlink_present (fn ∷ fns) s = unlink_present fns (record {
    all_present = false;
    del_counter = s.del_counter + (if exists H fn s.after then 1 else 0);
    after = unlink_if_there fn s.after;
  })

  -- The second loop, over whatever is still there.
  unfoldable pub nuke : List String → FileSystem H → FileSystem H
  nuke [] fs = fs
  nuke (fn ∷ fns) fs = nuke fns (unlink_if_there fn fs)

  -- The branches that look at how the process ended.
  unfoldable pub conclude : ChildEnd → Running Unit
  conclude finished = pure tt
  conclude (exited code true) = throw job_error
  conclude (exited code false) = throw job_error_died
  conclude (signaled number) = throw (job_died number)
  conclude neither = throw not_implemented

  -- `self.generating_function(*input)` without a fork: an exception is the callback's own.
  unfoldable pub conclude_here : ChildEnd → Running Unit
  conclude_here finished = pure tt
  conclude_here _ = throw user_exception

  unfoldable pub generate : FileJob → Running Unit
  unfolding conclude conclude_here is_external
  generate job fs =
      let (end, fs') = job.generating_function fs in
      if is_external job.resources then conclude end fs' else conclude_here end fs'

  unfoldable pub missing : List String → FileSystem H → List String
  missing [] fs = []
  missing (x ∷ xs) fs = let rest = missing xs fs in if exists H x fs then rest else x ∷ rest

  abbrev pub is_empty_file : Option (File H) → Bool
  is_empty_file none = false
  is_empty_file (some f) = nat_eq (H.size_of f.content) 0

  unfoldable pub empty_ones : List String → FileSystem H → List String
  empty_ones [] fs = []
  empty_ones (x ∷ xs) fs =
      let rest = empty_ones xs fs in if is_empty_file (fs x) then x ∷ rest else rest

  -- {str(of): hashers.hash_file(of) for of in self.org_files}
  unfoldable pub hash_all : List String → Dict StoredHash → Running (Dict StoredHash)
  hash_all [] res fs = (return res, fs)
  hash_all (of ∷ ofs) res fs = elim (hash_file H of fs) [
    | none ↦ (raise file_not_found, fs)
    | some h ↦ hash_all ofs (insert of (store h) res) fs
  ]

  unfoldable pub check_outputs : FileJob → Running Unit
  check_outputs job fs =
      if not (is_empty (missing job.files fs))
      then (raise (missing_files (missing job.files fs)), fs)
      else if not job.empty_ok && not (is_empty (empty_ones job.files fs))
      then (raise (empty_files (empty_ones job.files fs)), fs)
      else (return tt, fs)

  unfoldable pub run_multi_file : FileJob → Dict StoredHash → Running (Dict StoredHash)
  run_multi_file job historical_output fs =
      let scan =
        unlink_present job.files (record { all_present = true; del_counter = 0; after = fs }) in
      if scan.all_present
      then (return historical_output, scan.after)
      else let fs' =
          if nat_eq scan.del_counter (length job.files)
          then scan.after
          else nuke job.files scan.after in
        (generate job >>= λ _. check_outputs job >>= λ _. hash_all job.files []) fs'
