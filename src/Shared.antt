-- ===== src/Shared.antt =====
-- jobs.py, SharedMultiFileGeneratingJob: a directory that several graphs fill and read. `by_input`
-- holds symlinks, named by a hash of the inputs, to folders in `done`, named by a hash of the
-- outputs; `used_by` holds for each graph which of the symlinks it uses.
pub mod Entries
pub mod Keeps
pub mod Safety
pub mod Placed
pub mod Retry
pub mod Naming
use pypipegraph.Digraph.Edges.{sources}
use pypipegraph.Exec.{Exec, Result, expect, modify, pure, raise, return, throw_if, ◌>>=◌, ◌>>◌}
use pypipegraph.Files.{File, FileSystem, Hashing, StoredHash, exists, file_hash, same_stat, store}
use pypipegraph.Jobs.MultiFile.{FileJob, JobException, run_multi_file}
use pypipegraph.Prelude.{
  Bool, Dict, List, Option, String, [], delete, false, has_key, if◌then◌else◌, insert, is_empty,
  is_some, lookup, none, not, some, true, ℕ, ◌&&◌, ◌==◌, ◌>>?◌, ◌||◌, ◌∷◌,
}
use pypipegraph.Shared.Entries.{
  InputEntry, SharedError, all_of, any_of, build_failed, drop_inputs, fubared_directory, is_plain,
  keep_only, link, local_of, missing_entry, missing_outputs, no_link, not_a_symlink, partial_result,
  two_outputs, usage_collision, used_outputs, values,
}

module _ (H : Hashing) where
  pub record SharedDir : Type 0 where
    pub by_input : Dict InputEntry
    pub done : Dict (FileSystem H)
    pub build : Dict (FileSystem H)
    -- used_by/<hash>.source and used_by/<hash>.uses
    pub sources : Dict String
    pub uses : Dict String
    -- SharedMultiFileGeneratingJobs.json of each graph, by the hash of its history file
    pub local_usage : Dict (Dict String)
    -- the attribute `building` of the job at hand
    pub building : Bool

  -- One job of one graph when it runs, with what `run` asks of its surroundings. The files are
  -- named below the target folder.
  pub record SharedJob : Type 0 where
    pub job : FileJob H
    pub output_dir_prefix : String
    pub remove_build_dir_on_error : Bool
    pub remove_unused : Bool
    -- `_derive_output_name`, and `_hash_hashes` for the hashes of the outputs
    pub by_input_key : String
    pub hash_hashes : Dict StoredHash → String
    -- hostname, pid and time
    pub build_name : String
    -- the history file of the graph, and its sha512
    pub abs_hd : String
    pub usage_dir_hash : String
    pub in_history : Bool
    pub historical_output : Dict StoredHash
    pub now : ℕ

  abbrev pub Sharing : Type 0 → Type 0
  Sharing A = Exec SharedDir SharedError A

module _ {H : Hashing} where
  -- by_input/<key>, followed
  abbrev pub linked : Option InputEntry → Dict (FileSystem H) → Option (FileSystem H)
  linked (some (link k)) done = lookup k done
  linked _ done = none

  abbrev pub target : String → SharedDir H → Option (FileSystem H)
  target key s = linked (lookup key s.by_input) s.done

  abbrev pub holds_file : Option (FileSystem H) → String → Bool
  holds_file none fn = false
  holds_file (some folder) fn = exists H fn folder

  -- self._map_filename(fn).exists(); while `building`, it looks below `build` for the same key, a
  -- hash, where there are only folders named by host, process and time.
  abbrev pub found : SharedJob H → SharedDir H → String → Bool
  found j s fn = not s.building && holds_file (target j.by_input_key s) fn

  -- The finished build becomes done/<output_key>, if that is not there.
  unfoldable pub store_build : String → String → FileSystem H → SharedDir H → SharedDir H
  store_build build_name output_key folder s = record s {
    build = delete build_name s.build;
    done = if has_key output_key s.done then s.done else insert output_key folder s.done;
    building = false;
  }

  -- symlink.symlink_to, and the handler of FileExistsError
  abbrev pub link_entry : String → String → Option InputEntry → Sharing H Unit
  link_entry key output_key none s =
      (return tt, record s { by_input = insert key (link output_key) s.by_input })
  link_entry key output_key (some no_link) s = (raise fubared_directory, s)
  link_entry key output_key (some (link k)) s =
      if k == output_key then (return tt, s) else (raise two_outputs, s)

  unfoldable pub link_input : String → String → Sharing H Unit
  link_input key output_key s = link_entry key output_key (lookup key s.by_input) s

  -- From the outcome of MultiFileGeneratingJob.run and the folder that it leaves.
  abbrev pub after_build :
      SharedJob H
      → Result JobException (Dict StoredHash)
      → FileSystem H
      → Sharing H (Dict StoredHash)
  after_build j (raise e) folder s = (
    raise (build_failed e),
    record s {
      build =
          if j.remove_build_dir_on_error
          then delete j.build_name s.build
          else insert j.build_name folder s.build;
      building = true;
    },
  )
  after_build j (return res) folder s =
      (link_input j.by_input_key (j.hash_hashes res) >>= λ _. pure res)
        (store_build j.build_name (j.hash_hashes res) folder s)

  unfoldable pub build_output : SharedJob H → Sharing H (Dict StoredHash)
  build_output j =
      let (res, folder) = run_multi_file H j.job j.historical_output (λ fn. none) in
      after_build j res folder

  -- `mfg_res`: what was built, or `none` if all files were there.
  unfoldable pub find_or_build : SharedJob H → Sharing H (Option (Dict StoredHash))
  unfolding build_output all_of any_of
  find_or_build j s =
      if all_of (found j s) j.job.files
      then (return none, s)
      else if any_of (found j s) j.job.files
      then (raise partial_result, s)
      else (build_output j >>= λ res. pure (some res)) s

  -- used_by/<hash>.source and .uses
  abbrev pub write_source : SharedJob H → Option String → Sharing H Unit
  write_source j none s =
      (return tt, record s { sources = insert j.usage_dir_hash j.abs_hd s.sources })
  write_source j (some text) s =
      if text == j.abs_hd then (return tt, s) else (raise usage_collision, s)

  abbrev pub log_source : SharedJob H → Sharing H Unit
  log_source j s = write_source j (lookup j.usage_dir_hash s.sources) s

  abbrev pub log_use : SharedJob H → Sharing H Unit
  log_use j = modify (λ s. record s { uses = insert j.usage_dir_hash j.by_input_key s.uses })

  unfoldable pub log_usage : SharedJob H → Sharing H Unit
  log_usage j = log_source j >> log_use j

  -- One entry of `res`; `none` is a KeyError or a FileNotFoundError.
  abbrev pub known_hash : Option StoredHash → File H → StoredHash
  known_hash none f = store (file_hash H f)
  known_hash (some old) f = if same_stat (file_hash H f) old then old else store (file_hash H f)

  abbrev pub output_hash :
      SharedJob H → Option (Dict StoredHash) → Option (FileSystem H) → String → Option StoredHash
  output_hash j (some built) folder of = lookup of built
  output_hash j none none of = none
  output_hash j none (some folder) of = elim (folder of) [
    | none ↦ none
    | some f ↦ some (known_hash (lookup of j.historical_output) f)
  ]

  unfoldable pub output_hashes :
      SharedJob H
      → Option (Dict StoredHash)
      → Option (FileSystem H)
      → List String
      → Dict StoredHash
      → Option (Dict StoredHash)
  output_hashes j built folder [] res = some res
  output_hashes j built folder (of ∷ ofs) res =
      output_hash j built folder of >>? λ h. output_hashes j built folder ofs (insert of h res)

  -- The folders of outputs go only if each symlink went that had to.
  abbrev pub finish_drop :
      List String → Result SharedError (Unit {0}) × Dict InputEntry → Sharing H Unit
  finish_drop used (raise e, by_input) s = (raise e, record s { by_input = by_input })
  finish_drop used (return _, by_input) s =
      (return tt, record s { by_input = by_input; done = keep_only used s.done })

  abbrev pub drop_unused : List String → Result SharedError (List String) → Sharing H Unit
  drop_unused used_symlinks (raise e) s = (raise e, s)
  drop_unused used_symlinks (return used) s =
      finish_drop used (drop_inputs used_symlinks s.by_input s.by_input) s

  -- _cleanup
  unfoldable pub clean_up : SharedJob H → Sharing H Unit
  unfolding used_outputs values drop_inputs keep_only
  clean_up j s =
      if j.remove_unused
      then drop_unused (values s.uses) (used_outputs (values s.uses) s.by_input) s
      else (return tt, s)

  -- _log_local_usage
  unfoldable pub log_local_usage : SharedJob H → Sharing H Unit
  log_local_usage j = modify (λ s. record s {
    local_usage =
        insert j.usage_dir_hash
          (insert j.output_dir_prefix j.by_input_key
            (local_of (lookup j.usage_dir_hash s.local_usage)))
          s.local_usage;
  })

  -- The entry for the folder itself, which changes when the inputs do.
  abbrev pub with_folder : SharedJob H → Dict StoredHash → Dict StoredHash
  with_folder j res =
      insert j.output_dir_prefix
        (record {
          stored_hash = some j.by_input_key;
          stored_size = some 0;
          stored_mtime = some j.now;
        })
        res

  abbrev pub hash_outputs : SharedJob H → Option (Dict StoredHash) → Sharing H (Dict StoredHash)
  hash_outputs j built s =
      expect missing_entry (output_hashes j built (target j.by_input_key s) j.job.files []) s

  abbrev pub clean_if : SharedJob H → Option (Dict StoredHash) → Sharing H Unit
  clean_if j built s = if is_some built || not j.in_history then clean_up j s else (return tt, s)

  -- What is left when the hashes are known.
  abbrev pub report :
      SharedJob H → Option (Dict StoredHash) → Dict StoredHash → Sharing H (Dict StoredHash)
  report j built res = clean_if j built >> (log_local_usage j >> pure (with_folder j res))

  unfoldable pub finish_shared :
      SharedJob H → Option (Dict StoredHash) → Sharing H (Dict StoredHash)
  unfolding log_usage clean_up
  finish_shared j built = log_usage j >> (hash_outputs j built >>= report j built)

  -- `fns` was mapped before the build: a file that is not at its place then is missing now.
  abbrev pub check_missing : SharedJob H → Bool → Sharing H Unit
  check_missing j was_building s =
      throw_if
        (was_building && not (is_empty j.job.files)
          || not (all_of (holds_file (target j.by_input_key s)) j.job.files))
        missing_outputs s

  unfoldable pub run_shared : SharedJob H → Sharing H (Dict StoredHash)
  unfolding find_or_build finish_shared
  run_shared j s =
      if is_plain (lookup j.by_input_key s.by_input)
      then (raise not_a_symlink, s)
      else (find_or_build j >>= λ built. check_missing j s.building >> finish_shared j built) s

  -- Runs of any jobs on this directory, one after the other, each with its job's `building`.
  unfoldable pub run_others : List (SharedJob H × Bool) → SharedDir H → SharedDir H
  run_others [] s = s
  run_others ((j, building) ∷ rest) s =
      run_others rest (run_shared j (record s { building = building })).1
