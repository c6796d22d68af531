-- ===== src/Jobs/Invariants.antt =====
-- jobs.py, the jobs that run every time and the jobs that load: FileInvariant, FunctionInvariant,
-- ParameterInvariant, DataLoadingJob, AttributeLoadingJob and JobGeneratingJob.
pub mod Detect
use pypipegraph.Exec.{raise, return}
use pypipegraph.Files.{FileHash, Hashing, StoredHash, file_hash, same_stat, store}
use pypipegraph.Jobs.MultiFile.{Running, file_not_found, history_key_error}
use pypipegraph.Prelude.{
  Bool, Dict, Option, String, [], false, if◌then◌else◌, inl, inr, is_empty, lookup, nat_eq, none,
  some, true, ℕ, ◌&&◌, ◌+◌, ◌==◌, ◌||◌, ◌∷◌, ◌⊎◌,
}

module _ (H : Hashing) where
  -- FileInvariant.run: no hashing where time and size are as recorded. A history without this
  -- file raises the KeyError of the subscript.
  unfoldable pub run_file_invariant : String → Dict StoredHash → Running H (Dict StoredHash)
  run_file_invariant out hist fs = elim (fs out) [
    | none ↦ (raise file_not_found, fs)
    | some f ↦
        if is_empty hist
        then (return ((out, store (file_hash H f)) ∷ []), fs)
        else elim (lookup out hist) [
          | none ↦ (raise history_key_error, fs)
          | some old ↦
              if same_stat (file_hash H f) old
              then (return hist, fs)
              else (return ((out, store (file_hash H f)) ∷ []), fs)
        ]
  ]

-- What one run of a FunctionInvariant stores: the bytecode and the closure for each Python version.
pub record FunctionHash : Type 0 where
  pub source : String
  -- none is the -1 of a built-in
  pub source_line_no : Option ℕ
  pub versions : Dict (String × String)
  pub source_file : Option StoredHash

-- What `inspect` and `dis` say of the function now.
pub record FunctionNow : Type 0 where
  pub python_version : String
  -- the hash that `calculate` would give its source file, if it has one
  pub file : Option FileHash
  pub line_no : Option ℕ
  pub is_python_function : Bool
  pub is_none : Bool
  pub source_now : String
  pub dis_now : String
  pub closure_now : String

-- historical_output.get("source_file", ...)
abbrev pub source_file_of : Option FunctionHash → Option StoredHash
source_file_of none = none
source_file_of (some old) = old.source_file

-- Every entry that `run` writes has a hash; one without (a KeyError) counts as unknown.
abbrev pub digest_known : FileHash → Option String → Bool
digest_known h none = false
digest_known h (some digest) = h.hash == digest

-- file_unchanged and new_file_hash
abbrev pub look_at_hashes : Option FileHash → Option StoredHash → Bool × Option StoredHash
look_at_hashes none hist = (false, none)
look_at_hashes (some h) none = (false, some (store h))
look_at_hashes (some h) (some old) =
    if same_stat h old || digest_known h old.stored_hash
    then (true, some old)
    else (false, some (store h))

unfoldable pub look_at_file : FunctionNow → Option FunctionHash → Bool × Option StoredHash
look_at_file now hist = look_at_hashes now.file (source_file_of hist)

abbrev pub same_line : Option ℕ → Option ℕ → Bool
same_line none none = true
same_line (some a) (some b) = nat_eq a b
same_line _ _ = false

-- line_no == historical_output.get("source_line_no", False)
abbrev pub line_unchanged : FunctionNow → Option FunctionHash → Bool
line_unchanged now none = false
line_unchanged now (some old) = same_line now.line_no old.source_line_no

-- historical_output[python_version], where the history has it
abbrev pub version_in : FunctionNow → Option FunctionHash → Option (String × String)
version_in now none = none
version_in now (some old) = lookup now.python_version old.versions

abbrev pub old_source : Option FunctionHash → String
old_source none = ""
old_source (some old) = old.source

unfoldable pub fresh_dis : FunctionNow → String
fresh_dis now = if now.is_python_function then now.dis_now else if now.is_none then "None" else ""

abbrev pub closure_of : FunctionNow → String
closure_of now = if now.is_python_function then now.closure_now else ""

unfoldable pub dis_and_source :
    FunctionNow → Option FunctionHash → Option (String × String) → String × String
unfolding fresh_dis look_at_file
dis_and_source now hist none = (fresh_dis now, now.source_now)
dis_and_source now hist (some (dis, closure)) =
    if (look_at_file now hist).0 && line_unchanged now hist
    then (dis, old_source hist)
    else (fresh_dis now, now.source_now)

unfoldable pub run_function_invariant : FunctionNow → Option FunctionHash → FunctionHash
unfolding dis_and_source
run_function_invariant now hist =
    let (dis, source) = dis_and_source now hist (version_in now hist) in
    record {
      source = source;
      source_line_no = now.line_no;
      versions = (now.python_version, (dis, closure_of now)) ∷ [];
      source_file = (look_at_file now hist).1;
    }

-- By bytecode and closure if both know this Python version, and by source if not.
unfoldable pub compare_function_hashes : String → FunctionHash → FunctionHash → Bool
compare_function_hashes python_version old new = elim (lookup python_version new.versions) [
  | none ↦ new.source == old.source
  | some (dis, closure) ↦ elim (lookup python_version old.versions) [
    | none ↦ new.source == old.source
    | some (dis', closure') ↦ dis == dis' && closure == closure'
  ]
]

-- ParameterInvariant.__init__ and run; `freeze` is DeepHash's digest of the parameters. `none` is
-- the JobRedefinitionError.
unfoldable pub set_parameters : Option String → String → Option String
set_parameters none frozen = some frozen
set_parameters (some old) frozen = if frozen == old then some frozen else none

-- DataLoadingJob.run and AttributeLoadingJob.run: the hash of what the function returned, where
-- None counts as 0. The second also gives the attribute to assign.
unfoldable pub loaded_hash : {V : Type 0} → (V → String) → Option V → String ⊎ ℕ
loaded_hash hash_object none = inr 0
loaded_hash hash_object (some v) = inl (hash_object v)

pub record Loaded (V : Type 0) : Type 0 where
  pub attribute : Option (Option V)
  pub hash_reported : String ⊎ ℕ

unfoldable pub run_attribute_loading : {V : Type 0} → (V → String) → Option V → Loaded V
unfolding loaded_hash
run_attribute_loading hash_object value = record {
  attribute = some value;
  hash_reported = loaded_hash hash_object value;
}

-- delattr; `none` is the AttributeError of an attribute that is not there.
unfoldable pub cleanup_attribute : {V : Type 0} → Loaded V → Option (Loaded V)
cleanup_attribute l = elim l.attribute [
  | none ↦ none
  | some v ↦ some (record l { attribute = none })
]

-- JobGeneratingJob.run: a counter, so that every run counts as a change.
unfoldable pub run_job_generating : String → Dict ℕ → Dict ℕ
run_job_generating out hist = (out, (elim (lookup out hist) [ none ↦ 0 | some n ↦ n ]) + 1) ∷ []
