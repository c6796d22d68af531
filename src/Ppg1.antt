-- ===== src/Ppg1.antt =====
-- ppg1_compatibility.py: the module `pypipegraph` of version 1 while it stands for version 2. The attributes of modules are a parameter. `fixtures`, which both functions
-- set on the testing module that is there anyway, is left out.
pub mod Restored
pub mod Adaptors
pub mod Ignoring
pub mod Wrapping
use pypipegraph.Prelude.{
  Bool, Dict, List, Option, String, [], delete, false, if◌then◌else◌, insert, keys, lookup, none,
  some, true, ◌>>?◌, ◌∷◌,
}

module _ (Attr : Type 0) where
  -- The two modules' attributes, and the globals of ppg1_compatibility.py.
  pub record Compat : Type 0 where
    pub patched : Bool
    pub ppg1 : Dict Attr
    pub sys_modules : Dict Attr
    pub old_entries : Dict Attr
    pub old_modules : Dict Attr

  -- What ppg2 offers, by the name that ppg1 has for it, and by module.
  pub record Offered : Type 0 where
    pub new_entry : String → Attr
    pub new_module : String → Attr
    -- importlib.import_module(...); `none` is the ImportError
    pub import_module : String → Option Attr

-- exception_map, the jobs and invariants, what is unsupported, and the rest
abbrev pub entry_names : List String
entry_names =
    "RuntimeError" ∷ "JobContractError" ∷ "PyPipeGraphError" ∷ "CycleError" ∷ "JobDiedException"
    ∷ "RuntimeException" ∷ "ParameterInvariant" ∷ "FileInvariant" ∷ "FileTimeInvariant"
    ∷ "RobustFileChecksumInvariant" ∷ "FileChecksumInvariant" ∷ "FunctionInvariant"
    ∷ "MultiFileInvariant" ∷ "MultiFileGeneratingJob" ∷ "FileGeneratingJob"
    ∷ "CachedAttributeLoadingJob" ∷ "CachedDataLoadingJob" ∷ "TempFileGeneratingJob"
    ∷ "MultiTempFileGeneratingJob" ∷ "PlotJob" ∷ "Job" ∷ "DataLoadingJob" ∷ "AttributeLoadingJob"
    ∷ "JobGeneratingJob" ∷ "NotebookJob" ∷ "DependencyInjectionJob" ∷ "TempFilePlusGeneratingJob"
    ∷ "MemMappedDataLoadingJob" ∷ "FinalJob" ∷ "CombinedPlotJob" ∷ "NothingChanged"
    ∷ "resource_coordinators" ∷ "new_pipegraph" ∷ "run_pipegraph" ∷ "util" ∷ "graph" ∷ "job"
    ∷ "JobList" ∷ "ppg_exceptions" ∷ "inside_ppg" ∷ "assert_uniqueness_of_object" ∷ "testing"
    ∷ "is_ppg2" ∷ []

abbrev pub replaced_modules : List String
replaced_modules = "pypipegraph.job" ∷ "pypipegraph.testing" ∷ "pypipegraph.testing.fixtures" ∷ []

module _ {Attr : Type 0} where
  abbrev pub save_value : String → Option Attr → Compat Attr → Compat Attr
  save_value x none s = s
  save_value x (some v) s = record s {
    old_entries = insert x v s.old_entries;
    ppg1 = delete x s.ppg1;
  }

  -- for x in dir(ppg1), where each x is there
  unfoldable pub save_entries : List String → Compat Attr → Compat Attr
  save_entries [] s = s
  save_entries (x ∷ xs) s = save_entries xs (save_value x (lookup x s.ppg1) s)

  unfoldable pub set_entries : Offered Attr → List String → Dict Attr → Dict Attr
  set_entries O [] d = d
  set_entries O (x ∷ xs) d = set_entries O xs (insert x (O.new_entry x) d)

  -- old_modules[name] = sys.modules[name]; sys.modules[name] = replacement
  unfoldable pub swap_module : Offered Attr → String → Attr → Compat Attr → Compat Attr
  swap_module O name there_now s = record s {
    old_modules = insert name there_now s.old_modules;
    sys_modules = insert name (O.new_module name) s.sys_modules;
  }

  -- `none` is an ImportError, which leaves ppg1 without its attributes.
  unfoldable pub replace_modules : Offered Attr → List String → Compat Attr → Option (Compat Attr)
  unfolding swap_module
  replace_modules O [] s = some s
  replace_modules O (name ∷ names) s = elim (lookup name s.sys_modules) [
    | some m ↦ replace_modules O names (swap_module O name m s)
    | none ↦ O.import_module name >>? λ m. replace_modules O names (swap_module O name m s)
  ]

  unfoldable pub replace_ppg1 : Offered Attr → Compat Attr → Option (Compat Attr)
  unfolding keys save_entries replace_modules set_entries
  replace_ppg1 O s =
      if s.patched
      then some s
      else replace_modules O replaced_modules (save_entries (keys s.ppg1) s) >>? λ t.
          some (record t { patched = true; ppg1 = set_entries O entry_names t.ppg1 })

  -- for x in dir(ppg1): delattr(ppg1, x)
  unfoldable pub delete_all : List String → Dict Attr → Dict Attr
  delete_all [] d = d
  delete_all (x ∷ xs) d = delete_all xs (delete x d)

  -- for k, v in entries.items(), for the keys that are left
  unfoldable pub put_back : List String → Dict Attr → Dict Attr → Dict Attr
  put_back [] entries d = d
  put_back (k ∷ ks) entries d =
      put_back ks entries (elim (lookup k entries) [ none ↦ d | some v ↦ insert k v d ])

  -- ppg1.testing = old_modules["pypipegraph.testing"], which `replace_ppg1` has put there
  abbrev pub set_testing : Option Attr → Dict Attr → Dict Attr
  set_testing none d = d
  set_testing (some m) d = insert "testing" m d

  unfoldable pub unreplace_ppg1 : Compat Attr → Compat Attr
  unfolding keys delete_all put_back
  unreplace_ppg1 s =
      if s.patched
      then record s {
        patched = false;
        ppg1 =
            set_testing (lookup "pypipegraph.testing" s.old_modules)
              (put_back (keys s.old_entries) s.old_entries (delete_all (keys s.ppg1) s.ppg1));
        sys_modules = put_back (keys s.old_modules) s.old_modules s.sys_modules;
      }
      else s
