-- ===== src/Ppg1/Wrapping.antt =====
-- ppg1_compatibility.py, _wrap_func_if_no_output_file_params: the functions of file generating jobs in
-- version 1 took no files. A function is its parameters, each with whether it has no default, and
-- its two ways to be called. An exception of a child process is its end with exit code 1.
use pypipegraph.Enums.{is_external}
use pypipegraph.Exec.{Result, raise}
use pypipegraph.Files.{FileSystem, Hashing, StoredHash, exists}
use pypipegraph.Jobs.MultiFile.{
  Callback, ChildEnd, FileJob, JobException, exited, finished, job_error, missing_files, neither,
  signaled, user_exception,
}
use pypipegraph.Prelude.{
  Bool, Dict, List, Option, String, [], false, if◌then◌else◌, is_empty, none, not, some, true, ◌&&◌,
  ◌||◌, ◌∷◌,
}

-- What the callback is called with, get_input of the job.
pub data GivenFiles : Type 0 where
  given_list : List String → GivenFiles
  given_file : String → GivenFiles
  given_dict : Dict String → GivenFiles

-- if not isinstance(of, list): of = [of]; `none` is the AttributeError, a dict has no exists().
abbrev pub files_looked_for : GivenFiles → Option (List String)
files_looked_for (given_list files) = some files
files_looked_for (given_file file) = some (file ∷ [])
files_looked_for (given_dict d) = none

module _ (H : Hashing) where
  pub record OldFunction : Type 0 where
    pub parameters : List Bool
    pub without_files : Callback H
    pub with_files : GivenFiles → Callback H

  unfoldable pub first_param_empty : List Bool → Bool
  first_param_empty [] = true
  first_param_empty (empty ∷ rest) = empty

  -- for a_filename in of
  unfoldable pub all_exist : List String → FileSystem H → Bool
  all_exist [] fs = true
  all_exist (f ∷ fns) fs = let rest = all_exist fns fs in if exists H f fs then rest else false

  abbrev pub end_of_check : Option (List String) → FileSystem H → ChildEnd
  end_of_check none fs = exited 1 true
  end_of_check (some files) fs = if all_exist files fs then finished else exited 1 true

  -- The files are looked for when the function has returned.
  abbrev pub end_of_wrapper : GivenFiles → ChildEnd → FileSystem H → ChildEnd
  end_of_wrapper of finished fs = end_of_check (files_looked_for of) fs
  end_of_wrapper of (exited code read_back) fs = exited code read_back
  end_of_wrapper of (signaled number) fs = signaled number
  end_of_wrapper of neither fs = neither

  unfoldable pub wrapper : Callback H → GivenFiles → Callback H
  unfolding all_exist
  wrapper function of fs = let (end, fs') = function fs in (end_of_wrapper of end fs', fs')

  -- `none` is the TypeError.
  unfoldable pub wrap_func :
      (accept_all_defaults : Bool) → OldFunction → GivenFiles → Option (Callback H)
  unfolding first_param_empty wrapper
  wrap_func accept_all_defaults function of =
      if is_empty function.parameters || not (first_param_empty function.parameters)
      then (if not accept_all_defaults && not (first_param_empty function.parameters)
          then none
          else some (wrapper function.without_files of))
      else some (function.with_files of)

  -- The job of ppg2 for the callback.
  abbrev pub calling : FileJob H → Callback H → FileJob H
  calling job callback = record job { generating_function = callback }

  -- The run with the wrapper, from the run without: files that are missing are reported in
  -- another way, all else is the same.
  abbrev pub report_as :
      JobException
      → Result JobException (Dict StoredHash) × FileSystem H
      → Result JobException (Dict StoredHash) × FileSystem H
  report_as contract_error (raise (missing_files files), fs) = (raise contract_error, fs)
  report_as contract_error (r, fs) = (r, fs)

  abbrev pub contract_error_of : FileJob H → JobException
  contract_error_of job = if is_external job.resources then job_error else user_exception
