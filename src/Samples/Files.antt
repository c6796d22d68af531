-- ===== src/Samples/Files.antt =====
-- A job that writes one file, on files whose content is a number.
use pypipegraph.Enums.{is_external, single_core}
use pypipegraph.Exec.{raise, return}
use pypipegraph.Files.{File, FileSystem, Hashing, StoredHash, hash_file, same_stat, store, unlink}
use pypipegraph.Jobs.Invariants.{FunctionHash, FunctionNow, line_unchanged, look_at_file}
use pypipegraph.Jobs.MultiFile.{
  FileJob, check_outputs, conclude, empty_ones, finished, generate, hash_all, history_key_error,
  job_error, missing, nuke, run_multi_file, unlink_if_there, unlink_present,
}
use pypipegraph.Jobs.MultiFile.Correct.{IsRebuilt, run_rebuilds}
use pypipegraph.Jobs.Temp.{run_temp}
use pypipegraph.Jobs.Temp.Reuse.{IsReused, temp_reuse}
use pypipegraph.Ppg1.Wrapping.{OldFunction, all_exist, calling, given_file, wrapper}
use pypipegraph.Prelude.{
  Dict, String, [], contains, false, if◌then◌else◌, insert, is_empty, nat_eq, none, refl, some,
  true, ℕ, ◌&&◌, ◌==◌, ◌∷◌, ◌≡◌, ◌⊎◌,
}

abbrev pub numbers : Hashing
numbers = record {
  Content = ℕ;
  size_of = λ n. n;
  hexdigest = λ n. if nat_eq n 3 then "03" else "ff";
}

abbrev pub a_written : File numbers
a_written = record { content = 3; mtime = 7 }

abbrev pub a_on_disk : FileSystem numbers
a_on_disk p = if "a" == p then some a_written else none

abbrev pub writes_a : FileJob numbers
writes_a = record {
  files = "a" ∷ [];
  resources = single_core;
  empty_ok = false;
  generating_function = λ fs. (finished, a_on_disk);
}

abbrev a_stored : StoredHash
a_stored = record { stored_hash = some "03"; stored_mtime = some 7; stored_size = some 3 }

abbrev a_history : Dict StoredHash
a_history = ("a", a_stored) ∷ []

a_returned : (run_multi_file numbers writes_a [] a_on_disk).0 ≡ return a_history
unfolding run_multi_file unlink_present unlink_if_there unlink generate conclude check_outputs
    hash_all hash_file store missing empty_ones nuke insert is_external
a_returned = refl

run_rebuilds_example : IsRebuilt numbers writes_a [] a_on_disk a_history
run_rebuilds_example = run_rebuilds numbers writes_a [] a_on_disk "a" [] a_history refl a_returned

temp_reuse_example :
    (run_temp numbers writes_a a_history a_on_disk
      ≡ run_multi_file numbers writes_a a_history a_on_disk)
    ⊎ (run_temp numbers writes_a a_history a_on_disk ≡ (raise history_key_error, a_on_disk))
    ⊎ ((res : Dict StoredHash) × (run_temp numbers writes_a a_history a_on_disk
          ≡ (return res, a_on_disk))
        × (is_empty a_history ≡ false)
        × ((path : String)
            → contains ("a" ∷ []) path ≡ true
            → IsReused numbers a_history res a_on_disk path))
temp_reuse_example = temp_reuse numbers writes_a a_history a_on_disk

abbrev a_function : FunctionNow
a_function = record {
  python_version = "3.11";
  file = some (record { hash = "03"; mtime = 7; size = 3 });
  line_no = some 12;
  is_python_function = true;
  is_none = false;
  source_now = "def f(): pass";
  dis_now = "RETURN_VALUE";
  closure_now = "";
}

-- The same function on another line.
abbrev a_function_stored : FunctionHash
a_function_stored = record {
  source = "def f(): pass";
  source_line_no = some 10;
  versions = ("3.11", ("RETURN_VALUE", "")) ∷ [];
  source_file = some a_stored;
}

line_moved :
    ((look_at_file a_function (some a_function_stored)).0
      && line_unchanged a_function (some a_function_stored))
    ≡ false
unfolding look_at_file same_stat
line_moved = refl

-- A function of the old style that writes no file.
abbrev writes_nothing : OldFunction numbers
writes_nothing = record {
  parameters = [];
  without_files = λ fs. (finished, fs);
  with_files = λ of fs. (finished, fs);
}

nothing_written_wrapped :
    (run_multi_file numbers
      (calling numbers writes_a (wrapper numbers writes_nothing.without_files (given_file "a")))
      []
      a_on_disk).0
    ≡ raise job_error
unfolding run_multi_file unlink_present unlink_if_there unlink generate conclude wrapper all_exist
    nuke is_external
nothing_written_wrapped = refl
