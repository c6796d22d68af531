-- ===== src/Samples/Folders.antt =====
-- A shared directory and jobs of two graphs that make the same file.
use pypipegraph.Enums.{is_external}
use pypipegraph.Exec.{raise, return}
use pypipegraph.Files.{StoredHash, hash_file, store, unlink}
use pypipegraph.Jobs.MultiFile.{
  check_outputs, conclude, empty_ones, exited, generate, hash_all, job_error, missing, nuke,
  run_multi_file, unlink_if_there, unlink_present,
}
use pypipegraph.Prelude.{
  Dict, Option, String, [], contains, delete, false, insert, lookup, none, refl, some, subst, true,
  ◌∷◌, ◌≡◌, ◌≢◌,
}
use pypipegraph.Samples.{different}
use pypipegraph.Samples.Files.{a_on_disk, numbers, writes_a}
use pypipegraph.Shared.{
  SharedDir, SharedJob, build_output, clean_up, find_or_build, finish_shared, found, link_input,
  log_local_usage, log_usage, output_hashes, run_others, run_shared, store_build,
}
use pypipegraph.Shared.Entries.{
  all_of, any_of, build_failed, drop_inputs, keep_only, link, used_outputs, values,
}
use pypipegraph.Shared.Keeps.{IsHeld}
use pypipegraph.Shared.Naming.{NamedJob, Naming, job_of}
use pypipegraph.Shared.Placed.{IsPlaced, run_places_output}
use pypipegraph.Shared.Retry.{failed_build_sticks}
use pypipegraph.Shared.Safety.{OfOthers, others_keep_output}

abbrev empty_dir : SharedDir numbers
empty_dir = record {
  by_input = [];
  done = [];
  build = [];
  sources = [];
  uses = [];
  local_usage = [];
  building = false;
}

abbrev shared_a : SharedJob numbers
shared_a = record {
  job = writes_a;
  output_dir_prefix = "shared";
  remove_build_dir_on_error = true;
  remove_unused = true;
  by_input_key = "in1";
  hash_hashes = λ res. "out1";
  build_name = "host_1_2.0";
  abs_hd = "/one";
  usage_dir_hash = "u1";
  in_history = false;
  historical_output = [];
  now = 9;
}

-- The job of another graph, with other inputs and outputs.
abbrev shared_b : SharedJob numbers
shared_b = record shared_a {
  by_input_key = "in2";
  hash_hashes = λ res. "out2";
  abs_hd = "/two";
  usage_dir_hash = "u2";
}

abbrev used_dir : SharedDir numbers
used_dir = record empty_dir {
  by_input = ("in1", link "out1") ∷ [];
  done = ("out1", a_on_disk) ∷ [];
  uses = ("u1", "in1") ∷ [];
}

a-IsHeld : IsHeld "u1" "in1" "out1" a_on_disk used_dir
unfolding lookup
a-IsHeld = (refl, refl, refl)

b_is_other : OfOthers "u1" ((shared_b, false) ∷ [])
unfolding OfOthers
b_is_other = (different "u2" "u1" refl, tt)

others_keep_output_example :
    IsHeld "u1" "in1" "out1" a_on_disk (run_others ((shared_b, false) ∷ []) used_dir)
others_keep_output_example =
    others_keep_output "u1" "in1" "out1" a_on_disk ((shared_b, false) ∷ []) used_dir b_is_other
      a-IsHeld

abbrev shared_result : Dict StoredHash
shared_result =
    ("a", record { stored_hash = some "03"; stored_mtime = some 7; stored_size = some 3 })
    ∷ ("shared", record { stored_hash = some "in1"; stored_mtime = some 9; stored_size = some 0 })
    ∷ []

a_was_built :
    run_shared shared_a empty_dir ≡ (return shared_result, (run_shared shared_a empty_dir).1)
unfolding run_shared find_or_build build_output store_build link_input finish_shared log_usage
    clean_up log_local_usage output_hashes used_outputs values drop_inputs keep_only all_of any_of
    lookup insert delete contains run_multi_file unlink_present unlink_if_there unlink generate
    conclude check_outputs hash_all hash_file store missing empty_ones nuke is_external
a_was_built = refl

run_places_output_example :
    IsPlaced shared_a (run_shared shared_a empty_dir).1
    × ((entry : StoredHash) × (lookup "shared" shared_result ≡ some entry)
        × (entry.stored_hash ≡ some "in1"))
run_places_output_example =
    run_places_output shared_a empty_dir (run_shared shared_a empty_dir).1 shared_result refl
      a_was_built

abbrev shared_failing : SharedJob numbers
shared_failing = record shared_a {
  job = record writes_a { generating_function = λ fs. (exited 1 true, fs) };
}

build_did_fail :
    find_or_build shared_failing empty_dir
    ≡ (raise (build_failed job_error), (find_or_build shared_failing empty_dir).1)
unfolding find_or_build build_output all_of any_of lookup run_multi_file unlink_present
    unlink_if_there unlink generate conclude nuke is_external delete
build_did_fail = refl

failed_build_sticks_example :
    run_shared shared_a (find_or_build shared_failing empty_dir).1
    ≢ (return shared_result, (run_shared shared_a empty_dir).1)
failed_build_sticks_example =
    failed_build_sticks shared_failing shared_a empty_dir (find_or_build shared_failing empty_dir).1
      (run_shared shared_a empty_dir).1 job_error shared_result build_did_fail refl

-- The symlink of the inputs names an output whose file was removed.
abbrev damaged_dir : SharedDir numbers
damaged_dir = record used_dir {
  by_input = ("in1", link "old") ∷ [];
  done = ("old", λ fn. none) ∷ [];
}

old_is_linked : lookup "in1" damaged_dir.by_input ≡ some (link "old")
unfolding lookup
old_is_linked = refl

a_is_gone : all_of (found shared_a damaged_dir) ("a" ∷ []) ≡ false
unfolding all_of lookup
a_is_gone = refl

none_is_there : any_of (found shared_a damaged_dir) ("a" ∷ []) ≡ false
unfolding any_of lookup
none_is_there = refl

a_is_built : run_multi_file numbers writes_a [] (λ fn. none) ≡ (
  return
      (("a", record { stored_hash = some "03"; stored_mtime = some 7; stored_size = some 3 }) ∷ []),
  a_on_disk,
)
unfolding run_multi_file unlink_present unlink_if_there unlink generate conclude check_outputs
    hash_all hash_file store missing empty_ones nuke insert is_external
a_is_built = refl

-- The strict hash of a file is its hash.
abbrev naming : Naming
naming = record {
  hexdigest = λ texts. "out1";
  outputs_to_job_ids = ("a", "a") ∷ [];
  jobs = ("a", record { shared_prefix = none; extract_strict_hash = λ h. h.stored_hash }) ∷ [];
  get_job_output = λ job_id. none;
  job_inputs = [];
}

abbrev early : Dict StoredHash
early = ("a", record { stored_hash = some "03"; stored_mtime = some 7; stored_size = some 3 }) ∷ []

abbrev late : Dict StoredHash
late = ("a", record { stored_hash = some "03"; stored_mtime = some 8; stored_size = some 3 }) ∷ []

a_job :
    (job : NamedJob)
    → job_of naming "a" ≡ some job
    → job.extract_strict_hash
        (record { stored_hash = some "03"; stored_mtime = some 7; stored_size = some 3 })
      ≡ job.extract_strict_hash
          (record { stored_hash = some "03"; stored_mtime = some 8; stored_size = some 3 })
unfolding lookup
a_job job known =
    subst
      (λ o.
        hash_by o (record { stored_hash = some "03"; stored_mtime = some 7; stored_size = some 3 })
        ≡ hash_by o
            (record { stored_hash = some "03"; stored_mtime = some 8; stored_size = some 3 }))
      known refl
  where
    hash_by : Option NamedJob → StoredHash → Option String
    hash_by none h = none
    hash_by (some j) h = j.extract_strict_hash h
