-- ===== src/Samples/Named.antt =====
-- Files that jobs are given, and the ids that come of them.
use mathlib.Core.List.{Permᴰ}
use pypipegraph.Digraph.Edges.{edge_lists}
use pypipegraph.Enums.{console}
use pypipegraph.Exec.{raise, return}
use pypipegraph.Filenames.{
  GraphPaths, Paths, by_index, check_files, files_index_error, files_value_error, get_item,
  in_order, insert_sorted, item, job_id_of, join, listed, named, plain_path, sorted_by,
  validate_files_argument,
}
use pypipegraph.Filenames.Ids.{job_id_of_perm}
use pypipegraph.Filenames.Indexed.{final_file, placed_in, shared_files_by_index}
use pypipegraph.Filenames.Normal.{CacheIsRight, listed_files_by_index, plain_all}
use pypipegraph.Filenames.Unplaced.{
  PathParts, SharedFiles, get_input, get_shared_item, has_twice, init_shared_files, input_list,
  item_index_error, map_filename, or_error, placed_parts, unplaced,
}
use pypipegraph.Prelude.{
  Bool, List, Option, String, [], arith, concat, contains, eq_iff, false, get_elem?, lookup, map,
  none, refl, some, substring, text_le, text_length, true, ℕ, ◌+◌, ◌∷◌, ◌≡◌, ◌⊎◌,
}
use pypipegraph.Registry.Graph.{Job, PyPipeGraph}
use pypipegraph.Samples.Graphs.{file_job}
use pypipegraph.Shared.{found}
use text.Mathlib.Text.{find?}

abbrev plain_paths : Paths
plain_paths = record {
  is_absolute = λ path. false;
  resolve = λ path. path;
  relative_to = λ path directory. some path;
  here = ".";
  path_le = text_le;
}

abbrev a_cache : Option GraphPaths
a_cache =
    some
      (record { path_cache = ("b", "b") ∷ []; dir_absolute = "."; prevent_absolute_paths = true })

a_cache-IsRight : CacheIsRight plain_paths a_cache
unfolding lookup plain_path
a_cache-IsRight path res found = ground (arith, found, eq_iff "b" path)

b_and_a_pass :
    check_files plain_paths false a_cache (named "b" ∷ named "a" ∷ []) ≡ return ("b" ∷ "a" ∷ [])
unfolding check_files
b_and_a_pass = refl

listed_files_by_index_example :
    ((plain_all plain_paths a_cache ("b" ∷ "a" ∷ []) ≡ none)
      × ((validate_files_argument plain_paths false (listed (named "b" ∷ named "a" ∷ [])) a_cache).0
          ≡ raise files_value_error))
    ⊎ ((paths : List String) × (plain_all plain_paths a_cache ("b" ∷ "a" ∷ []) ≡ some paths)
        × ((validate_files_argument plain_paths false
              (listed (named "b" ∷ named "a" ∷ []))
              a_cache).0
            ≡ return (sorted_by text_le paths, in_order paths))
        × ((i : ℕ)
            → get_item (in_order paths) (sorted_by text_le paths) (by_index i)
              ≡ item files_index_error (get_elem? paths i)))
listed_files_by_index_example =
    listed_files_by_index plain_paths false (named "b" ∷ named "a" ∷ []) ("b" ∷ "a" ∷ []) a_cache
      a_cache-IsRight b_and_a_pass

job_id_of_perm_example : job_id_of ("b" ∷ "a" ∷ "c" ∷ []) ≡ job_id_of ("a" ∷ "b" ∷ "c" ∷ [])
job_id_of_perm_example = job_id_of_perm ∣ Permᴰ.swap refl refl ∣₁

abbrev colon_job : Job
colon_job = file_job "0::::1" ("0:" ∷ "1" ∷ [])

abbrev with_colon : PyPipeGraph edge_lists
with_colon = record {
  jobs = ("0::::1", colon_job) ∷ [];
  job_dag = record { nodes = "0::::1" ∷ []; edges = [] };
  job_inputs = [];
  outputs_to_job_ids = ("0:", "0::::1") ∷ ("1", "0::::1") ∷ [];
  next_job_number = 1;
  run_mode = console;
}

-- A path with the placeholder, in three parts.
abbrev three_parts : String → List String
three_parts path = elim (find? path "/__never_placed_here__/") [
  | none ↦ path ∷ []
  | some n ↦
      substring path 0 n ∷ "__never_placed_here__" ∷ substring path (n + 23) (text_length path) ∷ []
]

abbrev slashes : PathParts
slashes = record {
  join_path = λ dir path. concat dir (concat "/" path);
  parts = three_parts;
  of_parts = join "/";
}

b_and_a_normal : plain_all plain_paths a_cache ("b" ∷ "a" ∷ []) ≡ some ("b" ∷ "a" ∷ [])
unfolding plain_all plain_path
b_and_a_normal = refl

passed_as_absolute :
    check_files plain_paths true a_cache (named "b" ∷ named "a" ∷ []) ≡ return ("b" ∷ "a" ∷ [])
unfolding check_files
passed_as_absolute = refl

placed_apart :
    has_twice slashes "out" (map (unplaced slashes "out") (sorted_by text_le ("b" ∷ "a" ∷ [])))
    ≡ false
unfolding has_twice sorted_by insert_sorted contains
placed_apart = refl

-- In the callback the first file is b, outside it is a.
first_file_of_callback :
    map (final_file slashes "out" true "3f") ("b" ∷ "a" ∷ [])
    ≡ "out/build/3f/b" ∷ "out/build/3f/a" ∷ []
unfolding final_file map_filename placed_parts join
first_file_of_callback = refl

shared_files_by_index_example :
    (job : SharedFiles) × ((init_shared_files slashes "out" plain_paths
        (listed (named "b" ∷ named "a" ∷ []))
        a_cache).0
      ≡ return job)
    × ((building : Bool) (tf : String)
        → (get_input slashes (placed_in building tf job)
            ≡ return (input_list (map (final_file slashes "out" building tf) ("b" ∷ "a" ∷ []))))
          × ((i : ℕ)
              → get_shared_item slashes (placed_in building tf job) (by_index i)
                ≡ or_error item_index_error (
                    get_elem?
                      (map
                        (final_file slashes "out" building tf)
                        (sorted_by text_le ("b" ∷ "a" ∷ [])))
                      i)))
shared_files_by_index_example =
    shared_files_by_index plain_paths slashes "out" (named "b" ∷ named "a" ∷ []) ("b" ∷ "a" ∷ [])
      "b" ("a" ∷ []) a_cache a_cache-IsRight passed_as_absolute b_and_a_normal placed_apart
