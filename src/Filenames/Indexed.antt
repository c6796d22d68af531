-- ===== src/Filenames/Indexed.antt =====
-- jobs.py, SharedMultiFileGeneratingJob: which file has which index, for the callback and outside.
-- Where a file of the job is in the end.
use pypipegraph.Exec.{return}
use pypipegraph.Filenames.{
  FileItem, GraphPaths, Paths, by_index, check_files, in_order, listed, sorted_by,
  validate_files_argument,
}
use pypipegraph.Filenames.Normal.{CacheIsRight, listed_files_by_index, plain_all}
use pypipegraph.Filenames.Unplaced.{
  PathParts, SharedFiles, get_input, get_shared_item, has_twice, init_shared_files, input_list,
  item_index_error, map_all, map_filename, map_result, mapped, or_error, shared_files, unplaced,
  with_lookup,
}
use pypipegraph.Prelude.{
  Bool, List, Option, String, [], ap, arith, false, get_elem?, inl, inr, map, refl, some, subst,
  suc, true, zero, ℕ, ◌∷◌, ◌≡◌,
}

unfoldable pub final_file : PathParts → String → Bool → String → String → String
final_file S prefix building tf f = map_filename S building tf (unplaced S prefix f)

-- The job when its run has found the folder.
abbrev pub placed_in : Bool → String → SharedFiles → SharedFiles
placed_in building tf job = record job { building = building; target_folder = some tf }

module _ (S : PathParts) (prefix : String) where
  map_all_lem :
      (building : Bool) (tf : String) (job : SharedFiles) (fs : List String)
      → map_all S (placed_in building tf job) (map (unplaced S prefix) fs)
        ≡ return (map (final_file S prefix building tf) fs)
  unfolding map_all final_file
  map_all_lem building tf job [] = refl
  map_all_lem building tf job (f ∷ fs) = rw (map_all_lem building tf job fs) refl

  mapped_lem :
      (building : Bool) (tf : String) (job : SharedFiles) (fs : List String) (i : ℕ)
      → mapped S
          (placed_in building tf job)
          (or_error item_index_error (get_elem? (map (unplaced S prefix) fs) i))
        ≡ or_error item_index_error (get_elem? (map (final_file S prefix building tf) fs) i)
  unfolding final_file
  mapped_lem building tf job [] i = refl
  mapped_lem building tf job (f ∷ fs) zero = refl
  mapped_lem building tf job (f ∷ fs) (suc i) = mapped_lem building tf job fs i

validate_listed :
    (P : Paths) (items : List FileItem) (names fs : List String) (graph : Option GraphPaths)
    → CacheIsRight P graph
    → check_files P true graph items ≡ return names
    → plain_all P graph names ≡ some fs
    → (validate_files_argument P true (listed items) graph).0
      ≡ return (sorted_by P.path_le fs, in_order fs)
validate_listed P items names fs graph right passed normal =
    elim (listed_files_by_index P true items names graph right passed) [
      | inl (refused, _) ↦ absurd (cc (normal, refused))
      | inr (fs', normal', ends, _) ↦
          subst
            (λ gs.
              (validate_files_argument P true (listed items) graph).0
              ≡ return (sorted_by P.path_le gs, in_order gs))
            (ground (arith, normal, normal')) ends
    ]

init_listed :
    (P : Paths) (S : PathParts) (prefix : String) (items : List FileItem) (names : List String)
    (path : String) (paths : List String) (graph : Option GraphPaths)
    → (validate_files_argument P true (listed items) graph).0
      ≡ return (sorted_by P.path_le (path ∷ paths), in_order (path ∷ paths))
    → has_twice S prefix (map (unplaced S prefix) (sorted_by P.path_le (path ∷ paths))) ≡ false
    → (init_shared_files S prefix P (listed items) graph).0
      ≡ return (
          shared_files S prefix
            (map (unplaced S prefix) (sorted_by P.path_le (path ∷ paths)))
            []
            (some (map (unplaced S prefix) (path ∷ paths))))
unfolding init_shared_files with_lookup
init_listed P S prefix items names path paths graph valid once = rw valid (rw once refl)

-- A shared job that is given a list of files that pass the tests, have the relative paths
-- `path ∷ paths` and are placed apart: once its run has found the folder, the callback gets the
-- files in the order in which they were given, while job[i] is the file at place i in the order of
-- paths, so that the two differ where the list was not sorted.
pub shared_files_by_index :
    (P : Paths) (S : PathParts) (prefix : String) (items : List FileItem) (names : List String)
    (path : String) (paths : List String) (graph : Option GraphPaths)
    → CacheIsRight P graph
    → check_files P true graph items ≡ return names
    → plain_all P graph names ≡ some (path ∷ paths)
    → has_twice S prefix (map (unplaced S prefix) (sorted_by P.path_le (path ∷ paths))) ≡ false
    → (job : SharedFiles) × ((init_shared_files S prefix P (listed items) graph).0 ≡ return job)
      × ((building : Bool) (tf : String)
          → (get_input S (placed_in building tf job)
              ≡ return (input_list (map (final_file S prefix building tf) (path ∷ paths))))
            × ((i : ℕ)
                → get_shared_item S (placed_in building tf job) (by_index i)
                  ≡ or_error item_index_error (
                      get_elem?
                        (map (final_file S prefix building tf) (sorted_by P.path_le (path ∷ paths)))
                        i)))
unfolding get_input get_shared_item
shared_files_by_index P S prefix items names path paths graph right passed normal once =
    let job =
      shared_files S prefix (map (unplaced S prefix) (sorted_by P.path_le (path ∷ paths))) []
        (some (map (unplaced S prefix) (path ∷ paths))) in
    (
      job,
      init_listed P S prefix items names path paths graph
          (validate_listed P items names (path ∷ paths) graph right passed normal) once,
      λ building tf. (
        ap (map_result input_list) (map_all_lem S prefix building tf job (path ∷ paths)),
        λ i. mapped_lem S prefix building tf job (sorted_by P.path_le (path ∷ paths)) i,
      ),
    )
