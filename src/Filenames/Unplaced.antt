-- ===== src/Filenames/Unplaced.antt =====
-- jobs.py, SharedMultiFileGeneratingJob: the files it is given (__init__), before it is known in which
-- folder they end up, and what the callback (get_input) and __getitem__ make of them.
use pypipegraph.Digraph.Edges.{order}
use pypipegraph.Exec.{Result, raise, return, ◌>>=◌}
use pypipegraph.Filenames.{
  FilesArgument, FilesError, Key, Lookup, Normalizing, Paths, by_index, by_name, files_value_error,
  in_order, keyed, validate_files_argument,
}
use pypipegraph.Prelude.{
  Bool, Dict, List, Option, String, [], contains, false, get_elem?, if◌then◌else◌, lookup, map,
  none, some, substring, text_length, true, ◌++◌, ◌+◌, ◌==◌, ◌||◌, ◌∷◌,
}
use text.Mathlib.Text.{find?}

-- pathlib: prefix / name, path.parts and Path(*parts)
pub record PathParts : Type 0 where
  pub join_path : String → String → String
  pub parts : String → List String
  pub of_parts : List String → String

pub data ItemError : Type 0 where
  -- AttributeError: before run has found the folder
  no_target_folder : ItemError
  -- AttributeError: no files
  no_org_order : ItemError
  item_index_error : ItemError
  item_key_error : ItemError

pub record SharedFiles : Type 0 where
  pub org_files : List String
  -- a dict, or none where it is None or has no entries
  pub shared_lookup : Dict String
  pub lookup_for_org_order : Option (List String)
  pub building : Bool
  -- target_folder.name
  pub target_folder : Option String

module _ (S : PathParts) (output_dir_prefix : String) where
  -- self.output_dir_prefix / "__never_placed_here__" / f
  abbrev pub unplaced : String → String
  unplaced f = S.join_path (S.join_path output_dir_prefix "__never_placed_here__") f

  -- self.org_files[self.files.index(v)]
  unfoldable pub org_file_of : List String → List String → String → Option String
  org_file_of [] org_files v = none
  org_file_of (f ∷ fs) [] v = none
  org_file_of (f ∷ fs) (o ∷ os) v =
      let rest = org_file_of fs os v in if f == v then some o else rest

  unfoldable pub org_lookup :
      List String → List String → Dict String → Result FilesError (Dict String)
  unfolding org_file_of
  org_lookup fs os [] = return []
  org_lookup fs os ((k, v) ∷ d) =
      let rest = org_lookup fs os d in
      elim (org_file_of fs os v) [
        | none ↦ raise files_value_error
        | some o ↦ elim rest [ raise e ↦ raise e | return d' ↦ return ((k, o) ∷ d') ]
      ]

  abbrev pub shared_files : List String → Dict String → Option (List String) → SharedFiles
  shared_files org_files d order = record {
    org_files = org_files;
    shared_lookup = d;
    lookup_for_org_order = order;
    building = false;
    target_folder = none;
  }

  -- if self._lookup: ...
  unfoldable pub with_lookup : List String → Lookup → Result FilesError SharedFiles
  unfolding org_lookup
  with_lookup fs (in_order []) = return (shared_files (map unplaced fs) [] none)
  with_lookup fs (in_order (x ∷ xs)) =
      return (shared_files (map unplaced fs) [] (some (map unplaced (x ∷ xs))))
  with_lookup fs (keyed d) = elim (org_lookup fs (map unplaced fs) d) [
    | raise e ↦ raise e
    | return d' ↦ return (shared_files (map unplaced fs) d' none)
  ]

  -- len(self.files) != len(set(self.files))
  unfoldable pub has_twice : List String → Bool
  has_twice [] = false
  has_twice (f ∷ fs) = contains fs f || has_twice fs

  abbrev pub unless_twice : SharedFiles → Result FilesError SharedFiles
  unless_twice job = if has_twice job.org_files then raise files_value_error else return job

  abbrev pub and_once : Result FilesError SharedFiles → Result FilesError SharedFiles
  and_once (raise e) = raise e
  and_once (return job) = unless_twice job

  unfoldable pub init_shared_files : Paths → FilesArgument → Normalizing SharedFiles
  unfolding validate_files_argument with_lookup has_twice
  init_shared_files P files =
      validate_files_argument P true files >>= λ (fs, l) graph. (and_once (with_lookup fs l), graph)

module _ (S : PathParts) where
  abbrev pub placed_part : Bool → String → String → List String
  placed_part building tf x =
      if x == "__never_placed_here__"
      then (if building then "build" else "by_input") ∷ tf ∷ []
      else x ∷ []

  unfoldable pub placed_parts : Bool → String → List String → List String
  placed_parts building tf [] = []
  placed_parts building tf (x ∷ xs) = placed_part building tf x ++ placed_parts building tf xs

  unfoldable pub map_filename : Bool → String → String → String
  unfolding placed_parts
  map_filename building tf f = S.of_parts (placed_parts building tf (S.parts f))

  abbrev pub mapped : SharedFiles → Result ItemError String → Result ItemError String
  mapped job (raise e) = raise e
  mapped job (return f) = elim job.target_folder [
    | none ↦ raise no_target_folder
    | some tf ↦ return (map_filename job.building tf f)
  ]

  unfoldable pub map_all : SharedFiles → List String → Result ItemError (List String)
  unfolding map_filename
  map_all job [] = return []
  map_all job (f ∷ fs) =
      let rest = map_all job fs in
      elim (mapped job (return f)) [
        | raise e ↦ raise e
        | return x ↦ elim rest [ raise e ↦ raise e | return xs ↦ return (x ∷ xs) ]
      ]

pub data SharedInput : Type 0 where
  input_list : List String → SharedInput
  input_dict : List String → List String → SharedInput

unfoldable pub keys_of : Dict String → List String
keys_of [] = []
keys_of ((k, f) ∷ d) = k ∷ keys_of d

unfoldable pub files_of : Dict String → List String
files_of [] = []
files_of ((k, f) ∷ d) = f ∷ files_of d

abbrev pub map_result : {A B : Type 0} → (A → B) → Result ItemError A → Result ItemError B
map_result f (raise e) = raise e
map_result f (return a) = return (f a)

-- The first argument of the callback; a dict is its keys and its files.
unfoldable pub get_input : PathParts → SharedFiles → Result ItemError SharedInput
unfolding map_all keys_of files_of
get_input S job = elim job.shared_lookup [
  | e ∷ d ↦ map_result (input_dict (keys_of (e ∷ d))) (map_all S job (files_of (e ∷ d)))
  | [] ↦ elim job.lookup_for_org_order [
    | none ↦ raise no_org_order
    | some fs ↦ map_result input_list (map_all S job fs)
  ]
]

abbrev pub or_error : ItemError → Option String → Result ItemError String
or_error e none = raise e
or_error e (some f) = return f

-- fn[fn.find("__never_placed_here__/") + len("__never_placed_here__/"):]
abbrev pub after_placeholder : String → String
after_placeholder fn = elim (find? fn "__never_placed_here__/") [
  | none ↦ substring fn 21 (text_length fn)
  | some n ↦ substring fn (n + 22) (text_length fn)
]

unfoldable pub named_file : List String → String → Option String
named_file [] key = none
named_file (f ∷ fs) key =
    let rest = named_file fs key in if after_placeholder f == key then some f else rest

-- __getitem__
unfoldable pub get_shared_item : PathParts → SharedFiles → Key → Result ItemError String
unfolding named_file
get_shared_item S job key = elim job.shared_lookup [
  | e ∷ d ↦ mapped S job (elim key [
    | by_index i ↦ raise item_key_error
    | by_name k ↦ or_error item_key_error (lookup k (e ∷ d))
  ])
  | [] ↦ mapped S job (elim key [
    | by_index i ↦ or_error item_index_error (get_elem? job.org_files i)
    | by_name k ↦ or_error item_key_error (named_file job.org_files k)
  ])
]
