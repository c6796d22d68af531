-- ===== src/Filenames.antt =====
-- jobs.py: what a job is told to make: _normalize_path with its cache, _validate_files_argument,
-- __getitem__, and the ids of jobs (Job.__new__, Job.__init__). What pathlib answers is the record
-- `Paths`. An index is not negative here.
pub mod Positions
pub mod Normal
pub mod Ids
pub mod Collide
pub mod Unplaced
pub mod Indexed
use pypipegraph.CoreLock.{here}
use pypipegraph.Exec.{Exec, Result, pure, raise, return, ◌>>=◌}
use pypipegraph.Prelude.{
  Bool, Dict, List, Option, String, [], concat, get_elem?, if◌then◌else◌, insert, is_empty, is_some,
  leb, length, lookup, nat_eq, none, some, suc, text_le, zero, ℕ, ◌&&◌, ◌==◌, ◌>>?◌, ◌||◌, ◌∷◌,
}
use text.Mathlib.Text.{find?}

pub record Paths : Type 0 where
  pub is_absolute : String → Bool
  -- Path.resolve
  pub resolve : String → String
  -- path.relative_to(directory); `none` is the ValueError
  pub relative_to : String → String → Option String
  -- Path(".").absolute()
  pub here : String
  -- the order of paths that `sorted` uses
  pub path_le : String → String → Bool

-- The fields of the global pipegraph that are read here.
pub record GraphPaths : Type 0 where
  pub path_cache : Dict String
  pub dir_absolute : String
  pub prevent_absolute_paths : Bool

pub data FilesError : Type 0 where
  files_type_error files_value_error files_key_error files_index_error : FilesError
  files_assertion_error : FilesError

abbrev pub Normalizing : Type 0 → Type 0
Normalizing A = Exec (Option GraphPaths) FilesError A

abbrev pub relative_to_graph : Paths → Option GraphPaths → String → Option String
relative_to_graph P none path = none
relative_to_graph P (some g) path = P.relative_to (P.resolve path) g.dir_absolute

abbrev pub or_else : Option String → Option String → Option String
or_else none other = other
or_else (some x) other = some x

-- _normalize_path without the cache; `none` is the ValueError.
unfoldable pub plain_path : Paths → Option GraphPaths → String → Option String
plain_path P graph path =
    if P.is_absolute path
    then some (P.resolve path)
    else or_else (relative_to_graph P graph path) (P.relative_to (P.resolve path) P.here)

abbrev pub cached : Option GraphPaths → String → Option String
cached none path = none
cached (some g) path = lookup path g.path_cache

abbrev pub remember : String → String → Option GraphPaths → Option GraphPaths
remember path res none = none
remember path res (some g) = some (record g { path_cache = insert path res g.path_cache })

abbrev pub remembered : String → Option String → Normalizing String
remembered path none graph = (raise files_value_error, graph)
remembered path (some res) graph = (return res, remember path res graph)

abbrev pub unless_cached : Paths → String → Option String → Normalizing String
unless_cached P path (some res) graph = (return res, graph)
unless_cached P path none graph = remembered path (plain_path P graph path) graph

unfoldable pub normalize_path : Paths → String → Normalizing String
normalize_path P path graph = unless_cached P path (cached graph path) graph

-- A file of the argument: a str or Path, or of another type.
pub data FileItem : Type 0 where
  named : String → FileItem
  of_other_type : FileItem

pub data FilesArgument : Type 0 where
  not_iterable : FilesArgument
  single : String → FilesArgument
  listed : List FileItem → FilesArgument
  by_key : Dict FileItem → FilesArgument

abbrev pub prevents_absolute : Bool → Option GraphPaths → Bool
prevents_absolute allow_absolute none = allow_absolute
prevents_absolute allow_absolute (some g) = g.prevent_absolute_paths || allow_absolute

-- for f in files: the tests; what they let pass are the names
unfoldable pub check_files :
    Paths → Bool → Option GraphPaths → List FileItem → Result FilesError (List String)
check_files P allow_absolute graph [] = return []
check_files P allow_absolute graph (of_other_type ∷ items) = raise files_type_error
check_files P allow_absolute graph (named f ∷ items) =
    let rest = check_files P allow_absolute graph items in
    if prevents_absolute allow_absolute graph && P.is_absolute f
    then raise files_value_error
    else if is_some (find? f ":::")
    then raise files_value_error
    else elim rest [ raise e ↦ raise e | return names ↦ return (f ∷ names) ]

unfoldable pub normalize_all : Paths → List String → Normalizing (List String)
normalize_all P [] = pure []
normalize_all P (f ∷ fs) = normalize_path P f >>= λ x. normalize_all P fs >>= λ xs. pure (x ∷ xs)

unfoldable pub insert_sorted : (String → String → Bool) → String → List String → List String
insert_sorted le x [] = x ∷ []
insert_sorted le x (y ∷ ys) =
    let rest = insert_sorted le x ys in if le x y then x ∷ y ∷ ys else y ∷ rest

unfoldable pub sorted_by : (String → String → Bool) → List String → List String
unfolding insert_sorted
sorted_by le [] = []
sorted_by le (x ∷ xs) = insert_sorted le x (sorted_by le xs)

-- (f, ii) <= (g, jj)
abbrev pub pair_le : (String → String → Bool) → String → ℕ → String → ℕ → Bool
pair_le le f i g j = if f == g then leb i j else le f g

unfoldable pub enumerate_from : ℕ → List String → List (String × ℕ)
enumerate_from n [] = []
enumerate_from n (f ∷ fs) = (f, n) ∷ enumerate_from (suc n) fs

unfoldable pub insert_pair :
    (String → String → Bool) → String → ℕ → List (String × ℕ) → List (String × ℕ)
insert_pair le f i [] = (f, i) ∷ []
insert_pair le f i ((g, j) ∷ ps) =
    let rest = insert_pair le f i ps in
    if pair_le le f i g j then (f, i) ∷ (g, j) ∷ ps else (g, j) ∷ rest

unfoldable pub sorted_pairs : (String → String → Bool) → List (String × ℕ) → List (String × ℕ)
unfolding insert_pair
sorted_pairs le [] = []
sorted_pairs le ((f, i) ∷ ps) = insert_pair le f i (sorted_pairs le ps)

-- {ii: f for (f, ii) in temp}.get(i), where a later pair wins
unfoldable pub at_index : List (String × ℕ) → ℕ → Option String
at_index [] i = none
at_index ((f, j) ∷ ps) i = or_else (at_index ps i) (if nat_eq j i then some f else none)

-- [temp[ii] for ii in range(n, n + count)]; `none` is the KeyError
unfoldable pub in_range : (ℕ → Option String) → (n count : ℕ) → Option (List String)
in_range temp n zero = some []
in_range temp n (suc count) = temp n >>? λ f. in_range temp (suc n) count >>? λ fs. some (f ∷ fs)

pub data Lookup : Type 0 where
  in_order : List String → Lookup
  keyed : Dict String → Lookup

-- The branch without a dict.
unfoldable pub index_lookup : Paths → List String → Normalizing Lookup
unfolding enumerate_from sorted_pairs at_index in_range
index_lookup P abs_files graph =
    elim (in_range (at_index (sorted_pairs P.path_le (enumerate_from 0 abs_files))) 0
      (length abs_files)) [
        | none ↦ (raise files_key_error, graph)
        | some fs ↦ (return (in_order fs), graph)
      ]

-- {lookup[ii]: abs_files[ii] for ii in range(len(lookup))}
unfoldable pub zip_keys : Dict FileItem → List String → Dict String
zip_keys ((k, _) ∷ d) (f ∷ fs) = (k, f) ∷ zip_keys d fs
zip_keys [] fs = []
zip_keys (_ ∷ _) [] = []

unfoldable pub values : Dict FileItem → List FileItem
values [] = []
values ((k, f) ∷ d) = f ∷ values d

abbrev pub and_normalize :
    Paths
    → Result FilesError (List String)
    → (List String → Normalizing Lookup)
    → Normalizing (List String × Lookup)
and_normalize P (raise e) look graph = (raise e, graph)
and_normalize P (return names) look graph =
    (normalize_all P names >>= λ abs_files.
    look abs_files >>= λ l. pure (sorted_by P.path_le abs_files, l))
      graph

unfoldable pub validate_files_argument :
    Paths → Bool → FilesArgument → Normalizing (List String × Lookup)
unfolding values
validate_files_argument P allow_absolute not_iterable graph = (raise files_type_error, graph)
validate_files_argument P allow_absolute (single file) graph = (raise files_type_error, graph)
validate_files_argument P allow_absolute (listed items) graph =
    and_normalize P (check_files P allow_absolute graph items) (index_lookup P) graph
validate_files_argument P allow_absolute (by_key d) graph =
    and_normalize P (check_files P allow_absolute graph (values d))
      (λ abs_files.
        if is_empty d then index_lookup P abs_files else pure (keyed (zip_keys d abs_files)))
      graph

pub data Key : Type 0 where
  by_index : ℕ → Key
  by_name : String → Key

abbrev pub item : FilesError → Option String → Result FilesError String
item e none = raise e
item e (some f) = return f

-- MultiFileGeneratingJob.__getitem__
unfoldable pub get_item : Lookup → (org_files : List String) → Key → Result FilesError String
get_item (in_order []) org_files (by_index i) = item files_index_error (get_elem? org_files i)
get_item (in_order []) org_files (by_name k) = raise files_value_error
get_item (in_order (f ∷ fs)) org_files (by_index i) = item files_index_error (get_elem? (f ∷ fs) i)
get_item (in_order (f ∷ fs)) org_files (by_name k) = raise files_value_error
get_item (keyed []) org_files (by_index i) = item files_index_error (get_elem? org_files i)
get_item (keyed []) org_files (by_name k) = raise files_value_error
get_item (keyed (e ∷ d)) org_files (by_index i) = raise files_key_error
get_item (keyed (e ∷ d)) org_files (by_name k) = item files_key_error (lookup k (e ∷ d))

unfoldable pub join : String → List String → String
join separator [] = ""
join separator (x ∷ []) = x
join separator (x ∷ y ∷ ys) = concat x (concat separator (join separator (y ∷ ys)))

-- Job.__new__: ":::".join(sorted(outputs))
unfoldable pub job_id_of : List String → String
unfolding sorted_by join
job_id_of outputs = join ":::" (sorted_by text_le outputs)

-- Job.__init__: the outputs and the id; a deduped job keeps its id.
unfoldable pub init_outputs : Option String → List String → Result FilesError (List String × String)
unfolding job_id_of
init_outputs known outputs =
    let job_id : String = elim known [ none ↦ job_id_of outputs | some j ↦ j ] in
    if is_some (find? job_id "!!!")
    then raise files_assertion_error
    else return (sorted_by text_le outputs, job_id)
