-- ===== src/Filenames/Normal.antt =====
-- jobs.py, _normalize_path and _validate_files_argument: the cache changes nothing, and a job knows its
-- files in the order in which they were given.
-- What the cache holds is what would be computed now.
use mathlib.Core.Logic.{⊎_elim}
use pypipegraph.Exec.{Result, and_then, pure, raise, return, ◌>>=◌}
use pypipegraph.Filenames.{
  FileItem, FilesError, GraphPaths, Lookup, Normalizing, Paths, and_normalize, by_index, cached,
  check_files, files_index_error, files_value_error, get_item, in_order, index_lookup, item, listed,
  normalize_all, normalize_path, plain_path, remember, sorted_by, validate_files_argument,
}
use pypipegraph.Filenames.Positions.{index_lookup_lem}
use pypipegraph.Prelude.{
  Bool, Bool-cases, List, Option, Option-cases, String, [], ap, eq_iff, get_elem?, inl, inr,
  lookup-insert, none, refl, some, subst, sym, ℕ, ◌==◌, ◌>>?◌, ◌∙◌, ◌∷◌, ◌≡◌, ◌⊎◌,
}

abbrev pub CacheIsRight : Paths → Option GraphPaths → Type 0
CacheIsRight P graph =
    (path res : String) → cached graph path ≡ some res → plain_path P graph path ≡ some res

-- The paths of the names, computed without the cache.
unfoldable pub plain_all : Paths → Option GraphPaths → List String → Option (List String)
plain_all P graph [] = some []
plain_all P graph (f ∷ fs) =
    plain_path P graph f >>? λ x. plain_all P graph fs >>? λ xs. some (x ∷ xs)

abbrev or_raise : {A : Type 0} → Option A → Result FilesError A
or_raise none = raise files_value_error
or_raise (some a) = return a

-- The two graphs resolve paths in the same way.
abbrev SamePaths : Paths → Option GraphPaths → Option GraphPaths → Type 0
SamePaths P s t = (path : String) → plain_path P t path ≡ plain_path P s path

remember-SamePaths :
    (P : Paths) (path res : String) (graph : Option GraphPaths)
    → SamePaths P graph (remember path res graph)
unfolding plain_path
remember-SamePaths P path res none q = refl
remember-SamePaths P path res (some g) q = refl

cached-remember :
    (path res q : String) (graph : Option GraphPaths)
    → (cached (remember path res graph) q ≡ cached graph q)
      ⊎ ((path ≡ q) × (cached (remember path res graph) q ≡ some res))
cached-remember path res q none = inl refl
cached-remember path res q (some g) = elim (Bool-cases (path == q)) [
  | inl same ↦ inr ((eq_iff path q).0 same, lookup-insert path q res g.path_cache ∙ rw same refl)
  | inr other ↦ inl (lookup-insert path q res g.path_cache ∙ rw other refl)
]

remember-CacheIsRight :
    (P : Paths) (path res : String) (graph : Option GraphPaths)
    → CacheIsRight P graph
    → plain_path P graph path ≡ some res
    → CacheIsRight P (remember path res graph)
remember-CacheIsRight P path res graph right computed q r found =
    remember-SamePaths P path res graph q
    ∙ ⊎_elim (λ before. right q r (sym before ∙ found))
        (λ (same, now). ap (plain_path P graph) (sym same) ∙ computed ∙ sym now ∙ found)
        (cached-remember path res q graph)

-- What a call of the two functions does, whichever way it ends.
abbrev Transparent :
    {A : Type 0}
    → Paths
    → Option GraphPaths
    → Option A
    → Result FilesError A × Option GraphPaths
    → Type 0
Transparent P graph expected done =
    (done.0 ≡ or_raise expected) × CacheIsRight P done.1 × SamePaths P graph done.1

normalize_path_lem :
    (P : Paths) (path : String) (graph : Option GraphPaths)
    → CacheIsRight P graph
    → Transparent P graph (plain_path P graph path) (normalize_path P path graph)
unfolding normalize_path
normalize_path_lem P path graph right = elim (Option-cases (cached graph path)) [
  | inl (res, found) ↦ rw (found, right path res found) (refl, right, λ q. refl)
  | inr fresh ↦ elim (Option-cases (plain_path P graph path)) [
    | inl (res, computed) ↦
        rw (fresh, computed)
          (
            refl,
            remember-CacheIsRight P path res graph right computed,
            remember-SamePaths P path res graph,
          )
    | inr refused ↦ rw (fresh, refused) (refl, right, λ q. refl)
  ]
]

bind-Transparent :
    {A B : Type 0} (P : Paths) (graph : Option GraphPaths) (o : Option A) (k : A → Option B)
    (done : Result FilesError A × Option GraphPaths) (f : A → Normalizing B)
    → Transparent P graph o done
    → ((a : A) → Transparent P done.1 (k a) (f a done.1))
    → Transparent P graph (o >>? k) (and_then done.0 f done.1)
bind-Transparent P graph none k done f (ends, right, same) after = rw ends (refl, right, same)
bind-Transparent P graph (some a) k done f (ends, right, same) after =
    let (ends', right', same') = after a in rw ends (ends', right', λ q. same' q ∙ same q)

plain_all-SamePaths :
    (P : Paths) (s t : Option GraphPaths) (names : List String)
    → SamePaths P s t
    → plain_all P t names ≡ plain_all P s names
unfolding plain_all
plain_all-SamePaths P s t [] same = refl
plain_all-SamePaths P s t (f ∷ fs) same = rw (same f, plain_all-SamePaths P s t fs same) refl

normalize_all_lem :
    (P : Paths) (names : List String) (graph : Option GraphPaths)
    → CacheIsRight P graph
    → Transparent P graph (plain_all P graph names) (normalize_all P names graph)
unfolding normalize_all plain_all
normalize_all_lem P [] graph right = (refl, right, λ q. refl)
normalize_all_lem P (f ∷ fs) graph right =
    let done = normalize_path P f graph in
    let (ends, right', same) = normalize_path_lem P f graph right in
    let (rest_ends, right'', same') = normalize_all_lem P fs done.1 right' in
    bind-Transparent P graph (plain_path P graph f)
      (λ x. plain_all P graph fs >>? λ xs. some (x ∷ xs)) done
      (λ x. normalize_all P fs >>= λ xs. pure (x ∷ xs)) (ends, right', same)
      (λ x.
        subst
          (λ o. Transparent P done.1 (o >>? λ xs. some (x ∷ xs)) (
            and_then (normalize_all P fs done.1).0 (λ xs. pure (x ∷ xs))
              (normalize_all P fs done.1).1))
          (plain_all-SamePaths P graph done.1 fs same)
          (bind-Transparent P done.1 (plain_all P done.1 fs) (λ xs. some (x ∷ xs))
            (normalize_all P fs done.1) (λ xs. pure (x ∷ xs)) (rest_ends, right'', same')
            (λ xs. (refl, right'', λ q. refl))))

get_item-in_order :
    (P : Paths) (files : List String) (i : ℕ)
    → get_item (in_order files) (sorted_by P.path_le files) (by_index i)
      ≡ item files_index_error (get_elem? files i)
unfolding get_item sorted_by
get_item-in_order P [] i = refl
get_item-in_order P (f ∷ fs) i = refl

-- Files that are given in a list and that pass the tests: where one has no relative path, the
-- ValueError; else the job's files are their normal paths in sorted order, whatever the cache (which
-- is right) holds, and the job at index i is the normal path of the i-th file that was given.
pub listed_files_by_index :
    (P : Paths) (allow_absolute : Bool) (items : List FileItem) (names : List String)
    (graph : Option GraphPaths)
    → CacheIsRight P graph
    → check_files P allow_absolute graph items ≡ return names
    → ((plain_all P graph names ≡ none)
        × ((validate_files_argument P allow_absolute (listed items) graph).0
            ≡ raise files_value_error))
      ⊎ ((paths : List String) × (plain_all P graph names ≡ some paths)
          × ((validate_files_argument P allow_absolute (listed items) graph).0
              ≡ return (sorted_by P.path_le paths, in_order paths))
          × ((i : ℕ)
              → get_item (in_order paths) (sorted_by P.path_le paths) (by_index i)
                ≡ item files_index_error (get_elem? paths i)))
unfolding validate_files_argument
listed_files_by_index P allow_absolute items names graph right passed =
    elim (Option-cases (plain_all P graph names)) [
      | inr refused ↦ inl (refused, ends ∙ ap finish refused)
      | inl (paths, normal) ↦
          inr (paths, normal, ends ∙ ap finish normal, get_item-in_order P paths)
    ]
  where
    finish : Option (List String) → Result FilesError (List String × Lookup)
    finish o = or_raise (o >>? λ paths. some (sorted_by P.path_le paths, in_order paths))

    both : List String → Normalizing (List String × Lookup)
    both paths = index_lookup P paths >>= λ l. pure (sorted_by P.path_le paths, l)

    looked_up :
        (paths : List String) (s : Option GraphPaths)
        → both paths s ≡ (return (sorted_by P.path_le paths, in_order paths), s)
    looked_up paths s = rw (index_lookup_lem P paths s) refl

    ends :
        (and_normalize P (check_files P allow_absolute graph items) (index_lookup P) graph).0
        ≡ finish (plain_all P graph names)
    ends =
        let done = normalize_all P names graph in
        let (all_end, right', same) = normalize_all_lem P names graph right in
        rw passed
          (bind-Transparent P graph (plain_all P graph names)
            (λ paths. some (sorted_by P.path_le paths, in_order paths)) done both
            (all_end, right', same)
            (λ paths.
              subst (Transparent P done.1 (some (sorted_by P.path_le paths, in_order paths)))
                (sym (looked_up paths done.1)) (refl, right', λ q. refl))).0
