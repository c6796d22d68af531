-- ===== src/Shared/Naming.antt =====
-- jobs.py, SharedMultiFileGeneratingJob._derive_output_name and _hash_hashes: the keys by which inputs
-- and outputs are filed. sha512 is a parameter, on the texts in the order of the updates.
use pypipegraph.Files.{StoredHash}
use pypipegraph.Prelude.{
  Bool, Dict, List, Option, String, [], ap, false, if◌then◌else◌, insert, is_empty, lookup, none,
  refl, some, subst, text_le, true, ◌++◌, ◌==◌, ◌>>?◌, ◌∙◌, ◌∷◌, ◌≡◌,
}
use pypipegraph.Shared.{found}

-- A job of the runner, as far as its outputs are hashed here.
pub record NamedJob : Type 0 where
  -- output_dir_prefix of a SharedMultiFileGeneratingJob, and none for other classes
  pub shared_prefix : Option String
  -- `none` is the KeyError
  pub extract_strict_hash : StoredHash → Option String

pub record Naming : Type 0 where
  pub hexdigest : List String → String
  pub outputs_to_job_ids : Dict String
  pub jobs : Dict NamedJob
  -- json.loads(runner.evaluator.get_job_output(job_id)); `none` is the ValueError
  pub get_job_output : String → Option (Dict StoredHash)
  pub job_inputs : List String

-- sorted(hashes.items()), whose keys differ
unfoldable pub insert_item : String → StoredHash → Dict StoredHash → Dict StoredHash
insert_item k h [] = (k, h) ∷ []
insert_item k h ((j, g) ∷ items) =
    let rest = insert_item k h items in
    if text_le k j then (k, h) ∷ (j, g) ∷ items else (j, g) ∷ rest

unfoldable pub sorted_items : Dict StoredHash → Dict StoredHash
unfolding insert_item
sorted_items [] = []
sorted_items ((k, h) ∷ items) = insert_item k h (sorted_items items)

abbrev pub is_prefix_of : Option String → String → Bool
is_prefix_of none key = false
is_prefix_of (some prefix) key = key == prefix

-- runner.jobs[runner.job_graph.outputs_to_job_ids[key]]
abbrev pub job_of : Naming → String → Option NamedJob
job_of N key = lookup key N.outputs_to_job_ids >>? λ job_id. lookup job_id N.jobs

-- What one item adds to the updates.
abbrev pub updates_of : String → NamedJob → StoredHash → Option (List String)
updates_of key job value =
    if is_prefix_of job.shared_prefix key
    then some []
    else (job.extract_strict_hash value >>? λ strict. some (key ∷ strict ∷ []))

unfoldable pub updates : Naming → Dict StoredHash → Option (List String)
updates N [] = some []
updates N ((key, value) ∷ items) =
    let rest = updates N items in
    job_of N key >>? λ job.
    updates_of key job value >>? λ first. rest >>? λ later. some (first ++ later)

unfoldable pub hash_hashes : Naming → Dict StoredHash → Option String
unfolding sorted_items updates
hash_hashes N hashes = updates N (sorted_items hashes) >>? λ texts. some (N.hexdigest texts)

unfoldable pub updated_input : Naming → List String → Dict StoredHash → Option (Dict StoredHash)
updated_input N [] found = some found
updated_input N (input_filename ∷ names) found =
    lookup input_filename N.outputs_to_job_ids >>? λ upstream_job_id.
    N.get_job_output upstream_job_id >>? λ job_output. lookup input_filename job_output >>? λ jj.
    updated_input N names (insert input_filename jj found)

unfoldable pub derive_output_name : Naming → Option String
unfolding updated_input hash_hashes
derive_output_name N =
    if is_empty N.job_inputs
    then some "no_input"
    else (updated_input N N.job_inputs [] >>? λ hashes. hash_hashes N hashes)

-- The same items, but for what a strict hash leaves out, like times of files.
abbrev SameStrict : Naming → Dict StoredHash → Dict StoredHash → Type 0
SameStrict N [] [] = Unit
SameStrict N [] (_ ∷ _) = ⊥
SameStrict N (_ ∷ _) [] = ⊥
SameStrict N ((k, h) ∷ a) ((j, g) ∷ b) =
    (k ≡ j)
    × ((job : NamedJob)
        → job_of N k ≡ some job
        → job.extract_strict_hash h ≡ job.extract_strict_hash g)
    × SameStrict N a b

-- The entry of one item, before those that follow.
abbrev joined : Option (List String) → Option (List String) → Option (List String)
joined first rest = first >>? λ texts. rest >>? λ later. some (texts ++ later)

updates_of-same :
    (key : String) (job : NamedJob) (h g : StoredHash)
    → job.extract_strict_hash h ≡ job.extract_strict_hash g
    → updates_of key job h ≡ updates_of key job g
updates_of-same key job h g e =
    ap
      (λ o.
        if is_prefix_of job.shared_prefix key
        then some []
        else (o >>? λ strict. some (key ∷ strict ∷ [])))
      e

updates-SameStrict :
    (N : Naming) (a b : Dict StoredHash) → SameStrict N a b → updates N a ≡ updates N b
unfolding updates
updates-SameStrict N [] [] same = refl
updates-SameStrict N [] (_ ∷ _) same = absurd same
updates-SameStrict N (_ ∷ _) [] same = absurd same
updates-SameStrict N ((k, h) ∷ a) ((j, g) ∷ b) (e, strict, same) =
    subst
      (λ z.
        updates N ((k, h) ∷ a) ≡ (job_of N z >>? λ job. joined (updates_of z job g) (updates N b)))
      e (both (job_of N k) refl (updates-SameStrict N a b same))
  where
    both :
        (o : Option NamedJob)
        → job_of N k ≡ o
        → updates N a ≡ updates N b
        → (o >>? λ job. joined (updates_of k job h) (updates N a))
          ≡ (o >>? λ job. joined (updates_of k job g) (updates N b))
    both none known later = refl
    both (some job) known later =
        ap (joined (updates_of k job h)) later
        ∙ ap (λ u. joined u (updates N b)) (updates_of-same k job h g (strict job known))

insert_item-SameStrict :
    (N : Naming) (k : String) (h g : StoredHash) (a b : Dict StoredHash)
    → ((job : NamedJob)
        → job_of N k ≡ some job
        → job.extract_strict_hash h ≡ job.extract_strict_hash g)
    → SameStrict N a b
    → SameStrict N (insert_item k h a) (insert_item k g b)
unfolding insert_item
insert_item-SameStrict N k h g [] [] strict same = (refl, strict, tt)
insert_item-SameStrict N k h g [] (_ ∷ _) strict same = absurd same
insert_item-SameStrict N k h g (_ ∷ _) [] strict same = absurd same
insert_item-SameStrict N k h g ((i, x) ∷ a) ((j, y) ∷ b) strict (e, also, same) =
    subst
      (λ z.
        SameStrict N (insert_item k h ((i, x) ∷ a))
          (if text_le k z then (k, g) ∷ (z, y) ∷ b else (z, y) ∷ insert_item k g b))
      e (step (text_le k i) (insert_item-SameStrict N k h g a b strict same))
  where
    step :
        (first : Bool)
        → SameStrict N (insert_item k h a) (insert_item k g b)
        → SameStrict N
            (if first then (k, h) ∷ (i, x) ∷ a else (i, x) ∷ insert_item k h a)
            (if first then (k, g) ∷ (i, y) ∷ b else (i, y) ∷ insert_item k g b)
    step true rest = (refl, strict, (refl, also, same))
    step false rest = (refl, also, rest)

sorted_items-SameStrict :
    (N : Naming) (a b : Dict StoredHash)
    → SameStrict N a b
    → SameStrict N (sorted_items a) (sorted_items b)
unfolding sorted_items
sorted_items-SameStrict N [] [] same = tt
sorted_items-SameStrict N [] (_ ∷ _) same = absurd same
sorted_items-SameStrict N (_ ∷ _) [] same = absurd same
sorted_items-SameStrict N ((k, h) ∷ a) ((j, g) ∷ b) (e, strict, same) =
    subst (λ z. SameStrict N (insert_item k h (sorted_items a)) (insert_item z g (sorted_items b)))
      e
      (insert_item-SameStrict N k h g (sorted_items a) (sorted_items b) strict
        (sorted_items-SameStrict N a b same))

-- Hashes that differ only in what their jobs' strict hashes leave out, like the times of files, get
-- the same key, so that the same outputs are filed once.
hash_hashes_stable :
    (N : Naming) (a b : Dict StoredHash) → SameStrict N a b → hash_hashes N a ≡ hash_hashes N b
unfolding hash_hashes
hash_hashes_stable N a b same =
    ap (λ o. o >>? λ texts. some (N.hexdigest texts))
      (updates-SameStrict N (sorted_items a) (sorted_items b) (sorted_items-SameStrict N a b same))
