-- ===== src/Files.antt =====
-- The files that jobs make, and python/pypipegraph2/hashers.py. What a file's bytes are and how
-- xxhash digests them is a parameter.
use pypipegraph.Prelude.{
  Bool, Option, String, false, if◌then◌else◌, is_some, nat_eq, none, some, ℕ, ◌&&◌, ◌==◌,
}

pub record Hashing : Type 1 where
  pub Content : Type 0
  pub size_of : Content → ℕ
  -- xxh3_128 of all blocks, as a hex string
  pub hexdigest : Content → String

-- What hash_file returns.
pub record FileHash : Type 0 where
  pub hash : String
  pub mtime : ℕ
  pub size : ℕ

-- An entry of the history, out of a JSON file: `.get(key, -1)` may find nothing.
pub record StoredHash : Type 0 where
  pub stored_hash : Option String
  pub stored_mtime : Option ℕ
  pub stored_size : Option ℕ

unfoldable pub store : FileHash → StoredHash
store h = record {
  stored_hash = some h.hash;
  stored_mtime = some h.mtime;
  stored_size = some h.size;
}

module _ (H : Hashing) where
  pub record File : Type 0 where
    pub content : H.Content
    -- whole seconds
    pub mtime : ℕ

  abbrev pub FileSystem : Type 0
  FileSystem = String → Option File

  abbrev pub exists : String → FileSystem → Bool
  exists path fs = is_some (fs path)

  unfoldable pub unlink : String → FileSystem → FileSystem
  unlink path fs other = if path == other then none else fs other

  abbrev pub file_hash : File → FileHash
  file_hash f = record { hash = H.hexdigest f.content; mtime = f.mtime; size = H.size_of f.content }

  -- `none` is the FileNotFoundError.
  unfoldable pub hash_file : String → FileSystem → Option FileHash
  hash_file path fs = elim (fs path) [ none ↦ none | some f ↦ some (file_hash f) ]

-- MultiFileGeneratingJob.compare_hashes and FileInvariant.compare_hashes; `none` is the KeyError.
unfoldable pub compare_file_hashes : StoredHash → StoredHash → Option Bool
compare_file_hashes old new = elim new.stored_hash [
  | none ↦ none
  | some n ↦ some (n == (elim old.stored_hash [ none ↦ "" | some o ↦ o ]))
]

-- int(stat.st_mtime) == old.get("mtime", -1) and stat.st_size == old.get("size", -1)
abbrev pub is_number : Option ℕ → ℕ → Bool
is_number none n = false
is_number (some m) n = nat_eq n m

unfoldable pub same_stat : FileHash → StoredHash → Bool
same_stat h old = is_number old.stored_mtime h.mtime && is_number old.stored_size h.size
