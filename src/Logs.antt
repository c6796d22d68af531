-- ===== src/Logs.antt =====
-- graph.py, _cleanup_logs, _cleanup_errors and _link_latest: which of the old logs and of the folders
-- of errors a run leaves. What a pattern matches is a parameter (glob).
pub mod Bounds
pub mod Retention
pub mod Latest
use pypipegraph.Prelude.{
  Bool, Dict, List, Option, String, [], concat, delete, false, if◌then◌else◌, length, ltb, nat_eq,
  none, remove, some, substring, suc, text_le, text_length, true, zero, ℕ, ◌-◌, ◌∷◌,
}

-- sorted(...)
unfoldable pub insert_name : String → List String → List String
insert_name x [] = x ∷ []
insert_name x (y ∷ ys) = let rest = insert_name x ys in if text_le x y then x ∷ y ∷ ys else y ∷ rest

unfoldable pub sorted : List String → List String
sorted [] = []
sorted (x ∷ xs) = insert_name x (sorted xs)

-- dir.glob(pattern)
unfoldable pub glob : (String → Bool) → List String → List String
glob matches [] = []
glob matches (x ∷ xs) = let rest = glob matches xs in if matches x then x ∷ rest else rest

unfoldable pub take : ℕ → List String → List String
take zero xs = []
take (suc n) [] = []
take (suc n) (x ∷ xs) = x ∷ take n xs

-- files[: -n]
unfoldable pub up_to_last : ℕ → List String → List String
unfolding take
up_to_last n files = if nat_eq n 0 then [] else take (length files - n) files

-- `remove`, for files in order
unfoldable pub outdated : ℕ → List String → List String
unfolding up_to_last
outdated log_retention files =
    if ltb log_retention (length files) then up_to_last log_retention files else []

-- f.name[: -1 * len(".messages.log")] + ".lookup.log"
unfoldable pub lookup_log : String → String
lookup_log name =
    concat (substring name 0 (text_length name - text_length ".messages.log")) ".lookup.log"

-- The two files of a run.
unfoldable pub unlink_logs : List String → List String → List String
unfolding lookup_log
unlink_logs [] names = names
unlink_logs (f ∷ fs) names = unlink_logs fs (remove (lookup_log f) (remove f names))

-- On the names in log_dir.
unfoldable pub cleanup_logs : (String → Bool) → Option ℕ → List String → List String
unfolding sorted glob outdated unlink_logs
cleanup_logs messages_log none names = names
cleanup_logs messages_log (some log_retention) names =
    unlink_logs (outdated log_retention (sorted (glob messages_log names))) names

pub data ErrorEntry : Type 0 where
  directory linked_name plain_file : ErrorEntry

-- x.is_dir() and not x.is_symlink()
abbrev pub is_directory : ErrorEntry → Bool
is_directory directory = true
is_directory _ = false

unfoldable pub directories : Dict ErrorEntry → List String
directories [] = []
directories ((name, entry) ∷ entries) =
    let rest = directories entries in if is_directory entry then name ∷ rest else rest

unfoldable pub rmtree_all : List String → Dict ErrorEntry → Dict ErrorEntry
rmtree_all [] entries = entries
rmtree_all (f ∷ fs) entries = rmtree_all fs (delete f entries)

-- On the entries of error_dir.
unfoldable pub cleanup_errors : Option ℕ → Dict ErrorEntry → Dict ErrorEntry
unfolding sorted outdated directories rmtree_all
cleanup_errors none entries = entries
cleanup_errors (some log_retention) entries =
    rmtree_all (outdated log_retention (sorted (directories entries))) entries
