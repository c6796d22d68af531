-- ===== src/Shared/Entries.antt =====
-- jobs.py, SharedMultiFileGeneratingJob: the entries of its folders, and the parts of `_cleanup` that
-- go through them.
use pypipegraph.Exec.{Result, raise, return}
use pypipegraph.Jobs.MultiFile.{JobException}
use pypipegraph.Prelude.{
  Bool, Dict, List, Option, String, [], contains, delete, false, if◌then◌else◌, lookup, none, some,
  true, ◌&&◌, ◌||◌, ◌∷◌,
}

pub data InputEntry : Type 0 where
  -- a symlink to ../done/<key>
  link : String → InputEntry
  no_link : InputEntry

pub data SharedError : Type 0 where
  -- JobEvaluationFailed
  not_a_symlink : SharedError
  build_failed : JobException → SharedError
  fubared_directory : SharedError
  -- JobContractError
  two_outputs partial_result : SharedError
  missing_outputs usage_collision : SharedError
  -- FileNotFoundError and OSError of `readlink` and `unlink`, and a KeyError
  dangling_use not_readable unlink_refused missing_entry : SharedError

unfoldable pub all_of : (String → Bool) → List String → Bool
all_of test [] = true
all_of test (x ∷ xs) = test x && all_of test xs

unfoldable pub any_of : (String → Bool) → List String → Bool
any_of test [] = false
any_of test (x ∷ xs) = test x || any_of test xs

-- used_outputs; a use of a symlink that is not there, or of no symlink, raises.
unfoldable pub used_outputs : List String → Dict InputEntry → Result SharedError (List String)
used_outputs [] by_input = return []
used_outputs (key ∷ rest) by_input = elim (lookup key by_input) [
  | none ↦ raise dangling_use
  | some no_link ↦ raise not_readable
  | some (link k) ↦ elim (used_outputs rest by_input) [
    | raise e ↦ raise e
    | return ks ↦ return (k ∷ ks)
  ]
]

-- The values of a dict; the `.uses` links by their names.
unfoldable pub values : {V : Type 0} → Dict V → List V
values [] = []
values ((k, v) ∷ d) = v ∷ values d

-- Unlink each entry that is not used; only a symlink can be unlinked.
unfoldable pub drop_inputs :
    List String
    → Dict InputEntry
    → Dict InputEntry
    → Result SharedError (Unit {0}) × Dict InputEntry
drop_inputs used [] left = (return tt, left)
drop_inputs used ((key, entry) ∷ rest) left =
    let dropped : Result SharedError (Unit {0}) × Dict InputEntry =
      drop_inputs used rest (delete key left) in
    if contains used key
    then drop_inputs used rest left
    else elim entry [ link k ↦ dropped | no_link ↦ (raise unlink_refused, left) ]

unfoldable pub keep_only : {V : Type 0} → List String → Dict V → Dict V
keep_only used [] = []
keep_only used ((k, v) ∷ d) =
    let rest = keep_only used d in if contains used k then (k, v) ∷ rest else rest

abbrev pub local_of : Option (Dict String) → Dict String
local_of none = []
local_of (some known) = known

abbrev pub is_plain : Option InputEntry → Bool
is_plain (some no_link) = true
is_plain _ = false
