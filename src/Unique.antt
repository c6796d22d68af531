-- ===== src/Unique.antt =====
-- python/pypipegraph2/util.py, assert_uniqueness_of_object.
-- pipegraph.object_uniquifier: the names in use, by class
use pypipegraph.Exec.{Exec, raise, return}
use pypipegraph.Prelude.{
  Bool, Dict, List, String, [], arith, contains, eq_iff, eq_refl, false, if◌then◌else◌, insert,
  is_some, length, lookup, lookup-insert, none, some, true, ℕ, ◌==◌, ◌||◌, ◌∷◌, ◌≡◌,
}
use text.Mathlib.Text.{find?}

abbrev pub Uniquifier : Type 0
Uniquifier = Dict (List String)

abbrev pub names_of : String → Uniquifier → List String
names_of typ u = elim (lookup typ u) [ none ↦ [] | some names ↦ names ]

pub data NameError : Type 0 where
  contains_slash duplicate_object : NameError

-- for other_typ in also_check
unfoldable pub in_any : List String → String → Uniquifier → Bool
in_any [] name u = false
in_any (typ ∷ typs) name u = contains (names_of typ u) name || in_any typs name u

-- With the `unique_id` that the object gets. The class is entered before the name is tested.
unfoldable pub assert_uniqueness_of_object :
    (typ name : String) (also_check : List String) → Exec Uniquifier NameError ℕ
assert_uniqueness_of_object typ name also_check u =
    let entered = insert typ (names_of typ u) u in
    if is_some (find? name "/")
    then (raise contains_slash, u)
    else if contains (names_of typ u) name
    then (raise duplicate_object, entered)
    else if in_any also_check name entered
    then (raise duplicate_object, entered)
    else (return (length (names_of typ u)), insert typ (name ∷ names_of typ u) u)

-- A program that makes objects, and catches what the calls raise.
unfoldable pub make_all : List (String × String × List String) → Uniquifier → Uniquifier
make_all [] u = u
make_all ((typ, name, also_check) ∷ rest) u =
    make_all rest (assert_uniqueness_of_object typ name also_check u).1

names_of-insert :
    (t typ : String) (names : List String) (u : Uniquifier)
    → names_of typ (insert t names u) ≡ (if t == typ then names else names_of typ u)
names_of-insert t typ names u = ground (arith, lookup-insert t typ names u)

-- What a call leaves for a class, whether it raises or not.
names_kept :
    (typ name t n : String) (also_check : List String) (u : Uniquifier)
    → contains (names_of typ u) name ≡ true
    → contains (names_of typ (assert_uniqueness_of_object t n also_check u).1) name ≡ true
unfolding assert_uniqueness_of_object contains
names_kept typ name t n also_check u h = ground (
  arith,
  names_of-insert t typ (names_of t u) u,
  names_of-insert t typ (n ∷ names_of t u) u,
  eq_iff t typ,
)

make_all-names :
    (typ name : String) (calls : List (String × String × List String)) (u : Uniquifier)
    → contains (names_of typ u) name ≡ true
    → contains (names_of typ (make_all calls u)) name ≡ true
unfolding make_all
make_all-names typ name [] u h = h
make_all-names typ name ((t, n, also_check) ∷ rest) u h =
    make_all-names typ name rest _ (names_kept typ name t n also_check u h)

name_entered :
    (typ name : String) (also_check : List String) (u : Uniquifier) (id : ℕ)
    → (assert_uniqueness_of_object typ name also_check u).0 ≡ return id
    → (contains (names_of typ (assert_uniqueness_of_object typ name also_check u).1) name ≡ true)
      × (is_some (find? name "/") ≡ false)
unfolding assert_uniqueness_of_object contains
name_entered typ name also_check u id h =
    ground (arith, names_of-insert typ typ (name ∷ names_of typ u) u, eq_refl typ, eq_refl name)

refused_again :
    (typ name : String) (also_check : List String) (u : Uniquifier)
    → contains (names_of typ u) name ≡ true
    → is_some (find? name "/") ≡ false
    → (assert_uniqueness_of_object typ name also_check u).0 ≡ raise duplicate_object
unfolding assert_uniqueness_of_object
refused_again typ name also_check u there no_slash = ground (arith, there, no_slash)

-- Once an object of a class has a name, no later call lets another object of this class have it,
-- whatever objects are made in between, and whatever other classes each call also checks.
pub name_stays_taken :
    (typ name : String) (also_check also_check' : List String)
    (calls : List (String × String × List String)) (u : Uniquifier) (id : ℕ)
    → (assert_uniqueness_of_object typ name also_check u).0 ≡ return id
    → (assert_uniqueness_of_object typ name also_check'
        (make_all calls (assert_uniqueness_of_object typ name also_check u).1)).0
      ≡ raise duplicate_object
name_stays_taken typ name also_check also_check' calls u id h =
    let (there, no_slash) = name_entered typ name also_check u id h in
    refused_again typ name also_check' _ (make_all-names typ name calls _ there) no_slash
