-- ===== src/Prelude/Sets.antt =====
-- Python's sets of strings, as lists read through `contains` alone: no order, no multiplicity.
use mathlib.Core.Path.{◌≡◌, refl}
use mathlib.Core.Logic.{◌⊎◌}
use mathlib.Core.Bool.{Bool, true, false, not, ◌&&◌, ◌||◌}
use mathlib.Core.List.{List, [], ◌∷◌, ◌++◌}
use Prim.Native.String.{String}
use native.Mathlib.Omega.{arith}
use text.Mathlib.Text.{◌==◌}
use text.Mathlib.TextEquality.{eq_iff}
use package.pypipegraph.Prelude.Tests.{if◌then◌else◌}

-- x in s
unfoldable pub contains : List String → String → Bool
contains [] x = false
contains (y ∷ ys) x = y == x || contains ys x

-- s.remove(x), for all copies that the list has of it
unfoldable pub remove : String → List String → List String
remove x [] = []
remove x (y ∷ ys) = let rest = remove x ys in if y == x then rest else y ∷ rest

-- s.add(x)
unfoldable pub add : String → List String → List String
unfolding contains
add x s = if contains s x then s else x ∷ s

-- s.difference(t)
unfoldable pub difference : List String → List String → List String
unfolding contains
difference [] t = []
difference (x ∷ xs) t = let rest = difference xs t in if contains t x then rest else x ∷ rest

-- all(x in t for x in s)
unfoldable pub subset : List String → List String → Bool
subset [] t = true
subset (x ∷ xs) t = contains t x && subset xs t

pub contains-append :
    (xs ys : List String) (x : String) → contains (xs ++ ys) x ≡ (contains xs x || contains ys x)
unfolding contains
contains-append [] ys x = refl
contains-append (y ∷ xs) ys x = ground (arith, contains-append xs ys x)

pub contains-remove :
    (x y : String) (s : List String) → contains (remove x s) y ≡ (not (x == y) && contains s y)
unfolding contains remove
contains-remove x y [] = ground arith
contains-remove x y (z ∷ s) =
    ground (arith, contains-remove x y s, eq_iff x y, eq_iff z x, eq_iff z y)

pub contains-add :
    (x y : String) (s : List String) → contains (add x s) y ≡ (x == y || contains s y)
unfolding contains add
contains-add x y s = ground (arith, eq_iff x y)

pub contains-difference :
    (s t : List String) (x : String)
    → contains (difference s t) x ≡ (contains s x && not (contains t x))
unfolding contains difference
contains-difference [] t x = refl
contains-difference (y ∷ s) t x = ground (arith, contains-difference s t x, eq_iff y x)

pub contains-subset :
    (s t : List String) (x : String) → subset s t ≡ true → contains s x ≡ true → contains t x ≡ true
unfolding contains subset
contains-subset [] t x h m = cc
contains-subset (y ∷ s) t x h m = ground (arith, contains-subset s t x, eq_iff y x)

-- The same facts one way at a time, for proofs that build a value.
pub contains_here : (x : String) (s : List String) → contains (x ∷ s) x ≡ true
unfolding contains
contains_here x s = ground (arith, eq_iff x x)

pub contains_there :
    (x y : String) (s : List String) → contains s y ≡ true → contains (x ∷ s) y ≡ true
unfolding contains
contains_there x y s h = ground arith

pub contains-cons_cases :
    (x y : String) (s : List String) → contains (x ∷ s) y ≡ true → (x ≡ y) ⊎ (contains s y ≡ true)
unfolding contains
contains-cons_cases x y s h = ground (arith, eq_iff x y)

pub contains_singleton : (x y : String) → contains (x ∷ []) y ≡ true → x ≡ y
unfolding contains
contains_singleton x y h = ground (arith, eq_iff x y)

pub contains-append_cases :
    (xs ys : List String) (x : String)
    → contains (xs ++ ys) x ≡ true
    → (contains xs x ≡ true) ⊎ (contains ys x ≡ true)
contains-append_cases xs ys x h = ground (arith, contains-append xs ys x)

pub contains-append_left :
    (xs ys : List String) (x : String) → contains xs x ≡ true → contains (xs ++ ys) x ≡ true
contains-append_left xs ys x h = ground (arith, contains-append xs ys x)

pub contains-append_right :
    (xs ys : List String) (x : String) → contains ys x ≡ true → contains (xs ++ ys) x ≡ true
contains-append_right xs ys x h = ground (arith, contains-append xs ys x)

abbrev pub AreDistinct : List String → Type 0
AreDistinct [] = Unit
AreDistinct (x ∷ xs) = (contains xs x ≡ false) × AreDistinct xs
