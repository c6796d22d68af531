-- ===== src/Logs/Bounds.antt =====
-- How many logs and folders of errors stay.
-- How many names pass a test.
use pypipegraph.Logs.{insert_name, outdated, sorted, take, up_to_last}
use pypipegraph.Prelude.{
  Bool, List, String, [], ap, arith, if◌then◌else◌, length, refl, suc, zero, ℕ, ◌++◌, ◌+◌, ◌-◌, ◌∷◌,
  ◌≡◌, ◌≤◌,
}

unfoldable pub count : (String → Bool) → List String → ℕ
count test [] = 0
count test (x ∷ xs) = (if test x then 1 else 0) + count test xs

pub count-insert_name :
    (test : String → Bool) (x : String) (xs : List String)
    → count test (insert_name x xs) ≡ count test (x ∷ xs)
unfolding count insert_name
count-insert_name test x [] = refl
count-insert_name test x (y ∷ ys) = ground (arith, count-insert_name test x ys)

pub count-sorted :
    (test : String → Bool) (xs : List String) → count test (sorted xs) ≡ count test xs
unfolding count sorted
count-sorted test [] = refl
count-sorted test (x ∷ xs) =
    ground (arith, count-insert_name test x (sorted xs), count-sorted test xs)

pub count-append :
    (test : String → Bool) (xs ys : List String)
    → count test (xs ++ ys) ≡ count test xs + count test ys
unfolding count
count-append test [] ys = omega arith
count-append test (x ∷ xs) ys = omega (arith, count-append test xs ys)

pub count_le : (test : String → Bool) (xs : List String) → count test xs ≤ length xs
unfolding count
count_le test [] = omega arith
count_le test (x ∷ xs) = ground (arith, count_le test xs)

-- xs from n on
unfoldable pub drop : ℕ → List String → List String
drop zero xs = xs
drop (suc n) [] = []
drop (suc n) (x ∷ xs) = drop n xs

take-drop : (n : ℕ) (xs : List String) → take n xs ++ drop n xs ≡ xs
unfolding take drop
take-drop zero xs = refl
take-drop (suc n) [] = refl
take-drop (suc n) (x ∷ xs) = ap (λ ys. x ∷ ys) (take-drop n xs)

length-drop : (n : ℕ) (xs : List String) → length (drop n xs) ≡ length xs - n
unfolding drop
length-drop zero xs = omega arith
length-drop (suc n) [] = omega arith
length-drop (suc n) (x ∷ xs) = omega (arith, length-drop n xs)

-- What passes a test that the outdated files fail is among the last ones.
pub kept_bound :
    (n : ℕ) (test : String → Bool) (files : List String)
    → count test (outdated (suc n) files) ≡ 0
    → count test files ≤ suc n
unfolding outdated up_to_last
kept_bound n test files h = ground (
  arith,
  take-drop (length files - suc n) files,
  count-append test (take (length files - suc n) files) (drop (length files - suc n) files),
  count_le test (drop (length files - suc n) files),
  count_le test files,
  length-drop (length files - suc n) files,
)
