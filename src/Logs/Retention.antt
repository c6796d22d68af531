-- ===== src/Logs/Retention.antt =====
-- _cleanup_logs and _cleanup_errors leave as many as `log_retention` says.
-- x passes and is none of fs.
use pypipegraph.Logs.{
  ErrorEntry, cleanup_errors, cleanup_logs, directories, glob, is_directory, lookup_log, outdated,
  rmtree_all, sorted, unlink_logs, up_to_last,
}
use pypipegraph.Logs.Bounds.{count, count-sorted, kept_bound}
use pypipegraph.Prelude.{
  Bool, Bool-cases, Dict, List, String, [], ap, arith, contains, contains_here, contains_there,
  delete, eq_iff, false, length, not, refl, remove, some, suc, true, ℕ, ◌&&◌, ◌==◌, ◌∷◌, ◌≡◌, ◌≤◌,
}

abbrev spared : (String → Bool) → List String → String → Bool
spared test fs x = test x && not (contains fs x)

count-congruent :
    (p q : String → Bool) (xs : List String) → ((x : String) → p x ≡ q x) → count p xs ≡ count q xs
unfolding count
count-congruent p q [] h = refl
count-congruent p q (x ∷ xs) h = ground (arith, h x, count-congruent p q xs h)

count-remove :
    (test : String → Bool) (f : String) (xs : List String)
    → count test (remove f xs) ≡ count (λ x. test x && not (f == x)) xs
unfolding count remove
count-remove test f [] = refl
count-remove test f (x ∷ xs) = ground (arith, count-remove test f xs, eq_iff f x, eq_iff x f)

count-remove_le :
    (test : String → Bool) (f : String) (xs : List String)
    → count test (remove f xs) ≤ count test xs
unfolding count remove
count-remove_le test f [] = omega arith
count-remove_le test f (x ∷ xs) = ground (arith, count-remove_le test f xs)

count-unlink_logs :
    (test : String → Bool) (fs names : List String)
    → count test (unlink_logs fs names) ≤ count (spared test fs) names
unfolding unlink_logs contains
count-unlink_logs test [] names =
    ground (arith, count-congruent test (spared test []) names (λ x. ground arith))
count-unlink_logs test (f ∷ fs) names = omega (
  arith,
  count-unlink_logs test fs (remove (lookup_log f) (remove f names)),
  count-remove_le (spared test fs) (lookup_log f) (remove f names),
  count-remove (spared test fs) f names,
  count-congruent (λ x. spared test fs x && not (f == x)) (spared test (f ∷ fs)) names
      (λ x. ground arith),
)

count-none :
    (test : String → Bool) (xs : List String)
    → ((x : String) → contains xs x ≡ true → test x ≡ false)
    → count test xs ≡ 0
unfolding count contains
count-none test [] h = refl
count-none test (x ∷ xs) h =
    ground
      (arith, h x (contains_here x xs), count-none test xs (λ y m. h y (contains_there x y xs m)))

count-glob :
    (matches test : String → Bool) (xs : List String)
    → ((x : String) → matches x ≡ false → test x ≡ false)
    → count test (glob matches xs) ≡ count test xs
unfolding count glob
count-glob matches test [] h = refl
count-glob matches test (x ∷ xs) h =
    ground (arith, h x, Bool-cases (matches x), count-glob matches test xs h)

spared_bound :
    (n : ℕ) (test : String → Bool) (files : List String)
    → count (spared test (outdated (suc n) files)) files ≤ suc n
spared_bound n test files = kept_bound n (spared test (outdated (suc n) files)) files (
    count-none (spared test (outdated (suc n) files)) (outdated (suc n) files)
      (λ x m. ground arith))

outdated_zero : (files : List String) → outdated 0 files ≡ []
unfolding outdated up_to_last
outdated_zero files = ground arith

spared-glob :
    (matches : String → Bool) (n : ℕ) (names : List String)
    → count (spared matches (outdated (suc n) (sorted (glob matches names)))) names ≤ suc n
spared-glob matches n names =
    let files = sorted (glob matches names) in
    omega (
      arith,
      count-glob matches (spared matches (outdated (suc n) files)) names (λ x h. ground arith),
      count-sorted (spared matches (outdated (suc n) files)) (glob matches names),
      spared_bound n matches files,
    )

-- With a log_retention of at least one, at most that many message logs are left. With a
-- log_retention of zero nothing is removed at all.
pub logs_bounded :
    (messages_log : String → Bool) (n : ℕ) (names : List String)
    → (count messages_log (cleanup_logs messages_log (some (suc n)) names) ≤ suc n)
      × (cleanup_logs messages_log (some 0) names ≡ names)
unfolding cleanup_logs
logs_bounded messages_log n names = (
  omega (
    arith,
    count-unlink_logs messages_log (outdated (suc n) (sorted (glob messages_log names))) names,
    spared-glob messages_log n names,
  ),
  rw (outdated_zero (sorted (glob messages_log names)), unlink_logs) refl,
)

directories-delete :
    (f : String) (entries : Dict ErrorEntry)
    → directories (delete f entries) ≡ remove f (directories entries)
unfolding directories delete remove
directories-delete f [] = refl
directories-delete f ((name, entry) ∷ entries) =
    ground (arith, directories-delete f entries, Bool-cases (is_directory entry))

count-rmtree_all :
    (test : String → Bool) (fs : List String) (entries : Dict ErrorEntry)
    → count test (directories (rmtree_all fs entries))
      ≡ count (spared test fs) (directories entries)
unfolding rmtree_all contains
count-rmtree_all test [] entries =
    count-congruent test (spared test []) (directories entries) (λ x. ground arith)
count-rmtree_all test (f ∷ fs) entries = omega (
  arith,
  count-rmtree_all test fs (delete f entries),
  ap (count (spared test fs)) (directories-delete f entries),
  count-remove (spared test fs) f (directories entries),
  count-congruent (λ x. spared test fs x && not (f == x)) (spared test (f ∷ fs))
      (directories entries) (λ x. ground arith),
)

count_all : (xs : List String) → count (λ _. true) xs ≡ length xs
unfolding count
count_all [] = refl
count_all (x ∷ xs) = omega (arith, count_all xs)

-- With a log_retention of at least one, at most that many folders of errors are left. With a
-- log_retention of zero nothing is removed at all.
errors_bounded :
    (n : ℕ) (entries : Dict ErrorEntry)
    → (length (directories (cleanup_errors (some (suc n)) entries)) ≤ suc n)
      × (cleanup_errors (some 0) entries ≡ entries)
unfolding cleanup_errors
errors_bounded n entries =
    let files = sorted (directories entries) in
    (
      omega (
        arith,
        count_all (directories (rmtree_all (outdated (suc n) files) entries)),
        count-rmtree_all (λ _. true) (outdated (suc n) files) entries,
        count-sorted (spared (λ _. true) (outdated (suc n) files)) (directories entries),
        spared_bound n (λ _. true) files,
      ),
      rw (outdated_zero files, rmtree_all) refl,
    )
