-- ===== src/Filenames/Positions.antt =====
-- jobs.py, _validate_files_argument: what the detour over sorted pairs and a dict makes of the files.
use pypipegraph.Exec.{return}
use pypipegraph.Filenames.{
  GraphPaths, Paths, at_index, enumerate_from, in_order, in_range, index_lookup, insert_pair,
  or_else, pair_le, sorted_pairs,
}
use pypipegraph.Prelude.{
  Bool, Bool-cases, List, Option, String, [], ap, arith, false, if◌then◌else◌, inl, inr, length,
  nat_eq, none, refl, some, suc, true, ℕ, ◌<◌, ◌∙◌, ◌∷◌, ◌≡◌, ◌≤◌,
}

at-insert_pair :
    (le : String → String → Bool) (f : String) (i k : ℕ) (ps : List (String × ℕ))
    → at_index ps i ≡ none
    → at_index (insert_pair le f i ps) k ≡ (if nat_eq i k then some f else at_index ps k)
unfolding at_index insert_pair
at-insert_pair le f i k [] fresh = refl
at-insert_pair le f i k ((g, j) ∷ ps) fresh = elim (Bool-cases (pair_le le f i g j)) [
  | inl first ↦ rw first (front (at_index ps k) (nat_eq j k) (nat_eq i k) apart)
  | inr later ↦ rw later (
      ap (λ o. or_else o (if nat_eq j k then some g else none))
        (at-insert_pair le f i k ps (inner (at_index ps i) fresh))
      ∙ back (at_index ps k) (nat_eq j k) (nat_eq i k) (apart_now))
]
  where
    inner : (o : Option String) → or_else o (if nat_eq j i then some g else none) ≡ none → o ≡ none
    inner none h = refl
    inner (some x) h = h

    apart : nat_eq i k ≡ true → or_else (at_index ps k) (if nat_eq j k then some g else none) ≡ none
    apart same =
        ap (λ n. or_else (at_index ps n) (if nat_eq j n then some g else none))
          (ground (arith, same))
        ∙ fresh

    apart_now :
        nat_eq i k ≡ true → or_else (at_index ps k) (if nat_eq j k then some g else none) ≡ none
    apart_now = apart

    front :
        (o : Option String) (p q : Bool)
        → (q ≡ true → or_else o (if p then some g else none) ≡ none)
        → or_else (or_else o (if p then some g else none)) (if q then some f else none)
          ≡ (if q then some f else or_else o (if p then some g else none))
    front none true true h = absurd (cc (h refl))
    front none true false h = refl
    front none false q h = refl
    front (some x) p true h = absurd (cc (h refl))
    front (some x) p false h = refl

    back :
        (o : Option String) (p q : Bool)
        → (q ≡ true → or_else o (if p then some g else none) ≡ none)
        → or_else (if q then some f else o) (if p then some g else none)
          ≡ (if q then some f else or_else o (if p then some g else none))
    back o p true h = refl
    back o p false h = refl

-- What enumerate gives for an index.
abbrev from_index : ℕ → List String → ℕ → Option String
from_index n [] k = none
from_index n (x ∷ xs) k = if nat_eq n k then some x else from_index (suc n) xs k

from_index-below : (n : ℕ) (xs : List String) (k : ℕ) → k < n → from_index n xs k ≡ none
from_index-below n [] k h = refl
from_index-below n (x ∷ xs) k h =
    ground (arith, h, from_index-below (suc n) xs k (omega (arith, h)))

at-sorted_pairs :
    (le : String → String → Bool) (n : ℕ) (xs : List String) (k : ℕ)
    → at_index (sorted_pairs le (enumerate_from n xs)) k ≡ from_index n xs k
unfolding sorted_pairs enumerate_from at_index
at-sorted_pairs le n [] k = refl
at-sorted_pairs le n (x ∷ xs) k =
    at-insert_pair le x n k (sorted_pairs le (enumerate_from (suc n) xs))
      (at-sorted_pairs le (suc n) xs n ∙ from_index-below (suc n) xs n (omega arith))
    ∙ ap (λ o. if nat_eq n k then some x else o) (at-sorted_pairs le (suc n) xs k)

in_range_lem :
    (temp : ℕ → Option String) (n : ℕ) (xs : List String)
    → ((k : ℕ) → n ≤ k → temp k ≡ from_index n xs k)
    → in_range temp n (length xs) ≡ some xs
unfolding in_range
in_range_lem temp n [] h = refl
in_range_lem temp n (x ∷ xs) h =
    let rest =
      in_range_lem temp (suc n) xs (λ k le. h k (omega (arith, le)) ∙ ground (arith, le)) in
    let first : temp n ≡ some x = h n (omega arith) ∙ ground arith in rw (first, rest) refl

-- The lookup of files given without a dict has them in the order in which they were given.
pub index_lookup_lem :
    (P : Paths) (abs_files : List String) (graph : Option GraphPaths)
    → index_lookup P abs_files graph ≡ (return (in_order abs_files), graph)
unfolding index_lookup
index_lookup_lem P abs_files graph =
    rw
      (
        in_range_lem (at_index (sorted_pairs P.path_le (enumerate_from 0 abs_files))) 0 abs_files
            (λ k le. at-sorted_pairs P.path_le 0 abs_files k),
        index_lookup,
      )
      refl
