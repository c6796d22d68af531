-- ===== src/Prelude/TextOrder.antt =====
-- The order of texts is total: what `compare` answers, by characters.
use Prim.Native.Nat.{ℕ, Ordering, compare as compare_ℕ}
use Prim.Native.Char.{code}
use Prim.Native.String.compare
use Prim.Native.String.{String, [], ◌∷◌, compare, then}
use mathlib.Core.Path.{◌≡◌, refl, sym, ◌∙◌, ap}
use mathlib.Core.Bool.{Bool, true, false}
use native.Mathlib.Omega.{arith}
use text.Mathlib.TextEquality.{path_by_compare}
use package.pypipegraph.Prelude.Texts.{text_le}

abbrev opposite : Ordering → Ordering
opposite Ordering.lt = Ordering.gt
opposite Ordering.eq = Ordering.eq
opposite Ordering.gt = Ordering.lt

abbrev is_le : Ordering → Bool
is_le Ordering.gt = false
is_le Ordering.lt = true
is_le Ordering.eq = true

opposite-compare_ℕ : (m n : ℕ) → compare_ℕ n m ≡ opposite (compare_ℕ m n)
opposite-compare_ℕ m n = ground arith

opposite-then : (o p : Ordering) → then (opposite o) (opposite p) ≡ opposite (then o p)
opposite-then Ordering.lt p = refl
opposite-then Ordering.eq p = refl
opposite-then Ordering.gt p = refl

opposite-compare : (s t : String) → compare t s ≡ opposite (compare s t)
opposite-compare [] [] = refl
opposite-compare [] (d ∷ t) = compare.cons-nil d t ∙ ap opposite (sym (compare.nil-cons d t))
opposite-compare (c ∷ s) [] = compare.nil-cons c s ∙ ap opposite (sym (compare.cons-nil c s))
opposite-compare (c ∷ s) (d ∷ t) =
    compare.cons-cons d c t s
    ∙ (λ i. then (opposite-compare_ℕ (code c) (code d) i) (opposite-compare s t i))
    ∙ opposite-then (compare_ℕ (code c) (code d)) (compare s t)
    ∙ ap opposite (sym (compare.cons-cons c d s t))

text_le-is_le : (s t : String) → text_le s t ≡ is_le (compare s t)
text_le-is_le s t = cases (compare s t)
  where
    cases : (o : Ordering) → elim o [ Ordering.gt ↦ false | _ ↦ true ] ≡ is_le o
    cases Ordering.lt = refl
    cases Ordering.eq = refl
    cases Ordering.gt = refl

is_le_trans :
    (m n p : ℕ) (o q r : Ordering)
    → (is_le o ≡ true → is_le q ≡ true → is_le r ≡ true)
    → is_le (then (compare_ℕ m n) o) ≡ true
    → is_le (then (compare_ℕ n p) q) ≡ true
    → is_le (then (compare_ℕ m p) r) ≡ true
is_le_trans m n p o q r h one two = ground (arith, h, one, two)

compare_trans :
    (s t u : String)
    → is_le (compare s t) ≡ true
    → is_le (compare t u) ≡ true
    → is_le (compare s u) ≡ true
compare_trans [] t [] h k = refl
compare_trans [] t (e ∷ u) h k = ap is_le (compare.nil-cons e u)
compare_trans (c ∷ s) [] u h k = absurd (cc (sym (ap is_le (compare.cons-nil c s)) ∙ h))
compare_trans (c ∷ s) (d ∷ t) [] h k = absurd (cc (sym (ap is_le (compare.cons-nil d t)) ∙ k))
compare_trans (c ∷ s) (d ∷ t) (e ∷ u) h k =
    ap is_le (compare.cons-cons c e s u)
    ∙ is_le_trans (code c) (code d) (code e) (compare s t) (compare t u) (compare s u)
        (compare_trans s t u) (sym (ap is_le (compare.cons-cons c d s t)) ∙ h)
        (sym (ap is_le (compare.cons-cons d e t u)) ∙ k)

pub text_le_trans : (s t u : String) → text_le s t ≡ true → text_le t u ≡ true → text_le s u ≡ true
text_le_trans s t u h k =
    text_le-is_le s u
    ∙ compare_trans s t u (sym (text_le-is_le s t) ∙ h) (sym (text_le-is_le t u) ∙ k)

pub text_le-total : (s t : String) → text_le s t ≡ false → text_le t s ≡ true
text_le-total s t h =
    text_le-is_le t s
    ∙ ap is_le (opposite-compare s t)
    ∙ cases (compare s t) (sym (text_le-is_le s t) ∙ h)
  where
    cases : (o : Ordering) → is_le o ≡ false → is_le (opposite o) ≡ true
    cases Ordering.lt h = absurd (cc h)
    cases Ordering.eq h = absurd (cc h)
    cases Ordering.gt h = refl

pub text_le-antisym : (s t : String) → text_le s t ≡ true → text_le t s ≡ true → s ≡ t
text_le-antisym s t h k = path_by_compare s t (
    cases (compare s t) (sym (text_le-is_le s t) ∙ h)
      (sym (ap is_le (opposite-compare s t)) ∙ sym (text_le-is_le t s) ∙ k))
  where
    cases : (o : Ordering) → is_le o ≡ true → is_le (opposite o) ≡ true → o ≡ Ordering.eq
    cases Ordering.lt h k = absurd (cc k)
    cases Ordering.eq h k = refl
    cases Ordering.gt h k = absurd (cc h)
