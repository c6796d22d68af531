-- ===== src/Launch/Counting.antt =====
-- The sizes of sets: lists without copies that have the same elements have the same length.
use pypipegraph.Launch.{to_set}
use pypipegraph.Prelude.{
  AreDistinct, Bool, Bool-cases, List, String, [], add, ap, arith, contains, contains-add,
  contains-append, contains-remove, eq_iff, eq_refl, false, if◌then◌else◌, inl, inr, length,
  length-append, not, refl, remove, true, ◌&&◌, ◌++◌, ◌+◌, ◌<◌, ◌==◌, ◌||◌, ◌∙◌, ◌∷◌, ◌≡◌, ◌≤◌,
}

length-remove :
    (x : String) (s : List String) → contains s x ≡ true → length (remove x s) < length s
unfolding contains remove
length-remove x [] h = cc
length-remove x (y ∷ s) h = elim (Bool-cases (y == x)) [
  | inl same ↦ ground (arith, same, length-remove-le x s)
  | inr other ↦ ground (arith, h, other, length-remove x s)
]
  where
    length-remove-le : (x : String) (s : List String) → length (remove x s) ≤ length s
    length-remove-le x [] = omega arith
    length-remove-le x (y ∷ s) = ground (arith, length-remove-le x s)

pub contains-le :
    (xs ys : List String)
    → AreDistinct xs
    → ((x : String) → contains xs x ≡ true → contains ys x ≡ true)
    → length xs ≤ length ys
unfolding contains
contains-le [] ys distinct h = omega arith
contains-le (x ∷ xs) ys (unique, distinct) h =
    let smaller = length-remove x ys (h x (ground (arith, eq_refl x))) in
    let rest = contains-le xs (remove x ys) distinct (λ z m.
      ground (arith, contains-remove x z ys, h z (ground (arith, m)), eq_iff x z, unique, m)) in
    omega (arith, smaller, rest)

pub AreDistinct-remove : (x : String) (s : List String) → AreDistinct s → AreDistinct (remove x s)
unfolding remove
AreDistinct-remove x [] h = tt
AreDistinct-remove x (y ∷ s) (unique, h) = step (y == x) (AreDistinct-remove x s h)
  where
    step :
        (b : Bool)
        → AreDistinct (remove x s)
        → AreDistinct (if b then remove x s else y ∷ remove x s)
    step true rest = rest
    step false rest = (ground (arith, contains-remove x y s, unique), rest)

pub contains-to_set : (x : String) (s : List String) → contains (to_set s) x ≡ contains s x
unfolding contains to_set
contains-to_set x [] = refl
contains-to_set x (y ∷ s) = ground (arith, contains-add y x (to_set s), contains-to_set x s)

pub to_set-AreDistinct : (s : List String) → AreDistinct (to_set s)
unfolding to_set add
to_set-AreDistinct [] = tt
to_set-AreDistinct (y ∷ s) = step (contains (to_set s) y) refl (to_set-AreDistinct s)
  where
    step :
        (b : Bool)
        → contains (to_set s) y ≡ b
        → AreDistinct (to_set s)
        → AreDistinct (if b then to_set s else y ∷ to_set s)
    step true e rest = rest
    step false e rest = (e, rest)

pub AreDistinct-append :
    (xs ys : List String)
    → AreDistinct xs
    → AreDistinct ys
    → ((x : String) → contains xs x ≡ true → contains ys x ≡ false)
    → AreDistinct (xs ++ ys)
unfolding contains
AreDistinct-append [] ys dx dy apart = dy
AreDistinct-append (x ∷ xs) ys (unique, dx) dy apart = (
  ground (arith, contains-append xs ys x, unique, apart x (ground (arith, eq_refl x))),
  AreDistinct-append xs ys dx dy (λ z m. apart z (ground (arith, m))),
)

-- A set and what is left of it add up.
pub parts_add_up :
    (whole part rest : List String)
    → AreDistinct whole
    → AreDistinct rest
    → ((x : String) → contains part x ≡ true → contains whole x ≡ true)
    → ((x : String) → contains rest x ≡ (not (contains part x) && contains whole x))
    → length whole ≡ length rest + length (to_set part)
parts_add_up whole part rest dw dr inside left =
    let p = to_set part in
    let fewer =
      contains-le whole (rest ++ p) dw
        (λ x h. ground (arith, contains-append rest p x, contains-to_set x part, left x, h)) in
    let more =
      contains-le (rest ++ p) whole
        (AreDistinct-append rest p dr (to_set-AreDistinct part)
          (λ x h. ground (arith, contains-to_set x part, left x, h)))
        (λ x h.
          parts x
            (contains-append rest p x ∙ ap (λ b. contains rest x || b) (contains-to_set x part))
            h) in
    omega (arith, fewer, more, length-append rest p)
  where
    parts :
        (x : String)
        → contains (rest ++ to_set part) x ≡ (contains rest x || contains part x)
        → contains (rest ++ to_set part) x ≡ true
        → contains whole x ≡ true
    parts x e h = elim (Bool-cases (contains part x)) [
      | inl yes_part ↦ inside x yes_part
      | inr no_part ↦ ground (arith, e, h, left x, no_part)
    ]
