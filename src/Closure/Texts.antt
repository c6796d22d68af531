-- ===== src/Closure/Texts.antt =====
-- jobs.py, extract_closure: what it returns, and when it raises.
use pypipegraph.Closure.{
  Cell, ClosureError, Reprs, and_extract, append_text, before_address, cell_repr, cell_text,
  checked, code_cell, dict_cell, empty_cell, extract_cells, extract_closure, module_cell,
  not_comparable, other_cell, set_cell, sorted_repr, still_an_issue, unless_empty,
}
use pypipegraph.Exec.{Result, raise, return}
use pypipegraph.Prelude.{
  Bool-cases, List, Option, String, [], ap, concat, if◌then◌else◌, inl, inr, is_some, none, refl,
  some, ◌==◌, ◌∙◌, ◌∷◌, ◌≡◌,
}
use text.Mathlib.Text.{find?}

abbrev pub sorted_text :
    {A : Type 0} → (A → String) → Option A → Option (Result ClosureError String)
sorted_text repr none = some (raise not_comparable)
sorted_text repr (some sorted) = some (return (before_address (repr sorted)))

-- What is to be written for a cell: nothing (none) for what has code or is a module and for an empty
-- cell, else the repr, cut at an address, or the error of sorting.
abbrev pub repr_of : (R : Reprs) → Cell R → Option (Result ClosureError String)
repr_of R empty_cell = none
repr_of R code_cell = none
repr_of R module_cell = none
repr_of R (dict_cell items) = sorted_text R.repr_items (R.sorted_items items)
repr_of R (set_cell xs) = sorted_text R.repr_list (R.sorted_list xs)
repr_of R (other_cell v) = some (return (before_address (R.repr v)))

abbrev pub add_some :
    Option (Result ClosureError String)
    → List (Result ClosureError String)
    → List (Result ClosureError String)
add_some none texts = texts
add_some (some x) texts = x ∷ texts

unfoldable pub bound_texts :
    (R : Reprs) → List String → List (Cell R) → List (Result ClosureError String)
bound_texts R [] cells = []
bound_texts R (name ∷ names) [] = []
bound_texts R (name ∷ names) (cell ∷ cells) =
    add_some (if name == "self" then none else repr_of R cell) (bound_texts R names cells)

unfoldable pub in_lines : String → List (Result ClosureError String) → String
in_lines so_far [] = so_far
in_lines so_far (return x ∷ texts) = in_lines (concat so_far (concat "\n" x)) texts
in_lines so_far (raise e ∷ texts) = in_lines so_far texts

-- The first text that is not to be had, or that has "id=" in it.
unfoldable pub first_error : List (Result ClosureError String) → Option ClosureError
first_error [] = none
first_error (raise e ∷ texts) = some e
first_error (return x ∷ texts) =
    let rest = first_error texts in if is_some (find? x "id=") then some still_an_issue else rest

abbrev pub unless_error : Option ClosureError → String → Result ClosureError String
unless_error none text = return text
unless_error (some e) text = raise e

abbrev looked_at : Option (Result ClosureError String) → Result ClosureError (Option String)
looked_at none = return none
looked_at (some (raise e)) = raise e
looked_at (some (return x)) = checked x

module _ (R : Reprs) where
  unless_empty-checked : (x : String) → unless_empty R (checked x) ≡ checked x
  unless_empty-checked x = elim (Bool-cases (is_some (find? x "id="))) [
    | inl issue ↦ rw issue refl
    | inr fine ↦ rw fine refl
  ]

  sorted_lem :
      {A : Type 0} (repr : A → String) (sorted : Option A)
      → unless_empty R (sorted_repr repr sorted) ≡ looked_at (sorted_text repr sorted)
  sorted_lem repr none = refl
  sorted_lem repr (some xs) = unless_empty-checked (before_address (repr xs))

  cell_repr_lem : (cell : Cell R) → unless_empty R (cell_repr R cell) ≡ looked_at (repr_of R cell)
  unfolding cell_repr
  cell_repr_lem empty_cell = refl
  cell_repr_lem code_cell = refl
  cell_repr_lem module_cell = refl
  cell_repr_lem (dict_cell items) = sorted_lem R.repr_items (R.sorted_items items)
  cell_repr_lem (set_cell xs) = sorted_lem R.repr_list (R.sorted_list xs)
  cell_repr_lem (other_cell v) = unless_empty-checked _

  cell_text_lem :
      (name : String) (cell : Cell R)
      → unless_empty R (cell_text R name cell)
        ≡ looked_at (if name == "self" then none else repr_of R cell)
  unfolding cell_text
  cell_text_lem name cell = elim (Bool-cases (name == "self")) [
    | inl is_self ↦ rw is_self refl
    | inr other ↦ rw other (cell_repr_lem cell)
  ]

  and_extract-looked_at :
      (text : Option (Result ClosureError String))
      (rest : Option String → Result ClosureError String) (so_far : String)
      (texts : List (Result ClosureError String))
      → ((t : Option String)
          → rest t ≡ unless_error (first_error texts) (in_lines (append_text R so_far t) texts))
      → and_extract R (looked_at text) rest
        ≡ unless_error (first_error (add_some text texts)) (in_lines so_far (add_some text texts))
  unfolding first_error in_lines
  and_extract-looked_at none rest so_far texts h = h none
  and_extract-looked_at (some (raise e)) rest so_far texts h = refl
  and_extract-looked_at (some (return x)) rest so_far texts h =
      elim (Bool-cases (is_some (find? x "id="))) [
        | inl issue ↦ rw issue refl
        | inr fine ↦ rw fine (h (some x))
      ]

  extract_cells_lem :
      (so_far : String) (names : List String) (cells : List (Cell R))
      → extract_cells R so_far names cells
        ≡ unless_error
            (first_error (bound_texts R names cells))
            (in_lines so_far (bound_texts R names cells))
  unfolding extract_cells bound_texts first_error in_lines
  extract_cells_lem so_far [] cells = refl
  extract_cells_lem so_far (name ∷ names) [] = refl
  extract_cells_lem so_far (name ∷ names) (cell ∷ cells) =
      ap (λ t. and_extract R t (λ text. extract_cells R (append_text R so_far text) names cells))
        (cell_text_lem name cell)
      ∙ and_extract-looked_at (if name == "self" then none else repr_of R cell)
          (λ text. extract_cells R (append_text R so_far text) names cells) so_far
          (bound_texts R names cells) (λ t. extract_cells_lem (append_text R so_far t) names cells)

-- extract_closure never fails for an empty cell. It gives the reprs of what a closure binds, cut at an
-- address, each on a line of its own, without self, functions, modules and empty cells; unless
-- one of these is a dict or a set that cannot be sorted, or has a repr with "id=" in it, as a
-- URL may: for the first of them it raises the TypeError of sorted, or the ValueError, so that
-- there is no invariant for the function.
pub extract_closure_total :
    (R : Reprs) (names : List String) (cells : List (Cell R))
    → extract_closure R names (some cells)
      ≡ unless_error
          (first_error (bound_texts R names cells))
          (in_lines "" (bound_texts R names cells))
unfolding extract_closure
extract_closure_total R names cells = extract_cells_lem R "" names cells
