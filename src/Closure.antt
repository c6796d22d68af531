-- ===== src/Closure.antt =====
-- jobs.py, _FunctionInvariant.extract_closure: what a function binds, as a text. Python's repr and
-- sorted are the interface Reprs.
pub mod Texts
use pypipegraph.Exec.{Result, raise, return}
use pypipegraph.Prelude.{
  List, Option, String, [], concat, if◌then◌else◌, is_some, none, some, substring, ◌==◌, ◌∷◌,
}
use text.Mathlib.Text.{find?}

pub record Reprs : Type 1 where
  pub Value : Type 0
  pub repr : Value → String
  pub repr_items : List (Value × Value) → String
  pub repr_list : List Value → String
  -- `none` is the TypeError of elements that cannot be compared
  pub sorted_items : List (Value × Value) → Option (List (Value × Value))
  pub sorted_list : List Value → Option (List Value)

pub data Cell (R : Reprs) : Type 0 where
  empty_cell : Cell R
  -- what has a `__code__`
  code_cell : Cell R
  module_cell : Cell R
  -- a dict, by its items
  dict_cell : List (R.Value × R.Value) → Cell R
  -- a set or a frozenset, in the order of iteration
  set_cell : List R.Value → Cell R
  other_cell : R.Value → Cell R

pub data ClosureError : Type 0 where
  -- each a ValueError
  cell_is_empty : ClosureError
  still_an_issue : ClosureError
  -- the TypeError of sorted
  not_comparable : ClosureError

-- x[: x.find("at 0x")], if "at 0x" in x
abbrev pub before_address : String → String
before_address x = elim (find? x "at 0x") [ none ↦ x | some n ↦ substring x 0 n ]

abbrev pub checked : String → Result ClosureError (Option String)
checked x = if is_some (find? x "id=") then raise still_an_issue else return (some x)

-- repr(sorted(...)) with what follows
abbrev pub sorted_repr :
    {A : Type 0} → (A → String) → Option A → Result ClosureError (Option String)
sorted_repr repr none = raise not_comparable
sorted_repr repr (some sorted) = checked (before_address (repr sorted))

module _ (R : Reprs) where
  unfoldable pub cell_repr : Cell R → Result ClosureError (Option String)
  cell_repr empty_cell = raise cell_is_empty
  cell_repr code_cell = return none
  cell_repr module_cell = return none
  cell_repr (dict_cell items) = sorted_repr R.repr_items (R.sorted_items items)
  cell_repr (set_cell xs) = sorted_repr R.repr_list (R.sorted_list xs)
  cell_repr (other_cell v) = checked (before_address (R.repr v))

  -- The body of the try, for a name and its cell.
  unfoldable pub cell_text : String → Cell R → Result ClosureError (Option String)
  cell_text name cell = if name == "self" then return none else cell_repr cell

  -- except ValueError
  abbrev pub unless_empty :
      Result ClosureError (Option String) → Result ClosureError (Option String)
  unless_empty (raise cell_is_empty) = return none
  unless_empty (raise still_an_issue) = raise still_an_issue
  unless_empty (raise not_comparable) = raise not_comparable
  unless_empty (return text) = return text

  abbrev pub append_text : String → Option String → String
  append_text so_far none = so_far
  append_text so_far (some x) = concat so_far (concat "\n" x)

  abbrev pub and_extract :
      Result ClosureError (Option String)
      → (Option String → Result ClosureError String)
      → Result ClosureError String
  and_extract (raise e) rest = raise e
  and_extract (return text) rest = rest text

  -- The loop over zip(co_freevars, closure).
  unfoldable pub extract_cells : String → List String → List (Cell R) → Result ClosureError String
  unfolding cell_text
  extract_cells so_far [] cells = return so_far
  extract_cells so_far (name ∷ names) [] = return so_far
  extract_cells so_far (name ∷ names) (cell ∷ cells) =
      and_extract (unless_empty (cell_text name cell))
        (λ text. extract_cells (append_text so_far text) names cells)

  -- A function without a closure has None for it.
  unfoldable pub extract_closure : List String → Option (List (Cell R)) → Result ClosureError String
  unfolding extract_cells
  extract_closure names none = return ""
  extract_closure names (some cells) = extract_cells "" names cells
