-- ===== src/Samples/Closures.antt =====
-- A closure with a set, an object, a link and what does not count.
use pypipegraph.Closure.{
  Cell, Reprs, cell_repr, code_cell, dict_cell, extract_closure, not_comparable, other_cell,
  set_cell, still_an_issue,
}
use pypipegraph.Closure.Texts.{
  bound_texts, extract_closure_total, first_error, in_lines, unless_error,
}
use pypipegraph.Exec.{raise, return}
use pypipegraph.Filenames.{insert_sorted, join, sorted_by}
use pypipegraph.Prelude.{List, String, [], none, refl, some, text_le, ◌∷◌, ◌≡◌}

abbrev texts : Reprs
texts = record {
  Value = String;
  repr = λ v. v;
  repr_items = λ is. "[]";
  repr_list = λ xs. join ", " xs;
  sorted_items = λ is. none;
  sorted_list = λ xs. some (sorted_by text_le xs);
}

abbrev names : List String
names = "self" ∷ "seen" ∷ "reader" ∷ []

abbrev first_run : List (Cell texts)
first_run = code_cell ∷ set_cell ("b" ∷ "a" ∷ []) ∷ other_cell "[<Reader at 0x12>, 1]" ∷ []

both_extracted : extract_closure texts names (some first_run) ≡ return "\na, b\n[<Reader "
unfolding extract_closure cell_repr sorted_by insert_sorted join
both_extracted = refl

abbrev link : List (Cell texts)
link = other_cell "x" ∷ other_cell "a" ∷ other_cell "'http://a.org?id=3'" ∷ []

link_refused : extract_closure texts names (some link) ≡ raise still_an_issue
unfolding extract_closure cell_repr
link_refused = refl

not_sorted :
    extract_closure texts names
      (some (other_cell "x" ∷ dict_cell (("1", "") ∷ ("a", "") ∷ []) ∷ []))
    ≡ raise not_comparable
unfolding extract_closure cell_repr
not_sorted = refl

extract_closure_total_example :
    extract_closure texts names (some link)
    ≡ unless_error
        (first_error (bound_texts texts names link))
        (in_lines "" (bound_texts texts names link))
extract_closure_total_example = extract_closure_total texts names link
