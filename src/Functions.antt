-- ===== src/Functions.antt =====
-- jobs.py, Job._handle_function_dependency, FunctionInvariant and _FunctionInvariant: which invariant a
-- job gets for its function. A function is what the code reads of it; of a graph only the jobs'
-- ids, the functions of its FunctionInvariants and the edges to them are followed.
pub mod Sharing
use pypipegraph.Digraph.Edges.{inner}
use pypipegraph.Exec.{Exec, Result, modify, pure, raise, return, ◌>>=◌, ◌>>◌}
use pypipegraph.Prelude.{
  Bool, Dict, List, Option, String, [], concat, contains, false, if◌then◌else◌, insert, is_some,
  lookup, none, some, true, ℕ, ◌&&◌, ◌+◌, ◌==◌, ◌∷◌,
}
use text.Mathlib.Text.{find?}

pub record FunctionInfo : Type 0 where
  -- the attributes, where the object has them
  pub qualname : Option String
  pub code : Option String
  -- `__closure__`, which may be None, by what its cells hold
  pub closure_attribute : Option (Option (List String))

-- A function, or an adaptor that has a `wrapped_function`.
pub data Callable : Type 0 where
  direct : FunctionInfo → Callable
  wrapping : FunctionInfo → (wrapped_function : Callable) → Callable

-- while hasattr(func, "wrapped_function")
unfoldable pub unwrap : Callable → FunctionInfo
unwrap (direct f) = f
unwrap (wrapping f inner) = unwrap inner

pub data FunctionError : Type 0 where
  no_name_error : FunctionError
  -- a lambda without a name, or another TypeError
  function_type_error : FunctionError
  function_redefined : FunctionError

unfoldable pub same_texts : List String → List String → Bool
same_texts [] [] = true
same_texts (x ∷ xs) (y ∷ ys) = x == y && same_texts xs ys
same_texts [] (_ ∷ _) = false
same_texts (_ ∷ _) [] = false

abbrev pub same_closure : Option (List String) → Option (List String) → Bool
same_closure none none = true
same_closure none (some _) = false
same_closure (some _) none = false
same_closure (some xs) (some ys) = same_texts xs ys

abbrev pub same_code :
    Option String
    → Option String
    → Option (Option (List String))
    → Option (Option (List String))
    → Bool
same_code (some a) (some b) (some c) (some d) = a == b && same_closure c d
same_code _ _ _ _ = false

-- None is a function too.
unfoldable pub functions_equal : Option FunctionInfo → Option FunctionInfo → Bool
unfolding same_texts
functions_equal none none = true
functions_equal none (some _) = false
functions_equal (some _) none = false
functions_equal (some a) (some b) = same_code a.code b.code a.closure_attribute b.closure_attribute

abbrev pub named_unless_lambda : Option String → Result FunctionError String
named_unless_lambda none = raise no_name_error
named_unless_lambda (some name) =
    if is_some (find? name "<lambda>") then raise function_type_error else return name

unfoldable pub func_to_name : Option FunctionInfo → Result FunctionError String
func_to_name none = raise function_type_error
func_to_name (some f) = named_unless_lambda f.qualname

abbrev pub prefixed : Result FunctionError String → Result FunctionError String
prefixed (raise e) = raise e
prefixed (return name) = return (concat "FI" name)

-- _parse_args: an empty name counts as none.
unfoldable pub parse_name : Option String → Option FunctionInfo → Result FunctionError String
unfolding func_to_name
parse_name none f = prefixed (func_to_name f)
parse_name (some name) f =
    if name == "" then prefixed (func_to_name f) else return (concat "FI" name)

pub record InvariantJob : Type 0 where
  pub function : Option FunctionInfo
  pub usage_counter : Option ℕ

pub record FunctionGraph : Type 0 where
  pub strict : Bool
  pub invariants : Dict InvariantJob
  -- the ids of the jobs of other classes
  pub other_jobs : List String
  -- the job that depends comes first
  pub edges : List (String × String)

abbrev pub Creating : Type 0 → Type 0
Creating A = Exec FunctionGraph FunctionError A

abbrev pub put_invariant : String → InvariantJob → FunctionGraph → FunctionGraph
put_invariant job_id j g = record g { invariants = insert job_id j g.invariants }

-- verify_arguments of the job that _dedup_job hands back, or of a new one.
abbrev pub verified : String → Option FunctionInfo → Option InvariantJob → Creating String
verified job_id f none g =
    (return job_id, put_invariant job_id (record { function = f; usage_counter = none }) g)
verified job_id f (some j) g =
    if functions_equal f j.function
    then (return job_id, put_invariant job_id (record j { function = f }) g)
    else (raise function_redefined, g)

-- _FunctionInvariant(function, name) under its id
unfoldable pub create_invariant : String → Option FunctionInfo → Creating String
unfolding functions_equal
create_invariant job_id f g =
    if is_some (find? job_id "/../")
    then (raise function_type_error, g)
    else if g.strict && contains g.other_jobs job_id
    then (raise function_redefined, g)
    else verified job_id f (if g.strict then lookup job_id g.invariants else none) g

abbrev pub under_name : Option FunctionInfo → Result FunctionError String → Creating String
under_name f (raise e) g = (raise e, g)
under_name f (return job_id) g = create_invariant job_id f g

unfoldable pub plain_invariant : Option FunctionInfo → Option String → Creating String
unfolding parse_name
plain_invariant f name g = under_name f (parse_name name f) g

-- name + "_inner"
abbrev pub inner_name : Option String → Result FunctionError String
inner_name none = raise function_type_error
inner_name (some name) = return (concat name "_inner")

abbrev pub under_inner_name : FunctionInfo → Result FunctionError String → Creating String
under_inner_name f (raise e) g = (raise e, g)
under_inner_name f (return name) g = plain_invariant (some f) (some name) g

abbrev pub outermost : Callable → FunctionInfo
outermost (direct f) = f
outermost (wrapping f inner) = f

-- FunctionInvariant: one invariant, or two for an adaptor.
unfoldable pub function_invariant : Callable → Option String → Creating (List String)
unfolding plain_invariant
function_invariant (direct f) name = plain_invariant (some f) name >>= λ i. pure (i ∷ [])
function_invariant (wrapping f inner) name = do
  i ← plain_invariant (some f) name
  k ← under_inner_name (outermost inner) (inner_name name)
  pure (i ∷ k ∷ [])

abbrev pub one_more : Option ℕ → Option ℕ
one_more none = some 1
one_more (some n) = some (n + 1)

-- func_invariant.usage_counter = getattr(func_invariant, "usage_counter", 0) + 1
abbrev pub counted : String → Option InvariantJob → FunctionGraph → FunctionGraph
counted job_id none g = g
counted job_id (some j) g =
    put_invariant job_id (record j { usage_counter = one_more j.usage_counter }) g

-- func.__closure__ is None
abbrev pub has_no_closure : Option (Option (List String)) → Bool
has_no_closure (some none) = true
has_no_closure _ = false

-- The body of the try.
unfoldable pub share_if_possible : String → FunctionInfo → Creating String
unfolding plain_invariant
share_if_possible job_id f =
    if has_no_closure f.closure_attribute
    then (plain_invariant (some f) none >>= λ i.
        modify (λ g. counted i (lookup i g.invariants) g) >>= λ _. pure i)
    else plain_invariant (some f) (some job_id)

-- except TypeError
abbrev pub or_own : String → FunctionInfo → Result FunctionError String → Creating String
or_own job_id f (return i) g = (return i, g)
or_own job_id f (raise function_type_error) g = plain_invariant (some f) (some job_id) g
or_own job_id f (raise e) g = (raise e, g)

abbrev pub depend_on_invariant : String → String → Creating Unit
depend_on_invariant job_id i = modify (λ g. record g { edges = (job_id, i) ∷ g.edges })

unfoldable pub handle_function_dependency : String → Callable → Creating Unit
unfolding share_if_possible unwrap
handle_function_dependency job_id func g =
    let (tried, h) = share_if_possible job_id (unwrap func) g in
    (or_own job_id (unwrap func) tried >>= depend_on_invariant job_id) h
