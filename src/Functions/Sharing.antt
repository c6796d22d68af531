-- ===== src/Functions/Sharing.antt =====
-- jobs.py, Job._handle_function_dependency: functions of one name share an invariant, or are refused.
-- What sharing leaves: an edge to the invariant of that id, which now counts one more user, and every
-- other invariant as it was.
use pypipegraph.Exec.{raise, return}
use pypipegraph.Functions.{
  Callable, FunctionGraph, FunctionInfo, InvariantJob, create_invariant, func_to_name,
  function_redefined, functions_equal, handle_function_dependency, has_no_closure, one_more,
  parse_name, plain_invariant, put_invariant, share_if_possible, unwrap,
}
use pypipegraph.Prelude.{
  Bool-cases, String, arith, concat, contains, eq_refl, false, if◌then◌else◌, inl, inr, insert,
  lookup, lookup-insert, none, refl, some, true, ◌==◌, ◌∙◌, ◌∷◌, ◌≡◌, ◌⊎◌,
}
use text.Mathlib.Text.{find?}

pub record IsShared (job_id i : String) (f : FunctionInfo) (j : InvariantJob) (g h : FunctionGraph)
    : Type 0 where
  pub edge : h.edges ≡ (job_id, i) ∷ g.edges
  pub counted_once :
      lookup i h.invariants
      ≡ some (record { function = some f; usage_counter = one_more j.usage_counter })
  pub others : (x : String) → (i == x) ≡ false → lookup x h.invariants ≡ lookup x g.invariants

module _ (g : FunctionGraph) (f : FunctionInfo) (q : String) (j : InvariantJob)
    (strict : g.strict ≡ true) (has_name : f.qualname ≡ some q)
    (no_lambda : find? q "<lambda>" ≡ none) (no_parent : find? (concat "FI" q) "/../" ≡ none)
    (no_other : contains g.other_jobs (concat "FI" q) ≡ false)
    (there : lookup (concat "FI" q) g.invariants ≡ some j) where
  plain_invariant_lem : plain_invariant (some f) none g ≡ (
      if functions_equal (some f) j.function
      then (
        return (concat "FI" q),
        put_invariant (concat "FI" q) (record j { function = some f }) g,
      )
      else (raise function_redefined, g))
  unfolding plain_invariant parse_name func_to_name create_invariant
  plain_invariant_lem = rw (has_name, no_lambda, no_parent, strict, no_other, there) refl

  shared_state : FunctionGraph
  shared_state =
      put_invariant (concat "FI" q)
        (record { function = some f; usage_counter = one_more j.usage_counter })
        (put_invariant (concat "FI" q) (record j { function = some f }) g)

  share_equal :
      (job_id : String)
      → has_no_closure f.closure_attribute ≡ true
      → functions_equal (some f) j.function ≡ true
      → share_if_possible job_id f g ≡ (return (concat "FI" q), shared_state)
  unfolding share_if_possible shared_state
  share_equal job_id closureless equal =
      rw (closureless, plain_invariant_lem, equal)
        (rw
          (lookup-insert (concat "FI" q) (concat "FI" q) (record j { function = some f })
            g.invariants)
          (rw (eq_refl (concat "FI" q)) refl))

  share_different :
      (job_id : String)
      → has_no_closure f.closure_attribute ≡ true
      → functions_equal (some f) j.function ≡ false
      → share_if_possible job_id f g ≡ (raise function_redefined, g)
  unfolding share_if_possible
  share_different job_id closureless differ = rw (closureless, plain_invariant_lem, differ) refl

  shared_state-lookup :
      (x : String)
      → lookup x shared_state.invariants ≡ (
          if concat "FI" q == x
          then some (record { function = some f; usage_counter = one_more j.usage_counter })
          else lookup x g.invariants)
  unfolding shared_state
  shared_state-lookup x = ground (
    arith,
    lookup-insert (concat "FI" q) x
        (record { function = some f; usage_counter = one_more j.usage_counter })
        (insert (concat "FI" q) (record j { function = some f }) g.invariants),
    lookup-insert (concat "FI" q) x (record j { function = some f }) g.invariants,
  )

-- In a strict graph that has an invariant for the name of a function without a closure, a job that is
-- given such a function (wrapped or not) shares that invariant, if the two functions are equal;
-- if they are not, even where they come from two modules that each have a function of that name,
-- _handle_function_dependency raises the JobRedefinitionError, and the job, which is in the graph by
-- then, has no edge to an invariant.
pub share_or_refuse :
    (job_id q : String) (func : Callable) (j : InvariantJob) (g : FunctionGraph)
    → g.strict ≡ true
    → (unwrap func).qualname ≡ some q
    → has_no_closure (unwrap func).closure_attribute ≡ true
    → find? q "<lambda>" ≡ none
    → find? (concat "FI" q) "/../" ≡ none
    → contains g.other_jobs (concat "FI" q) ≡ false
    → lookup (concat "FI" q) g.invariants ≡ some j
    → ((functions_equal (some (unwrap func)) j.function ≡ true)
        × ((handle_function_dependency job_id func g).0 ≡ return tt)
        × IsShared job_id
            (concat "FI" q)
            (unwrap func)
            j
            g
            (handle_function_dependency job_id func g).1)
      ⊎ ((functions_equal (some (unwrap func)) j.function ≡ false)
          × (handle_function_dependency job_id func g ≡ (raise function_redefined, g)))
unfolding handle_function_dependency
share_or_refuse job_id q func j g strict has_name closureless no_lambda no_parent no_other there =
    let f = unwrap func in
    elim (Bool-cases (functions_equal (some f) j.function)) [
      | inl equal ↦
          let shared =
            share_equal g f q j strict has_name no_lambda no_parent no_other there job_id
              closureless equal in
          inl (
            equal,
            rw shared refl,
            rw shared (record {
              edge = unfold shared_state in refl;
              counted_once =
                  shared_state-lookup g f q j strict has_name no_lambda no_parent no_other there
                    (concat "FI" q)
                  ∙ rw (eq_refl (concat "FI" q)) refl;
              others = λ x other.
                  shared_state-lookup g f q j strict has_name no_lambda no_parent no_other there x
                  ∙ rw other refl;
            }),
          )
      | inr differ ↦ inr (
        differ,
        rw
            (share_different g f q j strict has_name no_lambda no_parent no_other there job_id
              closureless differ)
            refl,
      )
    ]
