-- ===== src/Samples/Shares.antt =====
-- Two functions named load, of modules that a job each takes its function from.
use pypipegraph.Exec.{raise, return}
use pypipegraph.Functions.{
  FunctionGraph, FunctionInfo, InvariantJob, create_invariant, direct, function_redefined,
  functions_equal, handle_function_dependency, share_if_possible, unwrap, wrapping,
}
use pypipegraph.Functions.Sharing.{IsShared, share_or_refuse}
use pypipegraph.Prelude.{[], contains, false, lookup, none, refl, some, true, ◌∷◌, ◌≡◌, ◌⊎◌}

abbrev load_code : FunctionInfo
load_code = record { qualname = some "load"; code = some "read a"; closure_attribute = some none }

abbrev other_load : FunctionInfo
other_load = record { qualname = some "load"; code = some "read b"; closure_attribute = some none }

abbrev load_invariant : InvariantJob
load_invariant = record { function = some load_code; usage_counter = some 1 }

abbrev one_function : FunctionGraph
one_function = record {
  strict = true;
  invariants = ("FIload", load_invariant) ∷ [];
  other_jobs = "a" ∷ "b" ∷ [];
  edges = ("a", "FIload") ∷ [];
}

other_load_refused :
    handle_function_dependency "b" (direct other_load) one_function
    ≡ (raise function_redefined, one_function)
unfolding handle_function_dependency share_if_possible create_invariant contains lookup
other_load_refused = refl

share_or_refuse_example :
    ((functions_equal (some other_load) (some load_code) ≡ true)
      × ((handle_function_dependency "b" (wrapping load_code (direct other_load)) one_function).0
          ≡ return tt)
      × IsShared "b" "FIload" other_load load_invariant one_function
          (handle_function_dependency "b" (wrapping load_code (direct other_load)) one_function).1)
    ⊎ ((functions_equal (some other_load) (some load_code) ≡ false)
        × (handle_function_dependency "b" (wrapping load_code (direct other_load)) one_function
            ≡ (raise function_redefined, one_function)))
unfolding unwrap contains lookup
share_or_refuse_example =
    share_or_refuse "b" "load" (wrapping load_code (direct other_load)) load_invariant one_function
      refl refl refl refl refl refl refl
