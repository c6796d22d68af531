-- ===== src/Ppg1/Adaptors.antt =====
-- ppg1_compatibility.py, PPG1AdaptorBase.cores_needed and _ignore_code_changes.
-- Integers, for the numbers of cores that ppg1 knew.
use pypipegraph.Digraph.{Digraph}
use pypipegraph.Enums.{Resources, all_cores, exclusive, single_core}
use pypipegraph.Exec.{Exec, modify, pure, raise, return, ◌>>◌}
use pypipegraph.Prelude.{
  Bool, Dict, List, Option, String, [], contains, delete, false, if◌then◌else◌, insert, lookup, ltb,
  nat_eq, none, not, remove, some, suc, true, zero, ℕ, ◌&&◌, ◌-◌, ◌==◌, ◌∷◌, ◌≡◌,
}
use pypipegraph.Registry.Depends.{inputs_of}
use pypipegraph.Registry.Graph.{PyPipeGraph}

pub data ℤ : Type 0 where
  pos negsuc : ℕ → ℤ

unfoldable pub cores_needed : Resources → ℤ
cores_needed all_cores = negsuc 0
cores_needed exclusive = negsuc 1
cores_needed _ = pos 1

-- The resources that the setter asks for.
unfoldable pub set_cores_needed : ℤ → Resources
set_cores_needed (pos n) = if ltb 1 n then all_cores else single_core
set_cores_needed (negsuc zero) = all_cores
set_cores_needed (negsuc (suc zero)) = exclusive
set_cores_needed (negsuc (suc (suc n))) = single_core

-- networkx's remove_edge; `none` is the NetworkXError.
pub record EdgeRemoval (G : Digraph) : Type 0 where
  pub remove_edge : String → String → G.Graph → Option G.Graph
  pub removes :
      (u v : String) (g : G.Graph)
      → G.has_edge g u v ≡ true
      → (h : G.Graph) × (remove_edge u v g ≡ some h)
        × ((x y : String) → G.has_edge h x y ≡ (not (u == x && v == y) && G.has_edge g x y))

-- Attributes of jobs that only this layer reads, by job_id. The graph knows the function invariants
-- by their ids.
pub record Adapted (G : Digraph) : Type 0 where
  pub graph : PyPipeGraph G
  pub depend_on_function : Dict Bool
  pub func_invariant : Dict String
  pub usage_counter : Dict ℕ

pub data AdaptorError : Type 0 where
  network_error missing_key : AdaptorError

-- self.job_inputs[job_id].remove(k), for all outputs
unfoldable pub remove_inputs : List String → List String → Option (List String)
unfolding contains remove
remove_inputs [] inputs = some inputs
remove_inputs (k ∷ ks) inputs =
    let rest = remove_inputs ks (remove k inputs) in if contains inputs k then rest else none

-- not hasattr(..., "usage_counter") or ... == 0
abbrev pub unused : Option ℕ → Bool
unused none = true
unused (some n) = nat_eq n 0

module _ (G : Digraph) where
  abbrev pub Adapting : Type 0 → Type 0
  Adapting A = Exec (Adapted G) AdaptorError A

  unfoldable pub uncount : String → Adapted G → Adapted G
  uncount f s = elim (lookup f s.usage_counter) [
    | none ↦ s
    | some n ↦ record s { usage_counter = insert f (n - 1) s.usage_counter }
  ]

  -- The invariant leaves the graph.
  unfoldable pub drop_invariant : String → String → Adapting Unit
  unfolding inputs_of remove_inputs
  drop_invariant job_id f s =
      let without = record s {
        graph = record s.graph { job_dag = G.remove_node f s.graph.job_dag };
      } in
      elim (lookup f s.graph.jobs) [
        | none ↦ (raise missing_key, without)
        | some j ↦ elim (remove_inputs j.outputs (inputs_of G job_id s.graph)) [
          | none ↦ (raise missing_key, without)
          | some left ↦ (
            return tt,
            record s {
              graph = record s.graph {
                job_dag = G.remove_node f s.graph.job_dag;
                job_inputs = insert job_id left s.graph.job_inputs;
                jobs = delete f s.graph.jobs;
              };
            },
          )
        ]
      ]

  abbrev pub forget_invariant : String → Adapting Unit
  forget_invariant job_id =
      modify (λ s. record s { func_invariant = delete job_id s.func_invariant })

  unfoldable pub ignore_one : EdgeRemoval G → String → Adapting Unit
  unfolding uncount drop_invariant
  ignore_one E job_id s =
      let off = record s { depend_on_function = insert job_id false s.depend_on_function } in
      elim (lookup job_id s.func_invariant) [
        | none ↦ (return tt, off)
        | some f ↦ elim (E.remove_edge f job_id s.graph.job_dag) [
          | none ↦ (raise network_error, off)
          | some dag ↦
              let t = uncount f (record off { graph = record s.graph { job_dag = dag } }) in
              ((if unused (lookup f t.usage_counter) then drop_invariant job_id f else pure tt)
                  >> forget_invariant job_id)
                t
        ]
      ]

  -- _ignore_code_changes, for a job and its `lfg`, which has none itself
  unfoldable pub ignore_code_changes : EdgeRemoval G → String → Option String → Adapting Unit
  unfolding ignore_one
  ignore_code_changes E job_id none = ignore_one E job_id
  ignore_code_changes E job_id (some lfg) = ignore_one E job_id >> ignore_one E lfg
