-- ===== src/Ppg1/Ignoring.antt =====
-- ignore_code_changes of a job that shares its function invariant, and use_cores.
use pypipegraph.Digraph.{Digraph}
use pypipegraph.Enums.{
  Resources, all_cores, exclusive, is_external, raise_in_core_lock, raise_in_to_number, runs_here,
  single_core,
}
use pypipegraph.Ppg1.Adaptors.{
  Adapted, EdgeRemoval, cores_needed, ignore_one, set_cores_needed, uncount, unused,
}
use pypipegraph.Prelude.{
  Dict, List, String, arith, contains, eq_refl, false, if◌then◌else◌, insert, lookup, lookup-insert,
  refl, some, subst, true, ℕ, ◌-◌, ◌<◌, ◌≡◌,
}
use pypipegraph.Registry.Depends.{inputs_of}
use pypipegraph.Registry.Graph.{Job}
use pypipegraph.Registry.Invariant.Consistent.{IsConsistent}

still_used :
    (f : String) (n : ℕ) (counters : Dict ℕ)
    → 1 < n
    → unused (lookup f (insert f (n - 1) counters)) ≡ false
still_used f n counters several = ground (arith, lookup-insert f f (n - 1) counters, eq_refl f)

module _ (G : Digraph) (E : EdgeRemoval G) where
  -- The edge goes, and all else that the graph has stays.
  ignore_shared :
      (job_id f : String) (n : ℕ) (s : Adapted G)
      → lookup job_id s.func_invariant ≡ some f
      → lookup f s.usage_counter ≡ some n
      → 1 < n
      → G.has_edge s.graph.job_dag f job_id ≡ true
      → (dag : G.Graph) × ((ignore_one G E job_id s).1.graph ≡ record s.graph { job_dag = dag })
        × (G.has_edge dag f job_id ≡ false)
  unfolding ignore_one uncount
  ignore_shared job_id f n s has_invariant shared several depends =
      let (dag, removed, edges) = E.removes f job_id s.graph.job_dag depends in
      (
        dag,
        rw
            (
              has_invariant,
              ignore_one,
              removed,
              uncount,
              shared,
              still_used f n s.usage_counter several,
            )
            refl,
        ground (arith, edges f job_id, eq_refl f, eq_refl job_id),
      )

  -- Two jobs that were made of the same function share its invariant. When the code changes of
  -- one of them are to be ignored, its edge to the invariant goes, but what the invariant gives
  -- stays among its inputs: a graph in which every input came from an upstream job is none any
  -- more.
  pub shared_invariant_breaks :
      (outputs_of : String → List String) (job_id f o : String) (n : ℕ) (j : Job) (s : Adapted G)
      → IsConsistent G outputs_of s.graph
      → lookup job_id s.func_invariant ≡ some f
      → lookup f s.usage_counter ≡ some n
      → 1 < n
      → lookup f s.graph.jobs ≡ some j
      → contains (outputs_of f) o ≡ true
      → contains (inputs_of G job_id s.graph) o ≡ true
      → G.has_edge s.graph.job_dag f job_id ≡ true
      → ¬ IsConsistent G outputs_of (ignore_one G E job_id s).1.graph
  unfolding inputs_of
  shared_invariant_breaks outputs_of job_id f o n j s before has_invariant shared several present
        gives takes depends after =
      let (dag, same, gone) = ignore_shared job_id f n s has_invariant shared several depends in
      let after' = subst (IsConsistent G outputs_of) same after in
      let (u, owner, edge) = after'.inputs job_id o takes in
      ground (arith, before.claimed f j o present gives, owner, edge, gone)

-- Setting `cores_needed` to what it reads gives a job its resources back where they are external,
-- and SingleCore where they are not.
set_cores_needed-cores_needed :
    (r : Resources) → set_cores_needed (cores_needed r) ≡ (if is_external r then r else single_core)
unfolding set_cores_needed cores_needed is_external
set_cores_needed-cores_needed single_core = refl
set_cores_needed-cores_needed all_cores = refl
set_cores_needed-cores_needed exclusive = refl
set_cores_needed-cores_needed runs_here = refl
set_cores_needed-cores_needed raise_in_core_lock = refl
set_cores_needed-cores_needed raise_in_to_number = refl
