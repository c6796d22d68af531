-- ===== src/Registry/Conflict.antt =====
-- graph.py, PyPipeGraph.add: what an output conflict leaves behind.
use pypipegraph.Digraph.{Digraph}
use pypipegraph.Exec.{raise}
use pypipegraph.Prelude.{
  List, String, arith, eq_iff, has_key, insert, lookup, lookup-insert, none, refl, some, true, ◌∷◌,
  ◌≡◌, ◌≢◌,
}
use pypipegraph.Registry.Graph.{
  Job, PyPipeGraph, add_job, claim_output, claim_outputs, find_job_from_file, job_output_conflict,
  key_error,
}

module _ (G : Digraph) where
  abbrev leftover : Job → String → PyPipeGraph G → PyPipeGraph G
  leftover job out g = record g { outputs_to_job_ids = insert out job.job_id g.outputs_to_job_ids }

  -- The graph after a conflict on a later output: as before, but for the first output.
  pub add_conflict :
      (job : Job) (out out' other : String) (outs : List String) (g : PyPipeGraph G)
      → job.outputs ≡ out ∷ out' ∷ outs
      → lookup out g.outputs_to_job_ids ≡ none
      → lookup out' g.outputs_to_job_ids ≡ some other
      → other ≢ job.job_id
      → has_key other g.jobs ≡ true
      → add_job G job g ≡ (raise job_output_conflict, leftover job out g)
  unfolding add_job claim_outputs claim_output
  add_conflict job out out' other outs g shape free taken differs there = ground (
    arith,
    lookup-insert out out' job.job_id g.outputs_to_job_ids,
    eq_iff out out',
    eq_iff other job.job_id,
  )

  -- `add` is not all or nothing. When a new job's second output belongs to another job, `add`
  -- raises JobOutputConflict, and the graph keeps the first output registered to the job that
  -- was refused. From then on looking that file up raises a KeyError, and so does adding any
  -- other job whose first output it is, though no job of the graph makes it.
  pub conflict_poisons_output :
      (job job' : Job) (out out' other : String) (outs outs' : List String) (g : PyPipeGraph G)
      → job.outputs ≡ out ∷ out' ∷ outs
      → lookup out g.outputs_to_job_ids ≡ none
      → lookup out' g.outputs_to_job_ids ≡ some other
      → other ≢ job.job_id
      → has_key other g.jobs ≡ true
      → lookup job.job_id g.jobs ≡ none
      → job'.outputs ≡ out ∷ outs'
      → job'.job_id ≢ job.job_id
      → (h : PyPipeGraph G) × (add_job G job g ≡ (raise job_output_conflict, h))
        × (h.jobs ≡ g.jobs)
        × (find_job_from_file G out h ≡ (raise key_error, h))
        × (add_job G job' h ≡ (raise key_error, h))
  unfolding add_job claim_outputs claim_output find_job_from_file
  conflict_poisons_output job job' out out' other outs outs' g shape free taken differs there new
        shape' other_job =
      (
        leftover job out g,
        add_conflict job out out' other outs g shape free taken differs there,
        refl,
        ground (arith, lookup-insert out out job.job_id g.outputs_to_job_ids, eq_iff out out),
        ground (
          arith,
          lookup-insert out out job.job_id g.outputs_to_job_ids,
          eq_iff out out,
          eq_iff job.job_id job'.job_id,
        ),
      )
