-- ===== src/History/Kept.antt =====
-- What is read is what was saved.
use pypipegraph.Exec.{raise, return}
use pypipegraph.History.{
  Codec, GraphView, HistoryDir, back_up, convert_job, convert_jobs, convert_old_history,
  convert_with, key_error, load_history, save_history, write_again,
}
use pypipegraph.Prelude.{
  Dict, List, Option-cases, String, [], ap, arith, contains, contains-cons_cases, inl, inr, lookup,
  none, refl, some, true, ◌∙◌, ◌∷◌, ◌≡◌,
}

module _ (C : Codec) where
  write_again-stored :
      (historical : Dict String) (interrupts : List C.Bytes) (d : HistoryDir C)
      → write_again C historical interrupts d ≡ record d { stored = some (C.dumps historical) }
  unfolding write_again
  write_again-stored historical [] d = refl
  write_again-stored historical (b ∷ interrupts) d =
      write_again-stored historical interrupts (record d { stored = some b })

  back_up-some :
      (d : HistoryDir C) (before : C.Bytes)
      → d.stored ≡ some before
      → back_up C d ≡ record d { stored = none; backup = some before }
  unfolding back_up
  back_up-some d before was_there = rw was_there refl

  back_up-old : (d : HistoryDir C) → (back_up C d).old ≡ d.old
  unfolding back_up
  back_up-old d = elim (Option-cases d.stored) [
    | inl (b, was_there) ↦ rw was_there refl
    | inr nothing ↦ rw nothing refl
  ]

  load_current :
      (loads_dumps : (h : Dict String) → C.loads (C.dumps h) ≡ some h) (graph : GraphView)
      (historical : Dict String) (more : List C.Bytes) (d : HistoryDir C)
      → d.old ≡ none
      → d.stored ≡ some (C.dumps historical)
      → (load_history C graph more d).0 ≡ return historical
  unfolding load_history convert_old_history
  load_current loads_dumps graph historical more d current stored_now =
      rw (current, stored_now, loads_dumps historical) refl

  -- A history that was saved is loaded again as it was, whatever interrupts came while it was
  -- written, where no file of the old format is there.
  pub load-save :
      (loads_dumps : (h : Dict String) → C.loads (C.dumps h) ≡ some h) (graph : GraphView)
      (historical : Dict String) (interrupts more : List C.Bytes) (d : HistoryDir C)
      → d.old ≡ none
      → (load_history C graph more (save_history C historical interrupts d).1).0 ≡ return historical
  unfolding save_history
  load-save loads_dumps graph historical interrupts more d current =
      let stored_now = write_again-stored historical interrupts (back_up C d) in
      load_current loads_dumps graph historical more
        (write_again C historical interrupts (back_up C d))
        (ap (λ t. t.old) stored_now ∙ back_up-old d ∙ current) (ap (λ t. t.stored) stored_now)

  convert_jobs_unknown :
      (graph : GraphView) (old : Dict (Dict C.Value × C.Value)) (ids : List String)
      (job_id : String) (new : Dict String)
      → contains ids job_id ≡ true
      → lookup job_id old ≡ none
      → convert_jobs C graph old ids new ≡ none
  unfolding convert_jobs convert_job contains
  convert_jobs_unknown graph old [] job_id new m unknown = cc
  convert_jobs_unknown graph old (x ∷ ids) job_id new m unknown =
      elim (contains-cons_cases x job_id ids m) [
        | inl same ↦ rw (ap (λ y. lookup y old) same ∙ unknown) refl
        | inr later ↦ elim (Option-cases (convert_job C graph old x new)) [
          | inr stopped ↦ rw stopped refl
          | inl (new', went) ↦
              rw went (convert_jobs_unknown graph old ids job_id new' later unknown)
        ]
      ]

  convert_with-none :
      (graph : GraphView) (interrupts : List C.Bytes) (old : Dict (Dict C.Value × C.Value))
      (d : HistoryDir C)
      → convert_jobs C graph old graph.job_ids [] ≡ none
      → convert_with C graph interrupts old d ≡ (raise key_error, d)
  convert_with-none graph interrupts old d stopped = rw (stopped, convert_with) refl

  -- A graph that has a job which the old history does not know cannot be converted: the
  -- conversion raises a KeyError and leaves the files as they are.
  gained_job_refused :
      (graph : GraphView) (interrupts : List C.Bytes) (d : HistoryDir C)
      (old : Dict (Dict C.Value × C.Value)) (job_id : String)
      → d.old ≡ some old
      → d.stored ≡ none
      → contains graph.job_ids job_id ≡ true
      → lookup job_id old ≡ none
      → convert_old_history C graph interrupts d ≡ (raise key_error, d)
  unfolding convert_old_history
  gained_job_refused graph interrupts d old job_id has_old no_new in_graph unknown =
      let stopped =
        convert_with-none graph interrupts old d
          (convert_jobs_unknown graph old graph.job_ids job_id [] in_graph unknown) in
      ground (arith, stopped)
