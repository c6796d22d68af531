-- ===== src/History.antt =====
-- graph.py, _save_history, _load_history and _convert_old_history; runner.py, get_job_inputs_str.
-- The codec of the file (json, gzip, pickle) is a parameter.
pub mod Kept
use pypipegraph.Exec.{Exec, expect, pure, raise, return, ◌>>=◌}
use pypipegraph.Logs.{sorted}
use pypipegraph.Prelude.{
  Dict, List, Option, String, [], add, concat, if◌then◌else◌, insert, is_empty, is_some, keys,
  length, lookup, nat_eq, none, not, some, subset, ◌&&◌, ◌>>?◌, ◌∷◌,
}

pub record Codec : Type 1 where
  pub Bytes : Type 0
  pub Value : Type 0
  -- gzip of json.dumps(historical), and back
  pub dumps : Dict String → Bytes
  pub loads : Bytes → Option (Dict String)
  -- json.dumps(value), json.dumps({name: value})
  pub dumps_value : Value → String
  pub dumps_entry : String → Value → String

pub data HistoryError : Type 0 where
  keyboard_interrupt json_error both_existed key_error number_changed names_changed : HistoryError

-- What conversion asks of the graph.
pub record GraphView : Type 0 where
  pub job_ids : List String
  pub job_inputs : Dict (List String)
  pub outputs_to_job_ids : Dict String

-- job_inputs has sets.
unfoldable pub as_set : List String → List String
unfolding add
as_set [] = []
as_set (x ∷ xs) = add x (as_set xs)

-- "\n".join(names)
unfoldable pub join_lines : List String → String
join_lines [] = ""
join_lines (x ∷ xs) =
    let rest = join_lines xs in elim xs [ [] ↦ x | _ ∷ _ ↦ concat x (concat "\n" rest) ]

abbrev pub inputs_in : Option (List String) → List String
inputs_in none = []
inputs_in (some inputs) = inputs

unfoldable pub get_job_inputs_str : GraphView → String → String
unfolding as_set join_lines sorted
get_job_inputs_str graph job_id =
    join_lines (sorted (as_set (inputs_in (lookup job_id graph.job_inputs))))

module _ (C : Codec) where
  -- history_dir
  pub record HistoryDir : Type 0 where
    -- ppg_history.2.gz and ppg_history.2.gz.backup
    pub stored : Option C.Bytes
    pub backup : Option C.Bytes
    -- ppg_history.gz: for each job the hashes of its inputs and of its output
    pub old : Option (Dict (Dict C.Value × C.Value))

  abbrev pub Storing : Type 0 → Type 0
  Storing A = Exec HistoryDir HistoryError A

  -- One turn of the loop for each KeyboardInterrupt that comes, with what was written until then,
  -- and one that is not interrupted. An interrupt while the file is opened or closed, outside the
  -- try, is left out.
  unfoldable pub write_again : Dict String → List C.Bytes → HistoryDir → HistoryDir
  write_again historical [] d = record d { stored = some (C.dumps historical) }
  write_again historical (written ∷ interrupts) d =
      write_again historical interrupts (record d { stored = some written })

  -- fn.rename(fn.with_suffix(... + ".backup")), if it exists
  unfoldable pub back_up : HistoryDir → HistoryDir
  back_up d = elim d.stored [ none ↦ d | some b ↦ record d { stored = none; backup = some b } ]

  unfoldable pub save_history : Dict String → List C.Bytes → Storing Unit
  unfolding write_again back_up
  save_history historical interrupts d = (
    if is_empty interrupts then return tt else raise keyboard_interrupt,
    write_again historical interrupts (back_up d),
  )

  -- The entries for the inputs of one job.
  unfoldable pub convert_inputs :
      GraphView → String → Dict C.Value → List String → Dict String → Option (Dict String)
  convert_inputs graph job_id old_inputs [] new = some new
  convert_inputs graph job_id old_inputs (input_name ∷ names) new =
      lookup input_name graph.outputs_to_job_ids >>? λ upstream_job_id.
      lookup input_name old_inputs >>? λ value.
      convert_inputs graph job_id old_inputs names
        (insert (concat upstream_job_id (concat "!!!" job_id)) (C.dumps_entry input_name value) new)

  unfoldable pub convert_job :
      GraphView → Dict (Dict C.Value × C.Value) → String → Dict String → Option (Dict String)
  unfolding convert_inputs get_job_inputs_str as_set
  convert_job graph old job_id new = lookup job_id old >>? λ entry.
      convert_inputs graph job_id entry.0 (as_set (inputs_in (lookup job_id graph.job_inputs))) (
        insert job_id (C.dumps_value entry.1)
          (insert (concat job_id "!!!") (get_job_inputs_str graph job_id) new))

  unfoldable pub convert_jobs :
      GraphView → Dict (Dict C.Value × C.Value) → List String → Dict String → Option (Dict String)
  unfolding convert_job
  convert_jobs graph old [] new = some new
  convert_jobs graph old (job_id ∷ ids) new =
      convert_job graph old job_id new >>? λ new'. convert_jobs graph old ids new'

  -- The checks come after the new history is saved; `failed` leaves the process.
  unfoldable pub check_conversion : GraphView → Dict (Dict C.Value × C.Value) → Storing Unit
  check_conversion graph old d =
      if not (nat_eq (length (keys old)) (length graph.job_ids))
      then (raise number_changed, d)
      else if not (subset graph.job_ids (keys old) && subset (keys old) graph.job_ids)
      then (raise names_changed, d)
      else (return tt, record d { old = none })

  abbrev pub convert_with : GraphView → List C.Bytes → Dict (Dict C.Value × C.Value) → Storing Unit
  convert_with graph interrupts old d = elim (convert_jobs graph old graph.job_ids []) [
    | none ↦ (raise key_error, d)
    | some new ↦ (save_history new interrupts >>= λ _. check_conversion graph old) d
  ]

  unfoldable pub convert_old_history : GraphView → List C.Bytes → Storing Unit
  unfolding convert_jobs save_history check_conversion
  convert_old_history graph interrupts d = elim d.old [
    | none ↦ (return tt, d)
    | some old ↦
        if is_some d.stored then (raise both_existed, d) else convert_with graph interrupts old d
  ]

  abbrev pub read_history : Option C.Bytes → Storing (Dict String)
  read_history none = pure []
  read_history (some b) = expect json_error (C.loads b)

  unfoldable pub load_history : GraphView → List C.Bytes → Storing (Dict String)
  unfolding convert_old_history
  load_history graph interrupts =
      convert_old_history graph interrupts >>= λ _ d. read_history d.stored d
