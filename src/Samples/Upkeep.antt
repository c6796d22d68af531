-- ===== src/Samples/Upkeep.antt =====
-- Logs, the history file, the compatibility layer and the console.
use pypipegraph.Console.{ConsoleJob, press_all, start_console}
use pypipegraph.Console.Stopping.{stopped_once}
use pypipegraph.Exec.{return}
use pypipegraph.History.{Codec, GraphView, HistoryDir, load_history, save_history}
use pypipegraph.History.Kept.{load-save}
use pypipegraph.Logs.{cleanup_logs}
use pypipegraph.Logs.Bounds.{count}
use pypipegraph.Logs.Retention.{logs_bounded}
use pypipegraph.Ppg1.{Compat, Offered, replace_ppg1, replaced_modules, unreplace_ppg1}
use pypipegraph.Ppg1.Restored.{unreplace_ppg1-replace_ppg1}
use pypipegraph.Ppg1.Restored.Swapping.{IsReady}
use pypipegraph.Prelude.{
  Bool, Dict, List, String, [], arith, concat, contains, false, if◌then◌else◌, lookup, none, refl,
  some, true, ℕ, ◌==◌, ◌||◌, ◌∷◌, ◌≡◌, ◌≤◌,
}

abbrev some_logs : List String
some_logs = "run-1.messages.log" ∷ "run-2.messages.log" ∷ "run-1.lookup.log" ∷ []

abbrev is_message : String → Bool
is_message name = name == "run-1.messages.log" || name == "run-2.messages.log"

logs_bounded_example :
    (count is_message (cleanup_logs is_message (some 1) some_logs) ≤ 1)
    × (cleanup_logs is_message (some 0) some_logs ≡ some_logs)
logs_bounded_example = logs_bounded is_message 0 some_logs

-- The bytes of a history are the history.
abbrev known_bytes : Dict String
known_bytes = ("a", "03") ∷ []

abbrev plain_codec : Codec
plain_codec = record {
  Bytes = Dict String;
  Value = String;
  dumps = λ h. h;
  loads = λ b. some b;
  dumps_value = λ v. v;
  dumps_entry = λ name v. concat name v;
}

abbrev no_jobs : GraphView
no_jobs = record { job_ids = []; job_inputs = []; outputs_to_job_ids = [] }

abbrev history_dir : HistoryDir plain_codec
history_dir = record { stored = some []; backup = none; old = none }

load-save_example :
    (load_history plain_codec no_jobs []
      (save_history plain_codec known_bytes ([] ∷ []) history_dir).1).0
    ≡ return known_bytes
load-save_example =
    load-save plain_codec (λ h. refl) no_jobs known_bytes ([] ∷ []) [] history_dir refl

abbrev gained_graph : GraphView
gained_graph = record { job_ids = "a" ∷ []; job_inputs = []; outputs_to_job_ids = [] }

abbrev old_dir : HistoryDir plain_codec
old_dir = record { stored = none; backup = none; old = some [] }

a_is_listed : contains ("a" ∷ []) "a" ≡ true
unfolding contains
a_is_listed = refl

nothing_is_old : lookup {V = Dict String × String} "a" [] ≡ none
unfolding lookup
nothing_is_old = refl

abbrev loaded_ppg1 : Compat ℕ
loaded_ppg1 = record {
  patched = false;
  ppg1 = ("Job", 1) ∷ ("testing", 2) ∷ [];
  sys_modules =
      ("pypipegraph.job", 3)
      ∷ ("pypipegraph.testing", 2)
      ∷ ("pypipegraph.testing.fixtures", 4)
      ∷ [];
  old_entries = [];
  old_modules = [];
}

abbrev offered : Offered ℕ
offered = record { new_entry = λ name. 10; new_module = λ name. 11; import_module = λ name. none }

ppg1-IsReady : IsReady replaced_modules loaded_ppg1
unfolding lookup contains
ppg1-IsReady = record { loaded = λ x known. ground (arith, known); fresh = λ x known. refl }

unreplace_ppg1-replace_ppg1_example :
    (t : Compat ℕ) × (replace_ppg1 offered loaded_ppg1 ≡ some t)
    × (lookup "Job" (unreplace_ppg1 t).ppg1 ≡ (
        if "testing" == "Job"
        then lookup "pypipegraph.testing" loaded_ppg1.sys_modules
        else lookup "Job" loaded_ppg1.ppg1))
    × (lookup "Job" (unreplace_ppg1 t).sys_modules ≡ lookup "Job" loaded_ppg1.sys_modules)
    × ((unreplace_ppg1 t).patched ≡ false)
unreplace_ppg1-replace_ppg1_example =
    unreplace_ppg1-replace_ppg1 offered loaded_ppg1 "Job" refl refl refl ppg1-IsReady

abbrev stop_keys : List (ℕ × Dict ConsoleJob)
stop_keys =
    (115, [])
    ∷ (116, [])
    ∷ (111, [])
    ∷ (112, [])
    ∷ (10, [])
    ∷ (115, [])
    ∷ (116, [])
    ∷ (111, [])
    ∷ (112, [])
    ∷ (13, [])
    ∷ []

stopped_once_example : (press_all stop_keys start_console).effects.stops ≤ 1
stopped_once_example = stopped_once stop_keys
