-- ===== src/Enums.antt =====
-- python/pypipegraph2/enums.py and job_status.py.
use pypipegraph.Prelude.{Bool, Option, String, false, if◌then◌else◌, leb, none, some, true, ℕ, ◌-◌}

pub data JobOutcome : Type 0 where
  not_yet success skipped failed upstream_failed pruned : JobOutcome

pub data RunMode : Type 0 where
  console notebook noninteractive : RunMode

unfoldable pub is_strict : RunMode → Bool
is_strict notebook = false
is_strict console = true
is_strict noninteractive = true

pub data Resources : Type 0 where
  single_core all_cores exclusive runs_here raise_in_core_lock raise_in_to_number : Resources

unfoldable pub is_external : Resources → Bool
is_external single_core = true
is_external all_cores = true
is_external exclusive = true
is_external _ = false

-- `none` is the ValueError of the last branch; `max_cores - 1` is below 1 at zero cores too.
unfoldable pub to_number : Resources → ℕ → Option ℕ
to_number single_core max_cores = some 1
to_number all_cores max_cores = some (if leb (max_cores - 1) 1 then 1 else max_cores - 1)
to_number exclusive max_cores = some max_cores
to_number runs_here max_cores = some 1
to_number raise_in_core_lock max_cores = some 0
to_number raise_in_to_number max_cores = none

-- What a job was recorded with; the payload is a hash or an exception of the job's.
pub record RecordedJobOutcome (Payload : Type 0) : Type 0 where
  pub job_id : String
  pub outcome : JobOutcome
  pub payload : Option Payload

-- The property `error`: a payload, the text "Upstream", or the AttributeError.
pub data ErrorView (Payload : Type 0) : Type 0 where
  payload_error : Option Payload → ErrorView Payload
  upstream : ErrorView Payload
  attribute_error : ErrorView Payload

unfoldable pub error : {Payload : Type 0} → RecordedJobOutcome Payload → ErrorView Payload
error r = elim r.outcome [
  | failed ↦ payload_error r.payload
  | upstream_failed ↦ upstream
  | _ ↦ attribute_error
]
