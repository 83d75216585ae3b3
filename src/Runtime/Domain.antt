-- ===== src/Runtime/Domain.antt =====
-- src/investment/runtime/domain.py: executions, engine state and events.
-- A `datetime` is a UTC instant, counted in microseconds; an id is a text.
pub mod Lifecycle
use investment_research_engi.Base.{
  ℕ, String, Bool, true, false, Option, none, some, if◌then◌else◌, ◌||◌, not, List, [], ◌∷◌,
  is_empty,
}
use investment_research_engi.Base.Dict.{Dict}
use investment_research_engi.Base.Result.{Result, ok, err, ◌>>=◌, ◌>>◌, raise_if}

pub data EngineStatus : Type 0 where
  starting idle running degraded error stopped : EngineStatus

pub data JobStatus : Type 0 where
  scheduled running completed failed skipped skipped_locked skipped_duplicate cancelled : JobStatus

pub data EventType : Type 0 where
  engine_started engine_stopping heartbeat job_scheduled job_started job_completed : EventType
  job_failed job_skipped : EventType

pub data ErrorCategory : Type 0 where
  data_provider_error data_validation_error research_error model_error : ErrorCategory
  storage_error internal_error : ErrorCategory

pub record RuntimeErrorInfo : Type 0 where
  pub category : ErrorCategory
  pub code : List ℕ
  pub message : List ℕ

pub record ResearchJobExecution : Type 0 where
  pub execution_id : String
  pub job_name : String
  pub status : JobStatus
  pub scheduled_at : ℕ
  pub started_at : Option ℕ
  pub finished_at : Option ℕ
  pub error : Option RuntimeErrorInfo
  pub retry_count : ℕ
  pub metadata : Dict String

-- The `ValueError`s of the methods.
pub data ExecutionError : Type 0 where
  only_scheduled_can_start already_terminal invalid_terminal_status : ExecutionError

-- Python's truth value of an optional text: `None` and "" are false.
abbrev pub given : Option String → Option String
given none = none
given (some t) = if is_empty t then none else some t

abbrev metadata_of : Option String → Dict String
metadata_of none = []
metadata_of (some t) = ("executionIdentity", t) ∷ []

-- `ResearchJobExecution.scheduled`; the id, made of the time and a random suffix, is an argument.
abbrev pub schedule : String → String → ℕ → Option String → ResearchJobExecution
schedule execution_id job_name now execution_identity = record {
  execution_id = execution_id;
  job_name = job_name;
  status = JobStatus.scheduled;
  scheduled_at = now;
  started_at = none;
  finished_at = none;
  error = none;
  retry_count = 0;
  metadata = metadata_of (given execution_identity);
}

abbrev pub is_scheduled : JobStatus → Bool
is_scheduled JobStatus.scheduled = true
is_scheduled _ = false

-- The statuses that `finish` starts from, and those that it ends in.
abbrev pub is_open : JobStatus → Bool
is_open JobStatus.scheduled = true
is_open JobStatus.running = true
is_open _ = false

abbrev pub is_terminal : JobStatus → Bool
is_terminal JobStatus.scheduled = false
is_terminal JobStatus.running = false
is_terminal _ = true

unfoldable pub start : ResearchJobExecution → ℕ → Result ExecutionError ResearchJobExecution
start e now = do
  raise_if (not (is_scheduled e.status)) ExecutionError.only_scheduled_can_start
  ok (record e { status = JobStatus.running; started_at = some now })

unfoldable pub finish :
    ResearchJobExecution
    → JobStatus
    → Option RuntimeErrorInfo
    → ℕ
    → Result ExecutionError ResearchJobExecution
finish e status cause now = do
  raise_if (not (is_open e.status)) ExecutionError.already_terminal
  raise_if (not (is_terminal status)) ExecutionError.invalid_terminal_status
  ok (record e { status = status; finished_at = some now; error = cause })

pub record EngineRuntimeState : Type 0 where
  pub engine : String
  pub instance_id : String
  pub status : EngineStatus
  pub version : String
  pub started_at : ℕ
  pub reported_at : ℕ
  pub active_execution_ids : List String
  pub last_successful_execution_id : Option String
  pub last_failed_execution_id : Option String
  pub reporting_degraded : Bool

pub record EngineEvent : Type 0 where
  pub engine : String
  pub instance_id : String
  pub event_type : EventType
  pub occurred_at : ℕ
  pub engine_status : EngineStatus
  pub version : String
  pub execution : Option ResearchJobExecution
