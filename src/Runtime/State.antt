-- ===== src/Runtime/State.antt =====
-- The state of `RuntimeStateService` (src/investment/runtime/service.py) with the repository, the
-- lease table and the publisher that it calls, and the methods that report the engine's state.
-- `self._lock` makes each update of the fields one step. A write of a state file succeeds.
pub mod Reporting
pub mod Frame
use investment_research_engi.Base.{
  ℕ, ◌+◌, String, Bool, true, false, Option, none, some, ◌++◌, List, [], ◌∷◌, if◌then◌else◌, keep,
  str_eq, not, take, ◌&&◌,
}
use investment_research_engi.Base.Dict.{Dict, insert, lookup}
use investment_research_engi.Base.Order.{sort_latest}
use investment_research_engi.Runtime.Domain.{
  EngineRuntimeState, EngineStatus, EngineEvent, EventType, ResearchJobExecution, JobStatus,
}
use investment_research_engi.Runtime.Lease.{JobLease}

-- What the service is built from: the readings of `datetime.now(UTC)`, in turn; which of the
-- publications the publisher delivers (it raises at the others); whether there is a `JobLock`.
pub record Env : Type 0 where
  pub now : ℕ → ℕ
  pub delivers : ℕ → Bool
  pub has_lock : Bool

pub record ServiceState : Type 0 where
  pub state : EngineRuntimeState
  pub accepting : Bool
  pub active_jobs : List String
  -- the files of `JsonRuntimeStateRepository`
  pub saved_state : Option EngineRuntimeState
  pub executions : Dict ResearchJobExecution
  -- the table of `SqliteJobLock`
  pub leases : Dict JobLease
  -- readings of the clock and publications so far
  pub readings : ℕ
  pub publications : ℕ
  -- the executions whose handler has been called, and the events in the order of their publication
  pub handled : List String
  pub events : List EngineEvent

-- `RuntimeStateService.__init__`, for the engine and version that it is given.
unfoldable pub initial : Env → String → String → String → ServiceState
initial env engine instance_id version = record {
  state = record {
    engine = engine;
    instance_id = instance_id;
    status = EngineStatus.starting;
    version = version;
    started_at = env.now 0;
    reported_at = env.now 0;
    active_execution_ids = [];
    last_successful_execution_id = none;
    last_failed_execution_id = none;
    reporting_degraded = false;
  };
  accepting = true;
  active_jobs = [];
  saved_state = none;
  executions = [];
  leases = [];
  readings = 1;
  publications = 0;
  handled = [];
  events = [];
}

-- One reading of the clock is used up.
abbrev pub tick : ServiceState → ServiceState
tick s = record s { readings = s.readings + 1 }

abbrev pub clock : Env → ServiceState → ℕ
clock env s = env.now s.readings

-- `self._state = …; self._repository.save_state(self._state)`
abbrev pub set_state : EngineRuntimeState → ServiceState → ServiceState
set_state state s = record s { state = state; saved_state = some state }

abbrev pub save_execution : ResearchJobExecution → ServiceState → ServiceState
save_execution e s = record s { executions = insert e.execution_id e s.executions }

abbrev pub busy_or_idle : List String → EngineStatus
busy_or_idle [] = EngineStatus.idle
busy_or_idle (_ ∷ _) = EngineStatus.running

abbrev pub with_status : EngineStatus → ℕ → EngineRuntimeState → EngineRuntimeState
with_status status now state = record state { status = status; reported_at = now }

-- `_publish` after a delivery, and after `except Exception`.
unfoldable pub recover : Env → ServiceState → ServiceState
recover env s =
    if s.state.reporting_degraded
    then tick (
        set_state
          (record s.state {
            status = busy_or_idle s.state.active_execution_ids;
            reported_at = clock env s;
            reporting_degraded = false;
          })
          s)
    else s

abbrev pub degraded_status : EngineStatus → EngineStatus
degraded_status EngineStatus.running = EngineStatus.running
degraded_status EngineStatus.stopped = EngineStatus.stopped
degraded_status _ = EngineStatus.degraded

unfoldable pub degrade : Env → ServiceState → ServiceState
degrade env s = tick (
    set_state
      (record s.state {
        status = degraded_status s.state.status;
        reported_at = clock env s;
        reporting_degraded = true;
      })
      s)

-- `EngineEvent.create`; its id is random, and no code reads it.
abbrev create_event : EngineRuntimeState → EventType → Option ResearchJobExecution → ℕ → EngineEvent
create_event state event_type execution now = record {
  engine = state.engine;
  instance_id = state.instance_id;
  event_type = event_type;
  occurred_at = now;
  engine_status = state.status;
  version = state.version;
  execution = execution;
}

abbrev send : Env → EventType → Option ResearchJobExecution → ServiceState → ServiceState
send env event_type execution s = record s {
  readings = s.readings + 1;
  publications = s.publications + 1;
  events = s.events ++ create_event s.state event_type execution (clock env s) ∷ [];
}

-- `_publish`: a publisher that raises degrades the reporting, and nothing else.
unfoldable pub publish : Env → EventType → Option ResearchJobExecution → ServiceState → ServiceState
unfolding recover degrade
publish env event_type execution s =
    let sent = send env event_type execution s in
    if env.delivers s.publications then recover env sent else degrade env sent

-- `RuntimeStateService.start`
unfoldable pub start_engine : Env → ServiceState → ServiceState
unfolding publish
start_engine env s =
    publish env EventType.engine_started none
      (tick (set_state (with_status EngineStatus.idle (clock env s) s.state) s))

-- `RuntimeStateService.stop`
unfoldable pub stop_engine : Env → ServiceState → ServiceState
unfolding publish
stop_engine env s =
    publish env EventType.engine_stopping none
      (record (tick (set_state (with_status EngineStatus.stopped (clock env s) s.state) s)) {
        accepting = false;
      })

-- `RuntimeStateService.heartbeat`
unfoldable pub heartbeat : Env → ServiceState → ServiceState
unfolding publish
heartbeat env s = publish env EventType.heartbeat none s

abbrev pub without : String → List String → List String
without key = keep (λ k. not (str_eq k key))

abbrev last_successful : ResearchJobExecution → JobStatus → Option String → Option String
last_successful e JobStatus.completed before = some e.execution_id
last_successful e _ before = before

abbrev last_failed : ResearchJobExecution → JobStatus → Option String → Option String
last_failed e JobStatus.failed before = some e.execution_id
last_failed e _ before = before

-- `_complete`
unfoldable pub complete : Env → ResearchJobExecution → ServiceState → ServiceState
complete env e s =
    let ids = without e.execution_id s.state.active_execution_ids in
    save_execution e (
      tick (
        set_state
          (record s.state {
            status = busy_or_idle ids;
            reported_at = clock env s;
            active_execution_ids = ids;
            last_successful_execution_id =
                last_successful e e.status s.state.last_successful_execution_id;
            last_failed_execution_id = last_failed e e.status s.state.last_failed_execution_id;
          })
          s))

-- `list_executions` reads the files by name, the latest first.
unfoldable pub list_executions : ℕ → Dict ResearchJobExecution → Dict ResearchJobExecution
list_executions limit files = take limit (sort_latest files)

abbrev is_text : Option String → String → Bool
is_text none t = false
is_text (some s) t = str_eq s t

abbrev pub counts : JobStatus → Bool
counts JobStatus.running = true
counts JobStatus.completed = true
counts _ = false

-- The test of `find_execution_by_identity`.
abbrev pub matches_identity : String → ResearchJobExecution → Bool
matches_identity identity e =
    is_text (lookup "executionIdentity" e.metadata) identity && counts e.status

unfoldable pub first_match : String → Dict ResearchJobExecution → Option ResearchJobExecution
first_match identity [] = none
first_match identity ((_, e) ∷ d) =
    let rest = first_match identity d in if matches_identity identity e then some e else rest

unfoldable pub find_execution_by_identity :
    String → Dict ResearchJobExecution → Option ResearchJobExecution
unfolding list_executions first_match
find_execution_by_identity identity files = first_match identity (list_executions 10_000 files)
