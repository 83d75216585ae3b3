-- ===== src/Runtime/RunJob.antt =====
-- `RuntimeStateService.run_job` (src/investment/runtime/service.py), phase by phase. Each phase
-- under `self._lock`, and each call of the repository, the publisher or the lock, is one step.
pub mod Monad
pub mod Phases
pub mod Table
pub mod Stored
pub mod Release
pub mod Holding
pub mod Duplicates
use Monad.{
  Action, RunError, Request, release_raises, pure, raise, lift, read_clock, modify, gets, try_lease,
  ◌>>=◌, ◌>>◌,
}
use investment_research_engi.Base.{
  ℕ, ◌*◌, String, Bool, true, false, Option, none, some, ◌++◌, List, [], ◌∷◌, if◌then◌else◌, str_eq,
  any, not, ◌&&◌, ◌||◌, is_some,
}
use investment_research_engi.Runtime.Domain.{
  ResearchJobExecution, RuntimeErrorInfo, JobStatus, EventType, EngineStatus, schedule, start,
  finish, given,
}
use investment_research_engi.Runtime.Errors.{Outcome, classify_error, timeout_error, observe}
use investment_research_engi.Runtime.Lease.{release}
use investment_research_engi.Runtime.State.{
  Env, ServiceState, publish, save_execution, set_state, tick, clock, with_status, complete,
  without, find_execution_by_identity,
}

abbrev pub is_active : String → List String → Bool
is_active scope = any (λ k. str_eq k scope)

-- `lock_key or job_name`
abbrev or_name : Option String → String → String
or_name none job_name = job_name
or_name (some key) _ = key

abbrev pub scope_of : Request → String
scope_of r = or_name (given r.lock_key) r.job_name

-- `self._active_jobs.discard(scope)`
abbrev pub discard : String → ServiceState → ServiceState
discard scope s = record s { active_jobs = without scope s.active_jobs }

-- The locked test of `_accepting` and `_active_jobs`, which marks an admitted scope as active.
unfoldable pub admit : String → Action Bool
admit scope s =
    if not s.accepting || is_active scope s.active_jobs
    then pure false s
    else pure true (record s { active_jobs = scope ∷ s.active_jobs })

-- An execution that ends before it starts.
unfoldable pub skip : Env → ResearchJobExecution → JobStatus → Action ResearchJobExecution
skip env execution status = do
  now ← read_clock env
  skipped ← lift (finish execution status none now)
  modify (save_execution skipped)
  modify (publish env EventType.job_skipped (some skipped))
  pure skipped

-- `self._job_lock.release`: where SQLite raises, the row stays.
abbrev release_row : Bool → String → String → Action (Unit {0})
release_row true key owner = raise RunError.database_locked
release_row false key owner = modify (λ s. record s { leases = (release key owner s.leases).1 })

abbrev release_lease : Bool → Option String → Request → Action (Unit {0})
release_lease true (some key) r = release_row (release_raises r.database) key r.execution_id
release_lease _ _ r = pure tt

-- `finally`, and the same lines where a duplicate is skipped. What `release` raises skips the rest.
unfoldable pub clean_up : Bool → Request → Action (Unit {0})
unfolding release
clean_up leased r = do release_lease leased (given r.lock_key) r; modify (discard (scope_of r))

-- `self._state_with_active`, and both records saved.
abbrev begin : ℕ → ResearchJobExecution → ServiceState → ServiceState
begin now e s =
    let state = record (with_status EngineStatus.running now s.state) {
      active_execution_ids = s.state.active_execution_ids ++ e.execution_id ∷ [];
    } in
    set_state state (save_execution e s)

unfoldable pub begin_job : Env → ResearchJobExecution → Action ResearchJobExecution
begin_job env execution = do
  now ← read_clock env
  running ← lift (start execution now)
  reported ← read_clock env
  modify (begin reported running)
  modify (publish env EventType.job_started (some running))
  pure running

-- One of the three endings of the `try` statement.
unfoldable pub settle :
    Env
    → ResearchJobExecution
    → JobStatus
    → Option RuntimeErrorInfo
    → EventType
    → Action ResearchJobExecution
settle env running status cause event = do
  now ← read_clock env
  ended ← lift (finish running status cause now)
  modify (complete env ended)
  modify (publish env event (some ended))
  pure ended

unfoldable pub conclude :
    Env → ResearchJobExecution → Option ℕ → Outcome → Action ResearchJobExecution
conclude env running timeout Outcome.returned =
    settle env running JobStatus.completed none EventType.job_completed
conclude env running timeout Outcome.timed_out =
    settle env running JobStatus.failed (some (timeout_error timeout)) EventType.job_failed
conclude env running timeout (Outcome.raised x) =
    settle env running JobStatus.failed (some (classify_error x)) EventType.job_failed

abbrev call_handler : String → ServiceState → ServiceState
call_handler execution_id s = record s { handled = s.handled ++ execution_id ∷ [] }

unfoldable pub perform : Env → Request → ResearchJobExecution → Bool → Action ResearchJobExecution
perform env r execution leased = do
  running ← begin_job env execution
  modify (call_handler running.execution_id)
  result ← conclude env running r.timeout_seconds (observe r.handler r.timeout_seconds r.lock_key)
  clean_up leased r
  pure result

abbrev pub find_previous : Option String → ServiceState → Option ResearchJobExecution
find_previous none s = none
find_previous (some identity) s = find_execution_by_identity identity s.executions

-- `if previous is not None`
unfoldable pub after_previous :
    Env
    → Request
    → ResearchJobExecution
    → Bool
    → Option ResearchJobExecution
    → Action ResearchJobExecution
after_previous env r execution leased none = perform env r execution leased
after_previous env r execution leased (some _) = do
  clean_up leased r
  skip env execution JobStatus.skipped_duplicate

unfoldable pub check_identity :
    Env → Request → ResearchJobExecution → Bool → Action ResearchJobExecution
check_identity env r execution leased = do
  previous ← gets (find_previous (given r.execution_identity))
  after_previous env r execution leased previous

-- What follows `acquire`.
unfoldable pub with_lease :
    Env → Request → ResearchJobExecution → Bool → Action ResearchJobExecution
with_lease env r execution true = check_identity env r execution true
with_lease env r execution false = do
  modify (discard (scope_of r))
  skip env execution JobStatus.skipped_locked

abbrev pub usable_ttl : Bool → Option ℕ → Option ℕ
usable_ttl true ttl = ttl
usable_ttl false _ = none

-- The lease of a job with a lock key. What `acquire` raises passes through with the scope active.
unfoldable pub take_lease :
    Env → Request → String → ResearchJobExecution → Option ℕ → Action ResearchJobExecution
take_lease env r key execution none = do
  modify (discard (scope_of r))
  raise RunError.lock_not_configured
take_lease env r key execution (some ttl) = do
  acquired ← try_lease env r key (ttl * 1_000_000)
  with_lease env r execution acquired

abbrev pub skip_status : Option String → JobStatus
skip_status none = JobStatus.skipped
skip_status (some _) = JobStatus.skipped_locked

unfoldable pub admitted_job :
    Env → Request → ResearchJobExecution → Option String → Action ResearchJobExecution
admitted_job env r execution none = check_identity env r execution false
admitted_job env r execution (some key) =
    take_lease env r key execution (usable_ttl env.has_lock r.lock_ttl_seconds)

unfoldable pub after_admission :
    Env → Request → ResearchJobExecution → Bool → Action ResearchJobExecution
after_admission env r execution true = admitted_job env r execution (given r.lock_key)
after_admission env r execution false = skip env execution (skip_status (given r.lock_key))

unfoldable pub run_job : Env → Request → Action ResearchJobExecution
run_job env r = do
  now ← read_clock env
  let execution = schedule r.execution_id r.job_name now r.execution_identity
  modify (save_execution execution)
  modify (publish env EventType.job_scheduled (some execution))
  admitted ← admit (scope_of r)
  after_admission env r execution admitted
