-- ===== src/Runtime/Scheduler.antt =====
-- `APSchedulerRuntime._run` (src/investment/runtime/scheduler.py): one firing of a configured job.
-- APScheduler decides when it is called, and is not modelled.
pub mod Windows
use investment_research_engi.Base.{
  ℕ, ◌+◌, ◌-◌, ◌%◌, ◌*◌, ◌/◌, ◌<◌, String, ◌≡◌, ◌≢◌, refl, Bool, true, false, Option, none, some,
  arith, if◌then◌else◌, is_empty, is_some, ◌||◌, Bool-cases, Option-cases, inl, inr, ◌⊎◌,
}
use investment_research_engi.Base.Result.{Result, ok, err}
use investment_research_engi.Runtime.Domain.{ResearchJobExecution, given}
use investment_research_engi.Runtime.Errors.{Handler}
use investment_research_engi.Runtime.Config.{ScheduledJobConfig, job_policies, validate_config}
use investment_research_engi.Runtime.State.{Env, ServiceState, tick, clock}
use investment_research_engi.Runtime.RunJob.{run_job}
use investment_research_engi.Runtime.RunJob.Monad.{Action, Request, RunError, LeaseFault}

-- `now.replace(second=0, microsecond=0)`
abbrev pub minute_of : ℕ → ℕ
minute_of now = now - now % 60_000_000

-- The clock is read only for a class that needs a lock.
abbrev pub read_window : ScheduledJobConfig → ServiceState → ServiceState
read_window c s = if (job_policies c.execution_class).lock_required then tick s else s

-- `identity_text name window` is `f"{name}:{window.isoformat()}"`.
module _ (identity_text : String → ℕ → String) where
  abbrev pub window_identity : ScheduledJobConfig → ℕ → Option String
  window_identity c now =
      if (job_policies c.execution_class).lock_required
      then some (identity_text c.name (minute_of now))
      else none

  abbrev pub request_of : ScheduledJobConfig → Handler → String → LeaseFault → ℕ → Request
  request_of c handler execution_id database now = record {
    job_name = c.name;
    handler = handler;
    timeout_seconds = c.timeout_seconds;
    lock_key = c.lock_key;
    lock_ttl_seconds = (job_policies c.execution_class).lock_ttl_seconds;
    execution_identity = window_identity c now;
    execution_id = execution_id;
    database = database;
  }

  unfoldable pub run :
      Env → ScheduledJobConfig → Handler → String → LeaseFault → Action ResearchJobExecution
  run env c handler execution_id database s =
      run_job env (request_of c handler execution_id database (clock env s)) (read_window c s)
