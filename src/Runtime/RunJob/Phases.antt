-- ===== src/Runtime/RunJob/Phases.antt =====
-- The phases of `run_job` after an execution is scheduled: each returns, and this is what it leaves.
use investment_research_engi.Base.{
  ◌≡◌, refl, true, false, Bool, ◌&&◌, is_some, if◌then◌else◌, none, some, Option, arith, [], ◌∷◌,
  ◌++◌, ℕ,
}
use investment_research_engi.Base.Dict.{insert}
use investment_research_engi.Base.Result.{ok, err, Result}
use investment_research_engi.Runtime.Domain.{
  given, ResearchJobExecution, JobStatus, EventType, RuntimeErrorInfo, is_terminal, start, finish,
}
use investment_research_engi.Runtime.Errors.{Outcome, classify_error, timeout_error, observe}
use investment_research_engi.Runtime.State.{
  Env, ServiceState, save_execution, tick, clock, complete, without,
}
use investment_research_engi.Runtime.State.Frame.{Saves, publish-Frame, complete-Saves}
use investment_research_engi.Runtime.RunJob.Monad.{Request, RunError, release_raises}
use investment_research_engi.Runtime.RunJob.{
  skip, settle, begin_job, conclude, perform, clean_up, scope_of, begin, call_handler,
}

-- The execution as `finish` leaves it.
abbrev pub ended :
    Env
    → ServiceState
    → JobStatus
    → Option RuntimeErrorInfo
    → ResearchJobExecution
    → ResearchJobExecution
ended env s status cause e = record e {
  status = status;
  finished_at = some (clock env s);
  error = cause;
}

-- What a phase that returns `e` leaves.
pub record Returns (e : ResearchJobExecution) (s : ServiceState)
    (out : Result RunError ResearchJobExecution × ServiceState) : Type 0 where
  pub value : out.0 ≡ ok e
  pub saves : Saves e s out.1

pub skip-Returns :
    (env : Env) (e : ResearchJobExecution) (status : JobStatus) (s : ServiceState)
    → e.status ≡ JobStatus.scheduled
    → is_terminal status ≡ true
    → Returns (ended env s status none e) s (skip env e status s)
unfolding skip finish
skip-Returns env e status s waits last = ground (
  arith,
  publish-Frame env EventType.job_skipped (some (ended env s status none e))
      (save_execution (ended env s status none e) (tick s)),
)

pub settle-Returns :
    (env : Env) (e : ResearchJobExecution) (status : JobStatus) (cause : Option RuntimeErrorInfo)
    (event : EventType) (s : ServiceState)
    → e.status ≡ JobStatus.running
    → is_terminal status ≡ true
    → Returns (ended env s status cause e) s (settle env e status cause event s)
unfolding settle finish
settle-Returns env e status cause event s runs last = ground (
  arith,
  publish-Frame env event (some (ended env s status cause e))
      (complete env (ended env s status cause e) (tick s)),
  complete-Saves env (ended env s status cause e) (tick s),
)

-- How the handler's outcome is recorded.
abbrev pub status_of : Outcome → JobStatus
status_of Outcome.returned = JobStatus.completed
status_of Outcome.timed_out = JobStatus.failed
status_of (Outcome.raised _) = JobStatus.failed

abbrev pub cause_of : Option ℕ → Outcome → Option RuntimeErrorInfo
cause_of timeout Outcome.returned = none
cause_of timeout Outcome.timed_out = some (timeout_error timeout)
cause_of timeout (Outcome.raised x) = some (classify_error x)

conclude-Returns :
    (env : Env) (e : ResearchJobExecution) (timeout : Option ℕ) (o : Outcome) (s : ServiceState)
    → e.status ≡ JobStatus.running
    → Returns (ended env s (status_of o) (cause_of timeout o) e) s (conclude env e timeout o s)
unfolding conclude
conclude-Returns env e timeout Outcome.returned s runs = settle-Returns env e _ _ _ s runs refl
conclude-Returns env e timeout Outcome.timed_out s runs = settle-Returns env e _ _ _ s runs refl
conclude-Returns env e timeout (Outcome.raised x) s runs = settle-Returns env e _ _ _ s runs refl

-- The execution as `start` leaves it.
abbrev pub running_at : Env → ServiceState → ResearchJobExecution → ResearchJobExecution
running_at env s e = record e { status = JobStatus.running; started_at = some (clock env s) }

begin_job-Returns :
    (env : Env) (e : ResearchJobExecution) (s : ServiceState)
    → e.status ≡ JobStatus.scheduled
    → Returns (running_at env s e) s (begin_job env e s)
unfolding begin_job start
begin_job-Returns env e s waits =
    let running = running_at env s e in
    ground (
      arith,
      publish-Frame env EventType.job_started (some running)
          (begin (clock env (tick s)) running (tick (tick s))),
    )

-- Whether giving the lease back raises.
abbrev pub fails_release : Bool → Request → Bool
fails_release leased r = leased && is_some (given r.lock_key) && release_raises r.database

-- The result of a call once its lease is to be given back.
abbrev pub unless_raised : Bool → ResearchJobExecution → Result RunError ResearchJobExecution
unless_raised true e = err RunError.database_locked
unless_raised false e = ok e

-- How the lines of `finally` end.
pub record Cleans (leased : Bool) (r : Request) (s : ServiceState)
    (out : Result RunError (Unit {0}) × ServiceState) : Type 0 where
  pub value : out.0 ≡ (if fails_release leased r then err RunError.database_locked else ok tt)
  pub same_accepting : out.1.accepting ≡ s.accepting
  pub same_handled : out.1.handled ≡ s.handled
  pub same_executions : out.1.executions ≡ s.executions
  pub active_jobs :
      out.1.active_jobs
      ≡ (if fails_release leased r then s.active_jobs else without (scope_of r) s.active_jobs)

pub clean_up-Cleans :
    (leased : Bool) (r : Request) (s : ServiceState) → Cleans leased r s (clean_up leased r s)
unfolding clean_up
clean_up-Cleans leased r s = ground arith

-- What a job leaves whose handler is called.
pub record Performs (r : Request) (e : ResearchJobExecution) (leased : Bool) (s : ServiceState)
    (out : Result RunError ResearchJobExecution × ServiceState) : Type 0 where
  pub running : ResearchJobExecution
  pub final : ResearchJobExecution
  pub value : out.0 ≡ unless_raised (fails_release leased r) final
  pub status : final.status ≡ status_of (observe r.handler r.timeout_seconds r.lock_key)
  pub cause :
      final.error ≡ cause_of r.timeout_seconds (observe r.handler r.timeout_seconds r.lock_key)
  pub same_id : final.execution_id ≡ e.execution_id
  pub same_metadata : final.metadata ≡ e.metadata
  pub same_accepting : out.1.accepting ≡ s.accepting
  pub handled : out.1.handled ≡ s.handled ++ e.execution_id ∷ []
  pub active_jobs :
      out.1.active_jobs
      ≡ (if fails_release leased r then s.active_jobs else without (scope_of r) s.active_jobs)
  pub leases : out.1.leases ≡ (clean_up leased r s).1.leases
  pub executions :
      out.1.executions ≡ insert e.execution_id final (insert e.execution_id running s.executions)

pub perform-Performs :
    (env : Env) (r : Request) (e : ResearchJobExecution) (leased : Bool) (s : ServiceState)
    → e.status ≡ JobStatus.scheduled
    → Performs r e leased s (perform env r e leased s)
unfolding perform clean_up
perform-Performs env r e leased s waits =
    let running = running_at env s e in
    let s₁ = call_handler e.execution_id (begin_job env e s).1 in
    let o = observe r.handler r.timeout_seconds r.lock_key in
    let began = begin_job-Returns env e s waits in
    let over = conclude-Returns env running r.timeout_seconds o s₁ refl in
    record {
      running = running;
      final = ended env s₁ (status_of o) (cause_of r.timeout_seconds o) running;
      value = ground (arith, began, over);
      status = refl;
      cause = refl;
      same_id = refl;
      same_metadata = refl;
      same_accepting = ground (arith, began, over);
      handled = ground (arith, began, over);
      active_jobs = ground (arith, began, over);
      leases = ground (arith, began, over);
      executions = ground (arith, began, over);
    }
