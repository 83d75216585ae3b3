-- ===== src/Runtime/RunJob/Table.antt =====
-- What `run_job` decides, read off the state at the call.
pub mod Tail
use investment_research_engi.Base.{
  ℕ, ◌*◌, String, ◌≡◌, Bool, true, false, Option, none, some, List, [], ◌∷◌, ◌++◌, arith, ◌||◌,
  ◌&&◌, is_some, ◌==◌, not, if◌then◌else◌, is_empty, Bool-cases, Option-cases, inl, inr,
}
use investment_research_engi.Base.Dict.{lookup}
use investment_research_engi.Base.Result.{Result, ok, err}
use investment_research_engi.Runtime.Domain.{
  ResearchJobExecution, JobStatus, EventType, given, schedule, is_terminal,
}
use investment_research_engi.Runtime.Errors.{observe}
use investment_research_engi.Runtime.Lease.{LeaseError, is_held}
use investment_research_engi.Runtime.State.{
  Env, ServiceState, publish, save_execution, tick, clock, without,
}
use investment_research_engi.Runtime.RunJob.Monad.{
  Request, RunError, acquire_raises, release_raises,
}
use investment_research_engi.Runtime.RunJob.Phases.{status_of}
use investment_research_engi.Runtime.RunJob.{
  scope_of, is_active, find_previous, skip_status, usable_ttl, run_job,
}

abbrev pub Verdict : Type 0
Verdict = Result RunError JobStatus

-- The execution that the call schedules, and the state once it is saved and announced.
abbrev pub scheduled_by : Env → Request → ServiceState → ResearchJobExecution
scheduled_by env r s = schedule r.execution_id r.job_name (clock env s) r.execution_identity

abbrev pub announced : Env → Request → ServiceState → ServiceState
announced env r s =
    let e = scheduled_by env r s in
    publish env EventType.job_scheduled (some e) (save_execution e (tick s))

-- An admitted job with its lease, if it needs one: a duplicate is skipped, any other runs.
abbrev pub previous_verdict : Request → Option ResearchJobExecution → Verdict
previous_verdict r none = ok (status_of (observe r.handler r.timeout_seconds r.lock_key))
previous_verdict r (some _) = ok JobStatus.skipped_duplicate

abbrev pub identity_verdict : Request → ServiceState → Verdict
identity_verdict r s = previous_verdict r (find_previous (given r.execution_identity) s)

abbrev pub lease_verdict : Env → Request → String → ServiceState → Option ℕ → Verdict
lease_verdict env r key s none = err RunError.lock_not_configured
lease_verdict env r key s (some ttl) =
    if acquire_raises r.database
    then err RunError.database_locked
    else if is_empty key || is_empty r.execution_id || ttl * 1_000_000 == 0
    then err (RunError.of_lease LeaseError.invalid_lease)
    else if is_held (lookup key s.leases) (clock env s)
    then ok JobStatus.skipped_locked
    else identity_verdict r s

abbrev pub admitted_verdict : Env → Request → ServiceState → Option String → Verdict
admitted_verdict env r s none = identity_verdict r s
admitted_verdict env r s (some key) =
    lease_verdict env r key s (usable_ttl env.has_lock r.lock_ttl_seconds)

unfoldable pub verdict : Env → Request → ServiceState → Verdict
verdict env r s =
    if not s.accepting || is_active (scope_of r) s.active_jobs
    then ok (skip_status (given r.lock_key))
    else admitted_verdict env r (announced env r s) (given r.lock_key)

-- A lease is given back where the job got one.
abbrev pub gives_back : Request → Verdict → Bool
gives_back r (ok JobStatus.completed) = is_some (given r.lock_key)
gives_back r (ok JobStatus.failed) = is_some (given r.lock_key)
gives_back r (ok JobStatus.skipped_duplicate) = is_some (given r.lock_key)
gives_back r _ = false

-- How a call ends under a verdict: what `release` raises takes the place of the result.
abbrev pub ending : Request → Verdict → Verdict
ending r v = if gives_back r v && release_raises r.database then err RunError.database_locked else v

abbrev pub statuses : Result RunError ResearchJobExecution → Verdict
statuses (ok e) = ok e.status
statuses (err x) = err x

-- The handler is called where the job ends COMPLETED or FAILED, and nowhere else.
abbrev pub calls_handler : Verdict → Bool
calls_handler (ok JobStatus.completed) = true
calls_handler (ok JobStatus.failed) = true
calls_handler _ = false

abbrev pub after_handler : Verdict → String → List String → List String
after_handler v id handled = if calls_handler v then handled ++ id ∷ [] else handled
