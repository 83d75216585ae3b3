-- ===== src/Runtime/RunJob/Monad.antt =====
-- A method of the service: state and exceptions. What was written stays written after a raise.
use investment_research_engi.Base.{ℕ, String, Bool, true, false, Option}
pub use investment_research_engi.Base.Step.{◌>>=◌, ◌>>◌, pure, raise, gets, modify}
use investment_research_engi.Base.Step.{Step}
use investment_research_engi.Base.Dict.{Dict}
use investment_research_engi.Base.Result.{Result, ok, err}
use investment_research_engi.Runtime.Domain.{ExecutionError}
use investment_research_engi.Runtime.Errors.{Handler}
use investment_research_engi.Runtime.Lease.{LeaseError, JobLease, acquire}
use investment_research_engi.Runtime.State.{Env, ServiceState, tick, clock}

-- What `run_job` raises: its own `ValueError`, those of the lease and of the execution, and SQLite's
-- error when the lease database is locked for longer than its timeout, in `acquire` or in `release`.
pub data RunError : Type 0 where
  lock_not_configured database_locked : RunError
  of_lease : LeaseError → RunError
  of_execution : ExecutionError → RunError

-- Where SQLite raises in the calls of the lock.
pub data LeaseFault : Type 0 where
  no_fault in_acquire in_release : LeaseFault

abbrev pub acquire_raises : LeaseFault → Bool
acquire_raises LeaseFault.in_acquire = true
acquire_raises _ = false

abbrev pub release_raises : LeaseFault → Bool
release_raises LeaseFault.in_release = true
release_raises _ = false

-- The arguments of one call; the id of its execution, which is random; what the lease database does.
pub record Request : Type 0 where
  pub job_name : String
  pub handler : Handler
  pub timeout_seconds : Option ℕ
  pub lock_key : Option String
  pub lock_ttl_seconds : Option ℕ
  pub execution_identity : Option String
  pub execution_id : String
  pub database : LeaseFault

abbrev pub Action : Type 0 → Type 0
Action A = Step ServiceState RunError A

module _ {A : Type 0} where
  abbrev pub lift : Result ExecutionError A → Action A
  lift (ok a) s = (ok a, s)
  lift (err e) s = (err (RunError.of_execution e), s)

abbrev pub read_clock : Env → Action ℕ
read_clock env s = (ok (clock env s), tick s)

abbrev of_acquire : Result LeaseError Bool → Result RunError Bool
of_acquire (ok b) = ok b
of_acquire (err e) = err (RunError.of_lease e)

abbrev attempt :
    Bool
    → Result LeaseError Bool × Dict JobLease
    → ServiceState
    → Result RunError Bool × ServiceState
attempt true got s = (err RunError.database_locked, s)
attempt false (result, leases) s = (of_acquire result, record s { leases = leases })

-- `self._job_lock.acquire`, at the next reading of the clock.
abbrev pub try_lease : Env → Request → String → ℕ → Action Bool
try_lease env r key ttl s =
    attempt (acquire_raises r.database) (acquire key r.execution_id ttl (clock env s) s.leases)
      (tick s)
