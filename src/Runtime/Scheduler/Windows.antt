-- ===== src/Runtime/Scheduler/Windows.antt =====
-- Firings of validated jobs that change state.
use investment_research_engi.Base.{
  ℕ, ◌/◌, ◌<◌, String, ◌≡◌, ◌≢◌, refl, Bool, true, false, Option, none, some, arith, is_empty,
  Option-cases, inl, inr, length, str_eq_refl,
}
use investment_research_engi.Base.Dict.{lookup}
use investment_research_engi.Base.Result.{ok, err}
use investment_research_engi.Runtime.Domain.{ResearchJobExecution, JobStatus, given}
use investment_research_engi.Runtime.Errors.{Handler}
use investment_research_engi.Runtime.Config.{
  ScheduledJobConfig, job_policies, validate_config, JobExecutionClass,
}
use investment_research_engi.Runtime.Config.Locking.{validate_config-locks}
use investment_research_engi.Runtime.State.{Env, ServiceState, tick, clock}
use investment_research_engi.Runtime.RunJob.{run_job, find_previous}
use investment_research_engi.Runtime.RunJob.Monad.{Request, LeaseFault}
use investment_research_engi.Runtime.RunJob.Table.{verdict, Verdict, previous_verdict, announced}
use investment_research_engi.Runtime.RunJob.Release.{run_job-Leaves, returns}
use investment_research_engi.Runtime.RunJob.Stored.{run_job-IsStored}
use investment_research_engi.Runtime.RunJob.Duplicates.{run_job-never_repeats}
use investment_research_engi.Runtime.Scheduler.{
  run, request_of, minute_of, window_identity, read_window,
}

abbrev is_ok : Verdict → Bool
is_ok (ok _) = true
is_ok (err _) = false

previous_verdict-is_ok :
    (r : Request) (previous : Option ResearchJobExecution)
    → is_ok (previous_verdict r previous) ≡ true
previous_verdict-is_ok r none = refl
previous_verdict-is_ok r (some _) = refl

verdict-is_ok :
    (env : Env) (r : Request) (s : ServiceState) (key : String) (ttl : ℕ)
    → given r.lock_key ≡ some key
    → is_empty key ≡ false
    → r.lock_ttl_seconds ≡ some ttl
    → 0 < ttl
    → env.has_lock ≡ true
    → r.database ≡ LeaseFault.no_fault
    → is_empty r.execution_id ≡ false
    → is_ok (verdict env r s) ≡ true
unfolding verdict
verdict-is_ok env r s key ttl keyed named lasting positive locking works known = ground (
  arith,
  previous_verdict-is_ok r (find_previous (given r.execution_identity) (announced env r s)),
)

given-named : (key : Option String) (k : String) → given key ≡ some k → is_empty k ≡ false
given-named none k h = cc
given-named (some t) k h = ground arith

policy_ttl :
    (c : JobExecutionClass)
    → (job_policies c).lock_required ≡ true
    → (ttl : ℕ) × ((job_policies c).lock_ttl_seconds ≡ some ttl) × (0 < ttl)
unfolding job_policies
policy_ttl JobExecutionClass.read_only h = absurd (ground arith)
policy_ttl JobExecutionClass.refresh h = absurd (ground arith)
policy_ttl JobExecutionClass.state_mutation h = (3600, refl, omega arith)
policy_ttl JobExecutionClass.execution h = (900, refl, omega arith)

read_window_lem :
    (c : ScheduledJobConfig) (s : ServiceState)
    → (job_policies c.execution_class).lock_required ≡ true
    → read_window c s ≡ tick s
read_window_lem c s locked = rw locked

same_minute : (a b : ℕ) → a / 60_000_000 ≡ b / 60_000_000 → minute_of a ≡ minute_of b
same_minute a b h = omega arith

module _ (identity_text : String → ℕ → String) where
  -- A firing of a validated job that needs a lock returns an execution, whatever the state and the
  -- handler, as long as the service has a lock whose database answers and the id is not empty.
  pub run-returns :
      (env : Env) (c : ScheduledJobConfig) (handler : Handler) (execution_id : String)
      (s : ServiceState)
      → validate_config c ≡ ok c
      → (job_policies c.execution_class).lock_required ≡ true
      → env.has_lock ≡ true
      → is_empty execution_id ≡ false
      → returns (run identity_text env c handler execution_id LeaseFault.no_fault s).0 ≡ true
  unfolding run
  run-returns env c handler execution_id s valid locked locking known =
      let locks = validate_config-locks c valid locked in
      let (ttl, lasting, positive) = policy_ttl c.execution_class locked in
      let r = request_of identity_text c handler execution_id LeaseFault.no_fault (clock env s) in
      elim (Option-cases (given c.lock_key)) [
        | inl unlocked ↦ ground (arith, locks)
        | inr (key, keyed) ↦ ground (
          arith,
          run_job-Leaves env r (read_window c s),
          verdict-is_ok env r (read_window c s) key ttl keyed (given-named c.lock_key key keyed)
              lasting positive locking refl known,
        )
      ]

  window_identity-given :
      (c : ScheduledJobConfig) (now : ℕ)
      → (job_policies c.execution_class).lock_required ≡ true
      → is_empty (identity_text c.name (minute_of now)) ≡ false
      → given (window_identity identity_text c now) ≡ some (identity_text c.name (minute_of now))
  window_identity-given c now locked named = ground arith

  window_identity-given' :
      (c : ScheduledJobConfig) (now before : ℕ)
      → now / 60_000_000 ≡ before / 60_000_000
      → (job_policies c.execution_class).lock_required ≡ true
      → is_empty (identity_text c.name (minute_of before)) ≡ false
      → given (window_identity identity_text c now) ≡ some (identity_text c.name (minute_of before))
  window_identity-given' c now before minute locked named =
      let same = same_minute now before minute in ground arith

  -- A job that needs a lock is handled once a minute: after a firing that returned COMPLETED, a firing
  -- of the same job whose clock shows the same minute, under another id, calls no handler, while fewer
  -- than ten thousand files are stored. The text of the window is not empty.
  pub run-once_a_minute :
      (env : Env) (c : ScheduledJobConfig) (handler handler' : Handler) (id id' : String)
      (database database' : LeaseFault) (s : ServiceState) (e : ResearchJobExecution)
      → (job_policies c.execution_class).lock_required ≡ true
      → is_empty (identity_text c.name (minute_of (clock env s))) ≡ false
      → (run identity_text env c handler id database s).0 ≡ ok e
      → e.status ≡ JobStatus.completed
      → id' ≢ id
      → length (run identity_text env c handler id database s).1.executions < 10_000
      → clock env (run identity_text env c handler id database s).1 / 60_000_000
        ≡ clock env s / 60_000_000
      → let s' = (run identity_text env c handler id database s).1 in
        (run identity_text env c handler' id' database' s').1.handled ≡ s'.handled
  unfolding run lookup
  run-once_a_minute env c handler handler' id id' database database' s e locked named returned
        completed other few minute =
      let r = request_of identity_text c handler id database (clock env s) in
      let s' = (run_job env r (read_window c s)).1 in
      let r' = request_of identity_text c handler' id' database' (clock env s') in
      let window = identity_text c.name (minute_of (clock env s)) in
      let given_now = window_identity-given c (clock env s) locked named in
      let stored = rw returned at (run_job-IsStored env r (read_window c s)) in
      rw (read_window_lem c s' locked) (
        run_job-never_repeats env r' (tick s') window id e few stored.0
          (rw (stored.2, given_now, completed)
            (ground (arith, str_eq_refl "executionIdentity", str_eq_refl window)))
          (window_identity-given' c (clock env s') (clock env s) minute locked named) other)
