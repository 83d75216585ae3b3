-- ===== src/Runtime/RunJob/Table/Tail.antt =====
-- The part of `run_job` after admission, against the table.
use investment_research_engi.Base.{
  ℕ, ◌*◌, String, ◌≡◌, Bool, true, false, Option, none, some, is_some, arith, if◌then◌else◌,
  Bool-cases, inl, inr,
}
use investment_research_engi.Base.Result.{Result, ok, err}
use investment_research_engi.Runtime.Domain.{ResearchJobExecution, JobStatus, given}
use investment_research_engi.Runtime.Errors.{Outcome, observe}
use investment_research_engi.Runtime.State.{Env, ServiceState, without, clock, tick}
use investment_research_engi.Runtime.Lease.{acquire}
use investment_research_engi.Runtime.RunJob.Monad.{Request, RunError, acquire_raises}
use investment_research_engi.Runtime.RunJob.Phases.{
  clean_up-Cleans, status_of, Performs, perform-Performs, skip-Returns,
}
use investment_research_engi.Runtime.RunJob.{
  after_previous, check_identity, with_lease, take_lease, admitted_job, clean_up, scope_of,
  find_previous, skip, discard,
}
use investment_research_engi.Runtime.RunJob.Table.{
  gives_back, ending, Verdict, previous_verdict, identity_verdict, lease_verdict, admitted_verdict,
  statuses, after_handler,
}

abbrev pub keeps_scope : Verdict → Bool
keeps_scope (err RunError.database_locked) = true
keeps_scope (err (RunError.of_lease _)) = true
keeps_scope _ = false

-- What the tail leaves under a verdict.
pub record Tail (v : Verdict) (r : Request) (s : ServiceState)
    (out : Result RunError ResearchJobExecution × ServiceState) : Type 0 where
  pub status : statuses out.0 ≡ ending r v
  pub same_accepting : out.1.accepting ≡ s.accepting
  pub handled : out.1.handled ≡ after_handler v r.execution_id s.handled
  pub active :
      out.1.active_jobs
      ≡ (if keeps_scope (ending r v) then s.active_jobs else without (scope_of r) s.active_jobs)

-- A job that is handled gives its lease back.
ending_lem :
    (r : Request) (leased : Bool)
    → leased ≡ is_some (given r.lock_key)
    → (o : Outcome) → gives_back r (ok (status_of o)) ≡ leased
ending_lem r leased keyed Outcome.returned = ground arith
ending_lem r leased keyed Outcome.timed_out = ground arith
ending_lem r leased keyed (Outcome.raised x) = ground arith

perform-Tail :
    (r : Request) (e : ResearchJobExecution) (leased : Bool) (s : ServiceState)
    {out : Result RunError ResearchJobExecution × ServiceState}
    → e.execution_id ≡ r.execution_id
    → leased ≡ is_some (given r.lock_key)
    → Performs r e leased s out
    → Tail (ok (status_of (observe r.handler r.timeout_seconds r.lock_key))) r s out
perform-Tail r e leased s same keyed p =
    ground (arith, ending_lem r leased keyed (observe r.handler r.timeout_seconds r.lock_key))

module _ (env : Env) (r : Request) (e : ResearchJobExecution)
    (same : e.execution_id ≡ r.execution_id) (waits : e.status ≡ JobStatus.scheduled) where
  after_previous-Tail :
      (leased : Bool)
      → leased ≡ is_some (given r.lock_key)
      → (previous : Option ResearchJobExecution) (s : ServiceState)
      → Tail (previous_verdict r previous) r s (after_previous env r e leased previous s)
  unfolding after_previous clean_up
  after_previous-Tail leased keyed none s =
      perform-Tail r e leased s same keyed (perform-Performs env r e leased s waits)
  after_previous-Tail leased keyed (some _) s = ground (
    arith,
    clean_up-Cleans leased r s,
    skip-Returns env e JobStatus.skipped_duplicate (clean_up leased r s).1 waits,
  )

  check_identity-Tail :
      (leased : Bool)
      → leased ≡ is_some (given r.lock_key)
      → (s : ServiceState) → Tail (identity_verdict r s) r s (check_identity env r e leased s)
  unfolding check_identity
  check_identity-Tail leased keyed s =
      after_previous-Tail leased keyed (find_previous (given r.execution_identity) s) s

  skip-Tail :
      (s : ServiceState)
      → Tail
          (ok JobStatus.skipped_locked)
          r
          s
          (skip env e JobStatus.skipped_locked (discard (scope_of r) s))
  skip-Tail s =
      ground (arith, skip-Returns env e JobStatus.skipped_locked (discard (scope_of r) s) waits)

  take_lease-Tail :
      (key : String)
      → given r.lock_key ≡ some key
      → (ttl : Option ℕ) (s : ServiceState)
      → Tail (lease_verdict env r key s ttl) r s (take_lease env r key e ttl s)
  unfolding take_lease with_lease acquire
  take_lease-Tail key keyed none s = ground arith
  take_lease-Tail key keyed (some ttl) s = elim (Bool-cases (acquire_raises r.database)) [
    | inl fails ↦ rw fails (ground arith)
    | inr works ↦ rw works (
        ground (
          arith,
          skip-Tail (tick s),
          check_identity-Tail true (ground arith) (record (tick s) {
            leases = (acquire key r.execution_id (ttl * 1_000_000) (clock env s) s.leases).1;
          }),
        ))
  ]

  pub admitted_job-Tail :
      (key : Option String)
      → given r.lock_key ≡ key
      → (s : ServiceState) → Tail (admitted_verdict env r s key) r s (admitted_job env r e key s)
  unfolding admitted_job
  admitted_job-Tail none keyed s = check_identity-Tail false (ground arith) s
  admitted_job-Tail (some key) keyed s = take_lease-Tail key keyed _ s
