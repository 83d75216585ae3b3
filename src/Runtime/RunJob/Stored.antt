-- ===== src/Runtime/RunJob/Stored.antt =====
-- The execution that `run_job` returns is the one that its file holds.
use investment_research_engi.Base.{
  ℕ, ◌*◌, ◌<◌, String, ◌≡◌, ◌≢◌, refl, Bool, true, false, Option, none, some, arith, str_eq_refl,
  length, ◌∷◌,
}
use investment_research_engi.Base.Dict.{Dict, lookup, insert, lookup-insert}
use investment_research_engi.Base.Result.{Result, ok, err}
use investment_research_engi.Runtime.Domain.{ResearchJobExecution, JobStatus, given, is_terminal}
use investment_research_engi.Runtime.Lease.{acquire}
use investment_research_engi.Runtime.State.{Env, ServiceState, tick, clock}
use investment_research_engi.Runtime.RunJob.Monad.{Request, RunError}
use investment_research_engi.Runtime.RunJob.Phases.{
  fails_release, unless_raised, clean_up-Cleans, Performs, perform-Performs, skip-Returns, ended,
}
use investment_research_engi.Runtime.RunJob.Table.{scheduled_by, announced}
use investment_research_engi.Runtime.RunJob.Duplicates.{run_job-never_repeats}
use investment_research_engi.Runtime.RunJob.{
  run_job, admit, after_admission, admitted_job, take_lease, with_lease, check_identity,
  after_previous, clean_up, scope_of, discard, find_previous, skip_status, skip, usable_ttl,
}

-- What is stored of a returned execution, which `e` was scheduled as.
abbrev pub IsStored :
    ResearchJobExecution → Result RunError ResearchJobExecution → Dict ResearchJobExecution → Type 0
IsStored e (ok final) files =
    (lookup e.execution_id files ≡ some final)
    × (final.execution_id ≡ e.execution_id)
    × (final.metadata ≡ e.metadata)
IsStored e (err _) files = Unit

skip_status-IsTerminal : (key : Option String) → is_terminal (skip_status key) ≡ true
skip_status-IsTerminal none = refl
skip_status-IsTerminal (some _) = refl

module _ (env : Env) (r : Request) (e : ResearchJobExecution)
    (waits : e.status ≡ JobStatus.scheduled) where
  skip-IsStored :
      (status : JobStatus) (s : ServiceState)
      → is_terminal status ≡ true
      → IsStored e (skip env e status s).0 (skip env e status s).1.executions
  skip-IsStored status s last =
      let out = skip-Returns env e status s waits last in
      let final = ended env s status none e in
      rw (out.value, out.saves.saved)
        (ground (
          arith,
          str_eq_refl e.execution_id,
          lookup-insert e.execution_id e.execution_id final s.executions,
        ))

  unless_raised-IsStored :
      (raised : Bool) (final : ResearchJobExecution) (files : Dict ResearchJobExecution)
      → IsStored e (ok final) files
      → IsStored e (unless_raised raised final) files
  unless_raised-IsStored true final files h = tt
  unless_raised-IsStored false final files h = h

  perform-IsStored :
      (leased : Bool) (s : ServiceState) {out : Result RunError ResearchJobExecution × ServiceState}
      → Performs r e leased s out
      → IsStored e out.0 out.1.executions
  perform-IsStored leased s p =
      rw (p.value, p.executions)
        (unless_raised-IsStored (fails_release leased r) p.final _ (
          ground (
            arith,
            p.same_id,
            p.same_metadata,
            str_eq_refl e.execution_id,
            lookup-insert e.execution_id e.execution_id p.final
                (insert e.execution_id p.running s.executions),
          )))

  after_previous-IsStored :
      (leased : Bool) (previous : Option ResearchJobExecution) (s : ServiceState)
      → let out = after_previous env r e leased previous s in IsStored e out.0 out.1.executions
  unfolding after_previous
  after_previous-IsStored leased none s =
      perform-IsStored leased s (perform-Performs env r e leased s waits)
  after_previous-IsStored leased (some _) s =
      let cleaned = clean_up-Cleans leased r s in
      let skipped = skip-IsStored JobStatus.skipped_duplicate (clean_up leased r s).1 refl in
      ground arith

  with_lease-IsStored :
      (acquired : Bool) (s : ServiceState)
      → let out = with_lease env r e acquired s in IsStored e out.0 out.1.executions
  unfolding with_lease check_identity
  with_lease-IsStored true s =
      after_previous-IsStored true (find_previous (given r.execution_identity) s) s
  with_lease-IsStored false s = skip-IsStored JobStatus.skipped_locked (discard (scope_of r) s) refl

  take_lease-IsStored :
      (key : String) (ttl : Option ℕ) (s : ServiceState)
      → let out = take_lease env r key e ttl s in IsStored e out.0 out.1.executions
  unfolding take_lease acquire
  take_lease-IsStored key none s = tt
  take_lease-IsStored key (some ttl) s =
      let leases = (acquire key r.execution_id (ttl * 1_000_000) (clock env s) s.leases).1 in
      let s₁ = record (tick s) { leases = leases } in
      ground (arith, with_lease-IsStored true s₁, with_lease-IsStored false s₁)

  admitted_job-IsStored :
      (key : Option String) (s : ServiceState)
      → let out = admitted_job env r e key s in IsStored e out.0 out.1.executions
  unfolding admitted_job check_identity
  admitted_job-IsStored none s =
      after_previous-IsStored false (find_previous (given r.execution_identity) s) s
  admitted_job-IsStored (some key) s =
      take_lease-IsStored key (usable_ttl env.has_lock r.lock_ttl_seconds) s

  after_admission-IsStored :
      (admitted : Bool) (s : ServiceState)
      → let out = after_admission env r e admitted s in IsStored e out.0 out.1.executions
  unfolding after_admission
  after_admission-IsStored true s = admitted_job-IsStored (given r.lock_key) s
  after_admission-IsStored false s =
      skip-IsStored (skip_status (given r.lock_key)) s (skip_status-IsTerminal (given r.lock_key))

-- The returned execution is stored under the id of its call, with the metadata of its schedule.
pub run_job-IsStored :
    (env : Env) (r : Request) (s : ServiceState)
    → let (result, s') = run_job env r s in IsStored (scheduled_by env r s) result s'.executions
unfolding run_job admit
run_job-IsStored env r s =
    let e = scheduled_by env r s in
    let s₁ = announced env r s in
    let s₂ = record s₁ { active_jobs = scope_of r ∷ s₁.active_jobs } in
    ground (
      arith,
      after_admission-IsStored env r e refl true s₂,
      after_admission-IsStored env r e refl false s₁,
    )

-- An execution window is handled once: after a call that returned COMPLETED, a call with the same
-- identity and another id calls no handler, while fewer than ten thousand files are stored.
pub run_job-once :
    (env : Env) (r : Request) (s : ServiceState) (e : ResearchJobExecution) (identity : String)
    (r' : Request)
    → (run_job env r s).0 ≡ ok e
    → e.status ≡ JobStatus.completed
    → given r.execution_identity ≡ some identity
    → given r'.execution_identity ≡ some identity
    → r'.execution_id ≢ r.execution_id
    → length (run_job env r s).1.executions < 10_000
    → let s' = (run_job env r s).1 in (run_job env r' s').1.handled ≡ s'.handled
unfolding lookup
run_job-once env r s e identity r' returned completed same same' other few =
    let stored = rw returned at (run_job-IsStored env r s) in
    run_job-never_repeats env r' (run_job env r s).1 identity r.execution_id e few stored.0
      (rw (stored.2, same, completed)
        (ground (arith, str_eq_refl "executionIdentity", str_eq_refl identity)))
      same' other
