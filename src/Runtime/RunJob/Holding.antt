-- ===== src/Runtime/RunJob/Holding.antt =====
-- The lease of a job ends with the call.
use investment_research_engi.Base.{
  ℕ, ◌+◌, ◌*◌, String, ◌≡◌, ◌≢◌, refl, Bool, true, false, Option, none, some, arith, Bool-cases,
  inl, inr, ◌⊎◌, ◌∷◌, str_eq_refl,
}
use investment_research_engi.Base.Dict.{Dict, lookup, insert, lookup-insert, lookup-erase}
use investment_research_engi.Base.Result.{Result, ok, err}
use investment_research_engi.Runtime.Domain.{ResearchJobExecution, JobStatus, EventType, given}
use investment_research_engi.Runtime.Lease.{JobLease, is_owned, acquire, release}
use investment_research_engi.Runtime.State.{Env, ServiceState, save_execution, tick, clock}
use investment_research_engi.Runtime.State.Frame.{publish-Frame}
use investment_research_engi.Runtime.RunJob.Monad.{
  Request, RunError, acquire_raises, release_raises,
}
use investment_research_engi.Runtime.RunJob.Phases.{clean_up-Cleans, perform-Performs, skip-Returns}
use investment_research_engi.Runtime.RunJob.Table.{scheduled_by, announced}
use investment_research_engi.Runtime.RunJob.{
  run_job, admit, after_admission, admitted_job, take_lease, with_lease, check_identity,
  after_previous, clean_up, scope_of, discard, find_previous, skip_status, usable_ttl, skip,
}

-- Whether the row of a key belongs to the owner.
abbrev pub holds : String → String → Dict JobLease → Bool
holds key owner leases = is_owned (lookup key leases) owner

-- A lease that is got and given back.
acquire-release :
    (key owner : String) (ttl now : ℕ) (leases : Dict JobLease) (k : String)
    → (acquire key owner ttl now leases).0 ≡ ok true
    → holds k owner (release key owner (acquire key owner ttl now leases).1).1 ≡ true
    → holds k owner leases ≡ true
unfolding acquire release
acquire-release key owner ttl now leases k got held =
    let row : JobLease = record { owner_id = owner; acquired_at = now; expires_at = now + ttl } in
    ground (
      arith,
      str_eq_refl key,
      str_eq_refl owner,
      lookup-insert key key row leases,
      lookup-insert key k row leases,
      lookup-erase key k (insert key row leases),
    )

-- `acquire` writes only where it returns true.
acquire-unchanged :
    (key owner : String) (ttl now : ℕ) (leases : Dict JobLease)
    → ((acquire key owner ttl now leases).0 ≡ ok true)
      ⊎ ((acquire key owner ttl now leases).1 ≡ leases)
unfolding acquire
acquire-unchanged key owner ttl now leases = ground arith

acquire-cases :
    (key owner : String) (ttl now : ℕ) (leases : Dict JobLease)
    → ((acquire key owner ttl now leases).0 ≡ ok true)
      ⊎ (((acquire key owner ttl now leases).0 ≢ ok true)
          × ((acquire key owner ttl now leases).1 ≡ leases))
unfolding acquire
acquire-cases key owner ttl now leases = ground arith

module _ (env : Env) (r : Request) (e : ResearchJobExecution)
    (waits : e.status ≡ JobStatus.scheduled) where
  after_previous-leases :
      (leased : Bool) (previous : Option ResearchJobExecution) (s : ServiceState)
      → (after_previous env r e leased previous s).1.leases ≡ (clean_up leased r s).1.leases
  unfolding after_previous
  after_previous-leases leased none s = (perform-Performs env r e leased s waits).leases
  after_previous-leases leased (some _) s =
      let cleaned = clean_up-Cleans leased r s in
      let skipped =
        (skip-Returns env e JobStatus.skipped_duplicate (clean_up leased r s).1 waits
          refl).saves.same_leases in
      ground arith

  check_identity-leases :
      (leased : Bool) (s : ServiceState)
      → (check_identity env r e leased s).1.leases ≡ (clean_up leased r s).1.leases
  unfolding check_identity
  check_identity-leases leased s =
      after_previous-leases leased (find_previous (given r.execution_identity) s) s

  skip-leases :
      (s : ServiceState)
      → (skip env e JobStatus.skipped_locked (discard (scope_of r) s)).1.leases ≡ s.leases
  skip-leases s =
      (skip-Returns env e JobStatus.skipped_locked (discard (scope_of r) s) waits
        refl).saves.same_leases

  after_previous-raises :
      (previous : Option ResearchJobExecution) (s : ServiceState) {key : String}
      → given r.lock_key ≡ some key
      → release_raises r.database ≡ true
      → (after_previous env r e true previous s).0 ≡ err RunError.database_locked
  unfolding after_previous
  after_previous-raises none s keyed fails =
      ground (arith, (perform-Performs env r e true s waits).value)
  after_previous-raises (some _) s keyed fails = ground (arith, clean_up-Cleans true r s)

  check_identity-raises :
      (s : ServiceState) {key : String}
      → given r.lock_key ≡ some key
      → release_raises r.database ≡ true
      → (check_identity env r e true s).0 ≡ err RunError.database_locked
  unfolding check_identity
  check_identity-raises s keyed fails =
      after_previous-raises (find_previous (given r.execution_identity) s) s keyed fails

  take_lease-holds :
      (key : String) (ttl : Option ℕ) (s : ServiceState) (k : String)
      → given r.lock_key ≡ some key
      → release_raises r.database ≡ false
      → holds k r.execution_id (take_lease env r key e ttl s).1.leases ≡ true
      → holds k r.execution_id s.leases ≡ true
  unfolding take_lease with_lease clean_up
  take_lease-holds key none s k keyed gives h = ground arith
  take_lease-holds key (some ttl) s k keyed gives h =
      let got = acquire key r.execution_id (ttl * 1_000_000) (clock env s) s.leases in
      let s₁ = record (tick s) { leases = got.1 } in
      elim (Bool-cases (acquire_raises r.database)) [
        | inl fails ↦ ground arith
        | inr works ↦ ground (
          arith,
          skip-leases s₁,
          check_identity-leases true s₁,
          acquire-unchanged key r.execution_id (ttl * 1_000_000) (clock env s) s.leases,
          acquire-release key r.execution_id (ttl * 1_000_000) (clock env s) s.leases k,
        )
      ]

  -- A lease is kept only where giving it back raises.
  abbrev Kept : String → ServiceState → Result RunError ResearchJobExecution × ServiceState → Type 0
  Kept k s out =
      (holds k r.execution_id s.leases ≡ true)
      ⊎ ((release_raises r.database ≡ true) × (out.0 ≡ err RunError.database_locked))

  take_lease-fails :
      (key : String) (ttl : Option ℕ) (s : ServiceState) (k : String)
      → given r.lock_key ≡ some key
      → release_raises r.database ≡ true
      → holds k r.execution_id (take_lease env r key e ttl s).1.leases ≡ true
      → Kept k s (take_lease env r key e ttl s)
  unfolding take_lease with_lease
  take_lease-fails key none s k keyed fails h = inl (ground arith)
  take_lease-fails key (some ttl) s k keyed fails h =
      let got = acquire key r.execution_id (ttl * 1_000_000) (clock env s) s.leases in
      let s₁ = record (tick s) { leases = got.1 } in
      elim (acquire-cases key r.execution_id (ttl * 1_000_000) (clock env s) s.leases) [
        | inl won ↦ inr (fails, ground (arith, check_identity-raises s₁ keyed fails))
        | inr (lost, same) ↦ inl (ground (arith, skip-leases s₁))
      ]

  take_lease-Kept :
      (key : String) (ttl : Option ℕ) (s : ServiceState) (k : String)
      → given r.lock_key ≡ some key
      → holds k r.execution_id (take_lease env r key e ttl s).1.leases ≡ true
      → Kept k s (take_lease env r key e ttl s)
  take_lease-Kept key ttl s k keyed h = elim (Bool-cases (release_raises r.database)) [
    | inl fails ↦ take_lease-fails key ttl s k keyed fails h
    | inr gives ↦ inl (take_lease-holds key ttl s k keyed gives h)
  ]

  admitted_job-Kept :
      (found : Option String) (s : ServiceState) (k : String)
      → given r.lock_key ≡ found
      → holds k r.execution_id (admitted_job env r e found s).1.leases ≡ true
      → Kept k s (admitted_job env r e found s)
  unfolding admitted_job clean_up
  admitted_job-Kept none s k unlocked h = inl (ground (arith, check_identity-leases false s))
  admitted_job-Kept (some key) s k keyed h =
      take_lease-Kept key (usable_ttl env.has_lock r.lock_ttl_seconds) s k keyed h

-- However `run_job` ends, by a return or a raise, its execution holds no lease that it did not hold
-- before the call, but where SQLite raises as a lease is given back; then `run_job` raises that.
pub run_job-holds_nothing :
    (env : Env) (r : Request) (s : ServiceState) (k : String)
    → holds k r.execution_id (run_job env r s).1.leases ≡ true
    → (holds k r.execution_id s.leases ≡ true)
      ⊎ ((release_raises r.database ≡ true) × ((run_job env r s).0 ≡ err RunError.database_locked))
unfolding run_job admit after_admission
run_job-holds_nothing env r s k h =
    let e = scheduled_by env r s in
    let s₁ = announced env r s in
    let s₂ = record s₁ { active_jobs = scope_of r ∷ s₁.active_jobs } in
    let told = publish-Frame env EventType.job_scheduled (some e) (save_execution e (tick s)) in
    let refused = skip-Returns env e (skip_status (given r.lock_key)) s₁ refl in
    ground (arith, told, refused, admitted_job-Kept env r e refl (given r.lock_key) s₂ k refl)
