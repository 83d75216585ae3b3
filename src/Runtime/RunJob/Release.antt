-- ===== src/Runtime/RunJob/Release.antt =====
-- The decision of `run_job`, and what it leaves active.
use investment_research_engi.Base.{
  String, ◌≡◌, refl, Bool, true, false, some, List, [], ◌∷◌, arith, ◌||◌, not, if◌then◌else◌,
  Bool-cases, inl, inr, str_eq_refl, ◌⊎◌,
}
use investment_research_engi.Base.Result.{Result, ok, err}
use investment_research_engi.Runtime.Domain.{ResearchJobExecution, EventType, given}
use investment_research_engi.Runtime.State.{Env, ServiceState, without, save_execution, tick}
use investment_research_engi.Runtime.State.Frame.{publish-Frame}
use investment_research_engi.Runtime.RunJob.Monad.{Request, RunError}
use investment_research_engi.Runtime.RunJob.Phases.{skip-Returns}
use investment_research_engi.Runtime.RunJob.{
  scope_of, is_active, run_job, admit, after_admission, skip_status,
}
use investment_research_engi.Runtime.RunJob.Table.{
  ending, Verdict, scheduled_by, announced, verdict, statuses, after_handler,
}
use investment_research_engi.Runtime.RunJob.Table.Tail.{keeps_scope, admitted_job-Tail}

-- Scopes that are not active are not discarded.
without-fresh :
    (scope : String) (xs : List String) → is_active scope xs ≡ false → without scope xs ≡ xs
without-fresh scope [] h = refl
without-fresh scope (x ∷ xs) h = ground (arith, without-fresh scope xs)

without-admitted :
    (scope : String) (xs : List String)
    → is_active scope xs ≡ false
    → without scope (scope ∷ xs) ≡ xs
without-admitted scope xs h = rw (str_eq_refl scope) (without-fresh scope xs h)

abbrev is_refused : Request → ServiceState → Bool
is_refused r s = not s.accepting || is_active (scope_of r) s.active_jobs

-- What the whole call leaves.
pub record Leaves (v : Verdict) (r : Request) (s : ServiceState)
    (out : Result RunError ResearchJobExecution × ServiceState) : Type 0 where
  pub status : statuses out.0 ≡ ending r v
  pub same_accepting : out.1.accepting ≡ s.accepting
  pub handled : out.1.handled ≡ after_handler v r.execution_id s.handled
  pub active :
      out.1.active_jobs
      ≡ (if keeps_scope (ending r v) then scope_of r ∷ s.active_jobs else s.active_jobs)

pub run_job-Leaves :
    (env : Env) (r : Request) (s : ServiceState) → Leaves (verdict env r s) r s (run_job env r s)
unfolding run_job verdict admit after_admission
run_job-Leaves env r s =
    let e = scheduled_by env r s in
    let s₁ = announced env r s in
    let told = publish-Frame env EventType.job_scheduled (some e) (save_execution e (tick s)) in
    elim (Bool-cases (is_refused r s)) [
      | inl busy ↦ ground (arith, told, skip-Returns env e (skip_status (given r.lock_key)) s₁ refl)
      | inr free ↦ ground (
        arith,
        told,
        without-admitted (scope_of r) s.active_jobs,
        admitted_job-Tail env r e refl refl (given r.lock_key) refl
            (record s₁ { active_jobs = scope_of r ∷ s₁.active_jobs }),
      )
    ]

-- The status of the returned execution, or the error that `run_job` raises, is that of `verdict`, but
-- where SQLite raises as the lease is given back, `run_job` raises that. The handler is called, once,
-- exactly where the verdict is COMPLETED or FAILED.
pub run_job-verdict :
    (env : Env) (r : Request) (s : ServiceState)
    → let (result, s') = run_job env r s in
      (statuses result ≡ ending r (verdict env r s))
      × (s'.handled ≡ after_handler (verdict env r s) r.execution_id s.handled)
run_job-verdict env r s = let l = run_job-Leaves env r s in (l.status, l.handled)

abbrev pub returns : Result RunError ResearchJobExecution → Bool
returns (ok _) = true
returns (err _) = false

-- A call that returns, whatever its status, leaves the set of active scopes as it found it; so does
-- one that raises because it has no lock or no lease length.
pub run_job-frees_scope :
    (env : Env) (r : Request) (s : ServiceState)
    → (returns (run_job env r s).0 ≡ true)
      ⊎ ((run_job env r s).0 ≡ err RunError.lock_not_configured)
    → (run_job env r s).1.active_jobs ≡ s.active_jobs
run_job-frees_scope env r s h = ground (arith, run_job-Leaves env r s)

-- Where the lease database raises, as the lease is taken or as it is given back, the scope of the job stays active: the next job of that scope is
-- skipped, its handler is not called, and the scope is still active after it.
pub run_job-leaks_scope :
    (env : Env) (r : Request) (s : ServiceState)
    → ending r (verdict env r s) ≡ err RunError.database_locked
    → (r' : Request) → scope_of r' ≡ scope_of r
    → let s' = (run_job env r s).1 in
      (statuses (run_job env r' s').0 ≡ ok (skip_status (given r'.lock_key)))
      × ((run_job env r' s').1.handled ≡ s'.handled)
      × (is_active (scope_of r) (run_job env r' s').1.active_jobs ≡ true)
unfolding verdict
run_job-leaks_scope env r s h r' same = ground (
  arith,
  str_eq_refl (scope_of r),
  run_job-Leaves env r s,
  run_job-Leaves env r' (run_job env r s).1,
)
