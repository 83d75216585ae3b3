-- ===== src/Runtime/RunJob/Duplicates.antt =====
-- An execution window runs once: the identity of a completed execution is never handled again.
use investment_research_engi.Base.{
  ℕ, ◌≤◌, ◌<◌, String, ◌≡◌, ◌≢◌, refl, true, false, Option, none, some, arith, subst, sym,
  str_eq_iff, length, any, is_some, take-all, [], ◌∷◌,
}
use investment_research_engi.Base.Dict.{Dict, lookup, insert, lookup-insert, length-insert}
use investment_research_engi.Base.Order.{
  sort_latest, any-sort_latest, length-sort_latest, any-lookup,
}
use investment_research_engi.Base.Result.{ok}
use investment_research_engi.Runtime.Domain.{ResearchJobExecution, JobStatus, EventType, given}
use investment_research_engi.Runtime.State.{
  Env, ServiceState, find_execution_by_identity, list_executions, first_match, matches_identity,
  save_execution, tick,
}
use investment_research_engi.Runtime.State.Frame.{publish-Frame}
use investment_research_engi.Runtime.RunJob.Monad.{Request}
use investment_research_engi.Runtime.RunJob.Table.{
  scheduled_by, announced, verdict, admitted_verdict, lease_verdict, identity_verdict,
  calls_handler,
}
use investment_research_engi.Runtime.RunJob.Release.{run_job-Leaves}
use investment_research_engi.Runtime.RunJob.{run_job, find_previous, usable_ttl}

first_match-any :
    (identity : String) (d : Dict ResearchJobExecution)
    → is_some (first_match identity d) ≡ any (λ e. matches_identity identity e.1) d
unfolding first_match
first_match-any identity [] = refl
first_match-any identity ((k, e) ∷ d) = ground (arith, first_match-any identity d)

-- With ten thousand files at most, an execution that counts is found by its identity.
find_complete :
    (identity k : String) (e : ResearchJobExecution) (files : Dict ResearchJobExecution)
    → length files ≤ 10_000
    → lookup k files ≡ some e
    → matches_identity identity e ≡ true
    → is_some (find_execution_by_identity identity files) ≡ true
unfolding find_execution_by_identity list_executions
find_complete identity k e files few found counts =
    rw
      (
        take-all 10_000 (sort_latest files) (rw (length-sort_latest files) few),
        first_match-any identity (sort_latest files),
        any-sort_latest (λ x. matches_identity identity x.1) files,
      )
      (any-lookup (matches_identity identity) k e files found counts)

module _ (env : Env) (r : Request) (s : ServiceState) (identity k : String)
    (old : ResearchJobExecution) (few : length s.executions < 10_000)
    (stored : lookup k s.executions ≡ some old) (counted : matches_identity identity old ≡ true)
    (same : given r.execution_identity ≡ some identity) (other : r.execution_id ≢ k) where
  find-announced : is_some (find_previous (given r.execution_identity) (announced env r s)) ≡ true
  find-announced =
      let e = scheduled_by env r s in
      let told = publish-Frame env EventType.job_scheduled (some e) (save_execution e (tick s)) in
      subst (λ i. is_some (find_previous i (announced env r s)) ≡ true) (sym same)
        (rw told.same_executions (
          find_complete identity k old (insert r.execution_id e s.executions)
            (omega (arith, length-insert {0} r.execution_id e s.executions))
            (ground
              (arith, lookup-insert r.execution_id k e s.executions, str_eq_iff r.execution_id k))
            counted))

  identity_verdict-skips : identity_verdict r (announced env r s) ≡ ok JobStatus.skipped_duplicate
  identity_verdict-skips = ground (arith, find-announced)

  lease_verdict-skips :
      (key : String) (ttl : Option ℕ)
      → calls_handler (lease_verdict env r key (announced env r s) ttl) ≡ false
  lease_verdict-skips key none = refl
  lease_verdict-skips key (some ttl) = ground (arith, identity_verdict-skips)

  admitted_verdict-skips :
      (key : Option String) → calls_handler (admitted_verdict env r (announced env r s) key) ≡ false
  admitted_verdict-skips none = rw identity_verdict-skips
  admitted_verdict-skips (some key) =
      lease_verdict-skips key (usable_ttl env.has_lock r.lock_ttl_seconds)

  verdict-skips : calls_handler (verdict env r s) ≡ false
  unfolding verdict
  verdict-skips = ground (arith, admitted_verdict-skips (given r.lock_key))

  -- While an execution of the same identity is stored as RUNNING or COMPLETED, among fewer than ten
  -- thousand files, a job under another id calls no handler.
  pub run_job-never_repeats : (run_job env r s).1.handled ≡ s.handled
  run_job-never_repeats = ground (arith, run_job-Leaves env r s, verdict-skips)
