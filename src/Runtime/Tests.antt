-- ===== src/Runtime/Tests.antt =====
-- Runs of the runtime on small inputs, and its theorems at inputs that meet their hypotheses.
use investment_research_engi.Base.{
  ◌+◌, ◌*◌, ◌≡◌, refl, Bool, true, false, Option, none, some, arith, [], ◌∷◌, String, inl, ◌==◌,
  if◌then◌else◌, str_eq, str_eq_iff, ◌≢◌, ◌⊎◌,
}
use investment_research_engi.Base.Chars.{codes, strip, strip_left, count_words}
use investment_research_engi.Base.Dict.{Dict, lookup, insert, erase}
use investment_research_engi.Base.Order.{sort_latest, str_lt, place}
use investment_research_engi.Base.Result.{Result, ok, err}
use investment_research_engi.Runtime.Domain.{
  ResearchJobExecution, JobStatus, EngineStatus, start, finish, schedule,
}
use investment_research_engi.Runtime.Domain.Lifecycle.{
  Calls, none_yet, then_call, started, finished, IsConsistent, IsSameJob, Calls-invariant, fresh,
}
use investment_research_engi.Runtime.Errors.{
  Exception, Handler, classify_error, observe, timeout_error,
}
use investment_research_engi.Runtime.Lease.{JobLease, acquire, release}
use investment_research_engi.Runtime.Lease.Exclusion.{
  apply_call, acquiring, releasing, run_calls, acquire-excludes,
}
use investment_research_engi.Runtime.State.{
  Env, ServiceState, initial, publish, complete, find_execution_by_identity,
}
use investment_research_engi.Runtime.RunJob.{
  run_job, is_active, admit, skip, clean_up, begin_job, settle, conclude, perform, after_previous,
  check_identity, with_lease, take_lease, admitted_job, after_admission,
}
use investment_research_engi.Runtime.Config.{
  ScheduledJobConfig, JobExecutionClass, job_policies, validate_config,
}
use investment_research_engi.Runtime.Scheduler.{run}
use investment_research_engi.Runtime.Scheduler.Windows.{run-returns, run-once_a_minute}
use investment_research_engi.Runtime.RunJob.Table.{ending, statuses, verdict, after_handler}
use investment_research_engi.Runtime.RunJob.Release.{
  returns, run_job-verdict, run_job-frees_scope, run_job-leaks_scope,
}
use investment_research_engi.Runtime.RunJob.Holding.{holds, run_job-holds_nothing}
use investment_research_engi.Runtime.RunJob.Duplicates.{run_job-never_repeats}
use investment_research_engi.Runtime.RunJob.Monad.{Request, RunError, LeaseFault, release_raises}

-- A clock that ticks every second, and a publisher that fails at its third publication.
abbrev env : Env
env = record {
  now = λ n. 1_700_000_000_000_000 + n * 1_000_000;
  delivers = λ n. if n == 2 then false else true;
  has_lock = true;
}

abbrev engine : ServiceState
engine = initial env "engine" "host" "1"

abbrev quick : Handler
quick = record { duration_seconds = 1; raises = none }

abbrev refused_login : Exception
refused_login = record {
  type_name = codes "HTTPStatusError";
  is_value_error = false;
  is_timeout_error = false;
  message = codes "401: Authorization: Bearer x";
}

abbrev broken : Handler
broken = record { duration_seconds = 1; raises = some refused_login }

abbrev sync : String → Handler → Request
sync id handler = record {
  job_name = "sync";
  handler = handler;
  timeout_seconds = some 60;
  lock_key = some "dataset:market";
  lock_ttl_seconds = some 3600;
  execution_identity = some "sync:12:00";
  execution_id = id;
  database = LeaseFault.no_fault;
}

abbrev final_status : Result RunError ResearchJobExecution → Option JobStatus
final_status (ok e) = some e.status
final_status (err _) = none

-- Names what a run computes with.
abbrev runs : Bool
unfolding run_job admit skip clean_up begin_job settle conclude perform after_previous
    check_identity with_lease take_lease admitted_job after_admission initial publish complete start
    finish observe classify_error timeout_error acquire find_execution_by_identity lookup insert
    erase str_eq sort_latest place str_lt run_calls apply_call release
runs = true

sync_completes :
    final_status (run_job env (sync "exec-1" quick) engine).0 ≡ some JobStatus.completed
unfolding runs
sync_completes = refl

sync_fails : final_status (run_job env (sync "exec-1" broken) engine).0 ≡ some JobStatus.failed
unfolding runs
sync_fails = refl

-- The state after one completed run.
abbrev after_first : ServiceState
after_first = (run_job env (sync "exec-1" quick) engine).1

sync_duplicate :
    final_status (run_job env (sync "exec-2" quick) after_first).0
    ≡ some JobStatus.skipped_duplicate
unfolding runs
sync_duplicate = refl

run_job-verdict_example :
    let (result, s') = run_job env (sync "exec-1" broken) engine in
    (statuses result ≡ ending (sync "exec-1" broken) (verdict env (sync "exec-1" broken) engine))
    × (s'.handled
        ≡ after_handler (verdict env (sync "exec-1" broken) engine) "exec-1" engine.handled)
run_job-verdict_example = run_job-verdict env (sync "exec-1" broken) engine

run_job-frees_scope_example : (run_job env (sync "exec-1" quick) engine).1.active_jobs ≡ []
unfolding runs
run_job-frees_scope_example = run_job-frees_scope env (sync "exec-1" quick) engine (inl refl)

abbrev unlucky : Request
unlucky = record (sync "exec-1" quick) { database = LeaseFault.in_release }

run_job-leaks_scope_example :
    let s' = (run_job env unlucky engine).1 in
    (statuses (run_job env (sync "exec-2" quick) s').0 ≡ ok JobStatus.skipped_locked)
    × ((run_job env (sync "exec-2" quick) s').1.handled ≡ s'.handled)
    × (is_active "dataset:market" (run_job env (sync "exec-2" quick) s').1.active_jobs ≡ true)
unfolding runs verdict
run_job-leaks_scope_example = run_job-leaks_scope env unlucky engine refl (sync "exec-2" quick) refl

-- The lease stays, with the error.
kept_lem : holds "dataset:market" "exec-1" (run_job env unlucky engine).1.leases ≡ true
unfolding runs
kept_lem = refl

run_job-holds_nothing_example :
    (holds "dataset:market" "exec-1" engine.leases ≡ true)
    ⊎ ((release_raises unlucky.database ≡ true)
        × ((run_job env unlucky engine).0 ≡ err RunError.database_locked))
run_job-holds_nothing_example = run_job-holds_nothing env unlucky engine "dataset:market" kept_lem

exec-ne : ◌≢◌ {A = String} "exec-2" "exec-1"
unfolding str_eq
exec-ne e = let h = (str_eq_iff "exec-2" "exec-1").1 e in cc

run_job-never_repeats_example :
    (run_job env (sync "exec-2" quick) after_first).1.handled ≡ after_first.handled
unfolding runs
run_job-never_repeats_example =
    run_job-never_repeats env (sync "exec-2" quick) after_first "sync:12:00" "exec-1"
      (record (schedule "exec-1" "sync" 1_700_000_001_000_000 (some "sync:12:00")) {
        status = JobStatus.completed;
        started_at = some 1_700_000_004_000_000;
        finished_at = some 1_700_000_007_000_000;
      })
      (omega arith) refl refl refl exec-ne

abbrev no_leases : Dict JobLease
no_leases = []

acquire-excludes_example :
    let after =
      run_calls
        (acquiring "k" "b" 5 12 ∷ releasing "k" "b" ∷ [])
        (acquire "k" "a" 10 10 no_leases).1 in
    acquire "k" "c" 5 19 after ≡ (ok false, after)
unfolding runs
acquire-excludes_example =
    acquire-excludes "k" "a" 10 10 no_leases refl (acquiring "k" "b" 5 12 ∷ releasing "k" "b" ∷ [])
      (omega arith, ((λ _. refl), tt)) "c" 5 19 refl (omega arith) (omega arith)

abbrev waiting : ResearchJobExecution
waiting = fresh "exec-1" "sync" 5 (some "w")

abbrev running : ResearchJobExecution
running = record waiting { status = JobStatus.running; started_at = some 6 }

abbrev done : ResearchJobExecution
done = record running { status = JobStatus.completed; finished_at = some 7 }

done-Calls : Calls waiting done
unfolding runs
done-Calls =
    then_call (then_call none_yet (started 6 refl)) (finished JobStatus.completed none 7 refl)

Calls-invariant_example : IsConsistent done × IsSameJob waiting done
Calls-invariant_example = Calls-invariant "exec-1" "sync" 5 (some "w") done-Calls

-- An engine whose reporting is degraded and whose last event gets through.
abbrev recovering : ServiceState
recovering = record engine {
  state = record engine.state { status = EngineStatus.degraded; reporting_degraded = true };
}

abbrev market_job : ScheduledJobConfig
market_job = record {
  name = "crypto_market_sync";
  cron = "6,21 * * * *";
  enabled = true;
  timeout_seconds = some 1800;
  execution_class = JobExecutionClass.state_mutation;
  lock_key = some "dataset:market";
}

run-returns_example :
    returns (run (λ name window. name) env market_job quick "exec-1" LeaseFault.no_fault engine).0
    ≡ true
unfolding validate_config strip strip_left count_words str_eq
run-returns_example =
    run-returns (λ name window. name) env market_job quick "exec-1" engine refl refl refl refl

-- A clock that stands still for a minute.
abbrev slow : Env
slow = record env { now = λ n. 1_700_000_000_000_000 + n }

abbrev fired : ServiceState
fired = (run (λ name window. name) slow market_job quick "exec-1" LeaseFault.no_fault engine).1

run-once_a_minute_example :
    (run (λ name window. name) slow market_job quick "exec-2" LeaseFault.no_fault fired).1.handled
    ≡ fired.handled
unfolding runs run job_policies
run-once_a_minute_example =
    run-once_a_minute (λ name window. name) slow market_job quick quick "exec-1" "exec-2"
      LeaseFault.no_fault LeaseFault.no_fault engine
      (record (schedule "exec-1" "crypto_market_sync" 1_700_000_000_000_002
        (some "crypto_market_sync")) {
          status = JobStatus.completed;
          started_at = some 1_700_000_000_000_005;
          finished_at = some 1_700_000_000_000_008;
        })
      refl refl refl refl exec-ne (omega arith) refl
