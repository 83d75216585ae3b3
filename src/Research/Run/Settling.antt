-- ===== src/Research/Run/Settling.antt =====
-- How `run` ends: whatever fails, the experiment does not stay RUNNING.
use investment_research_engi.Base.{
  ℕ, String, ◌≡◌, refl, Bool, true, false, Option, none, some, str_eq_refl, arith,
}
use investment_research_engi.Base.Dict.{lookup, insert, lookup-insert}
use investment_research_engi.Base.Step.{bound_returns}
use investment_research_engi.Base.Result.{Result, ok, err}
use investment_research_engi.Research.Domain.{Experiment, ExperimentStatus, transition}
use investment_research_engi.Research.Repository.{Files}
use investment_research_engi.Research.Service.Monad.{ServiceError}
use investment_research_engi.Research.Run.{
  rescued, Lab, Times, Findings, examine, conclude, execute, run,
}

abbrev pub is_settled : ExperimentStatus → Bool
is_settled ExperimentStatus.candidate = true
is_settled ExperimentStatus.rejected = true
is_settled ExperimentStatus.failed = true
is_settled _ = false

-- The stored experiment has ended.
abbrev pub is_stored_settled : Option Experiment → Bool
is_stored_settled none = false
is_stored_settled (some e) = is_settled e.status

module _ (lab : Lab) where
  -- A `conclude` that returns.
  conclude-settles :
      (e : Experiment) (now : ℕ) (found : Findings) (s s' : Files) {final : Experiment}
      → conclude lab e now found s ≡ (ok final, s')
      → is_stored_settled (lookup e.experiment_id s'.experiments) ≡ true
  unfolding conclude transition
  conclude-settles e now found s s' h = grind (arith, lookup-insert, str_eq_refl)

  execute-settles :
      (e : Experiment) (now : ℕ) (s s' : Files) {final : Experiment}
      → execute lab e now s ≡ (ok final, s')
      → is_stored_settled (lookup e.experiment_id s'.experiments) ≡ true
  unfolding execute
  execute-settles e now s s' h =
      let (found, t, _, ended) = bound_returns (examine lab e) (conclude lab e now) s s' h in
      conclude-settles e now found t s' ended

  rescued-settles :
      (e : Experiment) (failed_at : ℕ) (out : Result ServiceError Experiment × Files)
      → e.status ≡ ExperimentStatus.running
      → ((final : Experiment) (s' : Files)
          → out ≡ (ok final, s')
          → is_stored_settled (lookup e.experiment_id s'.experiments) ≡ true)
      → is_stored_settled (lookup e.experiment_id (rescued lab e failed_at out).1.experiments)
        ≡ true
  unfolding transition
  rescued-settles e failed_at (ok final, s') running returned = returned final s' refl
  rescued-settles e failed_at (err x, s') running returned =
      grind (arith, lookup-insert, str_eq_refl)

  -- `run` of a READY experiment, stored under its id, settles it: however it ends, and whatever the market data or the
  -- backtests raise, the stored experiment is CANDIDATE, REJECTED or FAILED.
  pub run-settles :
      (id : String) (times : Times) (s : Files) (e : Experiment)
      → lookup id s.experiments ≡ some e
      → e.experiment_id ≡ id
      → e.status ≡ ExperimentStatus.ready
      → is_stored_settled (lookup id (run lab id times s).1.experiments) ≡ true
  unfolding run transition
  run-settles id times s e found named ready =
      let running = record e {
        status = ExperimentStatus.running;
        started_at = some times.running_at;
      } in
      let t = record s { experiments = insert e.experiment_id running s.experiments } in
      let settled =
        rescued-settles running times.failed_at (execute lab running times.completed_at t) refl
          (λ final s' returned. execute-settles running times.completed_at t s' returned) in
      ground arith
