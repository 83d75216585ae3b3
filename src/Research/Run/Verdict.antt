-- ===== src/Research/Run/Verdict.antt =====
-- What a `run` that returns has decided.
use investment_research_engi.Base.{ℕ, String, ◌≡◌, some, if◌then◌else◌, str_eq, str_eq_refl, arith}
use investment_research_engi.Base.Dict.{lookup, insert, lookup-insert}
use investment_research_engi.Base.Result.{ok}
use investment_research_engi.Base.Step.{bound_returns}
use investment_research_engi.Research.Domain.{
  CandidateEvaluation, Experiment, ExperimentStatus, StrategyVersion, with_status, transition,
}
use investment_research_engi.Research.Repository.{Files, write}
use investment_research_engi.Research.Run.{
  Lab, Times, Findings, examine, conclude, execute, run, backtest, final_status, version_status,
}

module _ (lab : Lab) where
  examine-finds :
      (e : Experiment) (c : String) (s t : Files) {found : Findings}
      → e.candidate_strategy_version ≡ some c
      → examine lab e s ≡ (ok found, t)
      → (lookup c s.strategies ≡ some found.challenger) × (t.strategies ≡ s.strategies)
  unfolding examine backtest write
  examine-finds e c s t named h = ground arith

  conclude-decides :
      (e : Experiment) (now : ℕ) (found : Findings) (s s' : Files) {final : Experiment} (v : String)
      → conclude lab e now found s ≡ (ok final, s')
      → (final.evaluation ≡ some found.evaluation)
        × (final.status ≡ final_status found.evaluation.passed)
        × (final.completed_at ≡ some now)
        × (lookup e.experiment_id s'.experiments ≡ some final)
        × (lookup v s'.strategies ≡ (
            if str_eq found.challenger.version_id v
            then some (with_status (version_status found.evaluation.passed) found.challenger)
            else lookup v s.strategies))
  unfolding conclude transition
  conclude-decides e now found s s' {final} v h = ground (
    arith,
    lookup-insert found.challenger.version_id v
        (with_status (version_status found.evaluation.passed) found.challenger) s.strategies,
    lookup-insert e.experiment_id e.experiment_id final s.experiments,
    str_eq_refl e.experiment_id,
  )

  started_lem :
      (id : String) (times : Times) (s s' : Files) {e final : Experiment}
      → lookup id s.experiments ≡ some e
      → run lab id times s ≡ (ok final, s')
      → let running = record e {
        status = ExperimentStatus.running;
        started_at = some times.running_at;
      } in
        execute lab running times.completed_at
          (record s { experiments = insert e.experiment_id running s.experiments })
        ≡ (ok final, s')
  unfolding run transition
  started_lem id times s s' found h = ground arith

  -- A `run` that returns has stored what it returns as the experiment's file, with an evaluation. It is
  -- CANDIDATE, and so is the candidate version's file, exactly where the evaluation passed; otherwise both
  -- are REJECTED. The experiment is completed at this run, and no other version's file changes.
  pub run-verdict :
      (id : String) (times : Times) (s s' : Files) {e final : Experiment}
      {challenger : StrategyVersion} {c : String} (v : String)
      → lookup id s.experiments ≡ some e
      → e.candidate_strategy_version ≡ some c
      → lookup c s.strategies ≡ some challenger
      → run lab id times s ≡ (ok final, s')
      → (evaluation : CandidateEvaluation) × (final.evaluation ≡ some evaluation)
        × (final.status ≡ final_status evaluation.passed)
        × (final.completed_at ≡ some times.completed_at)
        × (lookup e.experiment_id s'.experiments ≡ some final)
        × (lookup v s'.strategies ≡ (
            if str_eq challenger.version_id v
            then some (with_status (version_status evaluation.passed) challenger)
            else lookup v s.strategies))
  unfolding execute
  run-verdict id times s s' {e} {final} {challenger} {c} v found named stored h =
      let running = record e {
        status = ExperimentStatus.running;
        started_at = some times.running_at;
      } in
      let s₁ = record s { experiments = insert e.experiment_id running s.experiments } in
      let executed = started_lem id times s s' found h in
      let (facts, t, examined, ended) =
        bound_returns (examine lab running) (conclude lab running times.completed_at) s₁ s'
          executed in
      let before = examine-finds running c s₁ t named examined in
      let after = conclude-decides running times.completed_at facts t s' v ended in
      (facts.evaluation, ground arith, ground arith, ground arith, ground arith, ground arith)
