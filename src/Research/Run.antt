-- ===== src/Research/Run.antt =====
-- `run` and `_execute` of src/investment/crypto/application/research_lifecycle_service.py: a READY
-- experiment is measured against its base version.
pub mod Settling
pub mod Verdict
use investment_research_engi.Base.{
  ℕ, ◌*◌, String, Bool, true, false, Option, none, some, if◌then◌else◌, not, List, [], ◌∷◌, ◌==◌,
}
use investment_research_engi.Base.Dict.{lookup, insert}
use investment_research_engi.Base.Result.{Result, ok, err}
use investment_research_engi.Research.Domain.{
  Experiment, ExperimentStatus, StrategyVersion, VersionStatus, ValidationMethod, ResearchPeriod,
  CandidateEvaluation, with_status, transition,
}
use investment_research_engi.Research.Policy.{
  Floats, PerformanceMetrics, evaluate, validation_checks,
}
use investment_research_engi.Research.Repository.{Files, ValidationRun, write}
use investment_research_engi.Research.Service.Monad.{
  Action, ServiceError, of_domain, of_files, pure, raise, raise_when, modify, ◌>>=◌, ◌>>◌,
}
use investment_research_engi.Research.Service.{
  get_experiment, get_strategy, save_experiment, save_strategy, required,
}

-- What a run is given: the floats, the reading of the JSON parameters, the market data, the hashes and
-- the backtest engine. `none` stands for an exception.
pub record Lab : Type 1 where
  pub floats : Floats
  pub Bundle : Type 0
  -- `_payload(experiment)["pairs"]`, and `_int_parameter(_payload(experiment), "purge_days", 1)`
  pub pairs : String → Option (List String)
  pub purge_days : String → Option ℕ
  -- `provider.fetch`, from 420 days before the first time
  pub fetch : List String → ℕ → ℕ → Option Bundle
  -- `_snapshot`: its id and its checksum
  pub snapshot : Bundle → ResearchPeriod → ResearchPeriod → String × String
  -- `_engine(parameters).run`
  pub measure : StrategyVersion → Bundle → ResearchPeriod → Option (PerformanceMetrics floats)
  -- `deterministic_id`
  pub backtest_id : String → String → String
  pub validation_id : String → String
  pub policy_version : String

-- The readings of the clock that a run stores.
pub record Times : Type 0 where
  pub running_at : ℕ
  pub completed_at : ℕ
  pub failed_at : ℕ

abbrev pub or_raise : {A : Type 0} → Option A → ServiceError → Action A
or_raise none e = raise e
or_raise (some a) e = pure a

abbrev save_snapshot : String × String → Action (Unit {0})
save_snapshot (id, checksum) =
    modify (λ files. record files { snapshots = insert id checksum files.snapshots })

abbrev create_backtest_run : String → String → Action (Unit {0})
create_backtest_run id version = do
  runs ← of_files (λ files. write true id version files.backtest_runs)
  modify (λ files. record files { backtest_runs = runs })

abbrev create_validation_run : ValidationRun → Action (Unit {0})
create_validation_run v = do
  runs ← of_files (λ files. write true v.run_id v files.validation_runs)
  modify (λ files. record files { validation_runs = runs })

-- `_validation_checks`, with the check of `WalkForwardValidation.__post_init__`.
abbrev checks_of : ValidationMethod → Option ℕ → Experiment → Action (List String)
checks_of ValidationMethod.holdout purge_days e =
    pure (validation_checks ValidationMethod.holdout 0 e.train_period e.validation_period)
checks_of ValidationMethod.walk_forward none e = raise ServiceError.invalid_parameters
checks_of ValidationMethod.walk_forward (some days) e = do
  raise_when (days == 0) ServiceError.invalid_parameters
  pure (validation_checks ValidationMethod.walk_forward days e.train_period e.validation_period)

abbrev no_checks : List String → Bool
no_checks [] = true
no_checks (_ ∷ _) = false

abbrev pub final_status : Bool → ExperimentStatus
final_status true = ExperimentStatus.candidate
final_status false = ExperimentStatus.rejected

abbrev pub version_status : Bool → VersionStatus
version_status true = VersionStatus.candidate
version_status false = VersionStatus.rejected

-- What a run has found out before it is concluded.
pub record Findings : Type 0 where
  pub champion : StrategyVersion
  pub challenger : StrategyVersion
  pub snapshot_id : String
  pub evaluation : CandidateEvaluation

module _ (lab : Lab) where
  open lab use {
    Bundle, floats, pairs, purge_days, fetch, snapshot, measure, backtest_id, validation_id,
    policy_version,
  }

  -- `_backtest`
  unfoldable pub backtest :
      Experiment → StrategyVersion → Bundle → Action (PerformanceMetrics floats)
  backtest e version bundle = do
    metrics ← or_raise (measure version bundle e.validation_period) ServiceError.backtest_failed
    create_backtest_run (backtest_id e.experiment_id version.version_id) version.version_id
    pure metrics

  abbrev validation_of : Experiment → List String → ValidationRun
  validation_of e checks = record {
    run_id = validation_id e.experiment_id;
    experiment_id = e.experiment_id;
    method = e.validation_method;
    successful = no_checks checks;
    checks = checks;
  }

  -- `_execute`, up to the evaluation
  unfoldable pub examine : Experiment → Action Findings
  examine e = do
    base ← required e.base_strategy_version
    candidate ← required e.candidate_strategy_version
    champion ← get_strategy base
    challenger ← get_strategy candidate
    universe ← or_raise (pairs e.parameters_json) ServiceError.invalid_parameters
    bundle ←
        or_raise (fetch universe e.train_period.start e.validation_period.end)
          ServiceError.data_unavailable
    let taken = snapshot bundle e.train_period e.validation_period
    save_snapshot taken
    champion_metrics ← backtest e champion bundle
    challenger_metrics ← backtest e challenger bundle
    checks ← checks_of e.validation_method (purge_days e.parameters_json) e
    create_validation_run (validation_of e checks)
    pure (record {
      champion = champion;
      challenger = challenger;
      snapshot_id = taken.0;
      evaluation =
          evaluate floats policy_version champion_metrics challenger_metrics (no_checks checks);
    })

  -- The end of `_execute`: the verdict on the challenger is stored.
  unfoldable pub conclude : Experiment → ℕ → Findings → Action Experiment
  conclude e now found = do
    moved ← of_domain (transition e ExperimentStatus.completed now)
    let completed = record moved {
      dataset_snapshot_id = some found.snapshot_id;
      run_ids =
          backtest_id e.experiment_id found.champion.version_id
          ∷ backtest_id e.experiment_id found.challenger.version_id
          ∷ validation_id e.experiment_id
          ∷ [];
      evaluation = some found.evaluation;
    }
    final ← of_domain (transition completed (final_status found.evaluation.passed) now)
    save_strategy (with_status (version_status found.evaluation.passed) found.challenger)
    save_experiment final
    pure final

  -- `_execute`
  unfoldable pub execute : Experiment → ℕ → Action Experiment
  execute e now = do found ← examine e; conclude e now found

  -- `except Exception`
  abbrev pub rescued :
      Experiment
      → ℕ
      → Result ServiceError Experiment × Files
      → Result ServiceError Experiment × Files
  rescued e now (ok final, files) = (ok final, files)
  rescued e now (err x, files) =
      (do
        failed ← of_domain (transition e ExperimentStatus.failed now)
        save_experiment failed
        raise x)
        files

  -- `run`
  unfoldable pub run : String → Times → Action Experiment
  run id times = do
    e ← get_experiment id
    running ← of_domain (transition e ExperimentStatus.running times.running_at)
    save_experiment running
    λ files. rescued running times.failed_at (execute running times.completed_at files)
