-- ===== src/Research/Service.antt =====
-- `CryptoResearchLifecycleService` of src/investment/crypto/application/research_lifecycle_service.py.
-- The market data, the backtest engine and the hash of the ids are parameters of a run.
pub mod Monad
pub mod Promotion
use Monad.{
  Action, ServiceError, pure, raise, raise_when, of_domain, of_files, gets, modify, ◌>>=◌, ◌>>◌,
}
use investment_research_engi.Base.{
  ℕ, suc, max, String, Bool, true, false, Option, none, some, if◌then◌else◌, not, List, [], ◌∷◌,
  str_eq, is_empty, ◌||◌, ◌&&◌,
}
use investment_research_engi.Base.Chars.{codes, strip}
use investment_research_engi.Base.Dict.{Dict, lookup, insert}
use investment_research_engi.Base.Result.{Result, ok, err}
use investment_research_engi.Research.Domain.{
  Experiment, ExperimentStatus, StrategyVersion, VersionStatus, ValidationMethod, ResearchPeriod,
  CandidateEvaluation, with_status, transition,
}
use investment_research_engi.Research.Policy.{validation_checks}
use investment_research_engi.Research.Repository.{
  Files, FileError, ValidationRun, write, read, actives, active_strategy,
}

abbrev pub get_experiment : String → Action Experiment
get_experiment id = do of_files (λ files. read (lookup id files.experiments))

abbrev pub get_strategy : String → Action StrategyVersion
get_strategy id = do of_files (λ files. read (lookup id files.strategies))

abbrev pub save_experiment : Experiment → Action (Unit {0})
save_experiment e =
    modify (λ files. record files { experiments = insert e.experiment_id e files.experiments })

abbrev pub save_strategy : StrategyVersion → Action (Unit {0})
save_strategy v =
    modify (λ files. record files { strategies = insert v.version_id v files.strategies })

abbrev create_strategy : StrategyVersion → Action (Unit {0})
create_strategy v = do
  strategies ← of_files (λ files. write true v.version_id v files.strategies)
  modify (λ files. record files { strategies = strategies })

abbrev create_record : Experiment → Action (Unit {0})
create_record e = do
  experiments ← of_files (λ files. write true e.experiment_id e files.experiments)
  modify (λ files. record files { experiments = experiments })

abbrev has_strategies : Dict StrategyVersion → Bool
has_strategies [] = false
has_strategies (_ ∷ _) = true

-- `initialize_strategy`, for the id `f"{name}:v1"`.
unfoldable pub initialize_strategy : String → String → String → ℕ → Action StrategyVersion
initialize_strategy version_id name parameters_json now = do
  known ← gets (λ files. has_strategies files.strategies)
  raise_when known ServiceError.already_initialized
  let v : StrategyVersion = record {
    version_id = version_id;
    strategy_name = name;
    version = 1;
    parameters_json = parameters_json;
    status = VersionStatus.active;
    created_at = now;
    source_experiment_id = none;
  }
  create_strategy v
  pure v

abbrev newest : String → ℕ → Dict StrategyVersion → ℕ
newest name default [] = default
newest name default ((_, v) ∷ files) =
    let rest = newest name default files in
    if str_eq v.strategy_name name then max v.version rest else rest

-- `CreateStrategyExperimentCommand`, with the JSON of the candidate's parameters.
pub record Command : Type 0 where
  pub hypothesis : String
  pub strategy_name : String
  pub candidate_parameters : String
  pub train_period : ResearchPeriod
  pub validation_period : ResearchPeriod
  pub validation_method : ValidationMethod

-- `create_experiment`. `ids` makes the hash of the experiment's payload and the name of a version, from
-- the base version and the number.
unfoldable pub create_experiment :
    Command → (String → String × String) → (String → ℕ → String) → ℕ → Action Experiment
create_experiment c ids name_version now = do
  champion ← of_files (active_strategy c.strategy_name)
  number ← gets (λ files. suc (newest c.strategy_name champion.version files.strategies))
  let identity = ids champion.version_id
  let candidate : StrategyVersion = record {
    version_id = name_version c.strategy_name number;
    strategy_name = c.strategy_name;
    version = number;
    parameters_json = c.candidate_parameters;
    status = VersionStatus.challenger;
    created_at = now;
    source_experiment_id = some identity.0;
  }
  let e : Experiment = record {
    experiment_id = identity.0;
    hypothesis = c.hypothesis;
    base_strategy_version = some champion.version_id;
    candidate_strategy_version = some candidate.version_id;
    parameters_json = identity.1;
    train_period = c.train_period;
    validation_period = c.validation_period;
    validation_method = c.validation_method;
    status = ExperimentStatus.draft;
    created_at = now;
    started_at = none;
    completed_at = none;
    dataset_snapshot_id = none;
    run_ids = [];
    evaluation = none;
    approved_by = none;
  }
  create_strategy candidate
  create_record e
  pure e

-- `mark_ready`
unfoldable pub mark_ready : String → ℕ → Action Experiment
mark_ready id now = do
  e ← get_experiment id
  ready ← of_domain (transition e ExperimentStatus.ready now)
  save_experiment ready
  pure ready

abbrev is_nil : List ℕ → Bool
is_nil [] = true
is_nil (_ ∷ _) = false

abbrev is_candidate : ExperimentStatus → Bool
is_candidate ExperimentStatus.candidate = true
is_candidate _ = false

abbrev pub required : Option String → Action String
required none = raise ServiceError.references_missing
required (some v) = pure v

-- `promote`, with `approved_by` stripped where it is stored.
unfoldable pub promote : String → String → (String → String) → ℕ → Action Experiment
promote id approved_by stripped now = do
  raise_when (is_nil (strip (codes approved_by))) ServiceError.approver_missing
  e ← get_experiment id
  raise_when (not (is_candidate e.status)) ServiceError.not_a_candidate
  base ← required e.base_strategy_version
  candidate ← required e.candidate_strategy_version
  champion ← get_strategy base
  challenger ← get_strategy candidate
  save_strategy (with_status VersionStatus.retired champion)
  save_strategy (with_status VersionStatus.active challenger)
  moved ← of_domain (transition e ExperimentStatus.promoted now)
  let promoted = record moved { approved_by = some (stripped approved_by) }
  save_experiment promoted
  pure promoted

abbrev reject_candidate : Option String → Action (Unit {0})
reject_candidate none = pure tt
reject_candidate (some id) = do
  v ← get_strategy id
  save_strategy (with_status VersionStatus.rejected v)

-- `reject`
unfoldable pub reject : String → ℕ → Action Experiment
reject id now = do
  e ← get_experiment id
  rejected ← of_domain (transition e ExperimentStatus.rejected now)
  reject_candidate rejected.candidate_strategy_version
  save_experiment rejected
  pure rejected
