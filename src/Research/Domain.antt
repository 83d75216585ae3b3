-- ===== src/Research/Domain.antt =====
-- src/investment/crypto/domain/research.py: experiments and versions. A `datetime` is a UTC instant.
pub mod Transitions
use investment_research_engi.Base.{
  ℕ, String, Bool, true, false, Option, none, some, if◌then◌else◌, not, List, leb, ltb,
}
use investment_research_engi.Base.Result.{Result, ok, err, ◌>>=◌, ◌>>◌, raise_if}

pub data ExperimentStatus : Type 0 where
  draft ready running completed failed rejected candidate promoted : ExperimentStatus

pub data VersionStatus : Type 0 where
  challenger candidate active rejected retired : VersionStatus

pub data ValidationMethod : Type 0 where
  holdout walk_forward : ValidationMethod

pub record ResearchPeriod : Type 0 where
  pub start : ℕ
  pub end : ℕ

pub record StrategyVersion : Type 0 where
  pub version_id : String
  pub strategy_name : String
  pub version : ℕ
  pub parameters_json : String
  pub status : VersionStatus
  pub created_at : ℕ
  pub source_experiment_id : Option String

abbrev pub with_status : VersionStatus → StrategyVersion → StrategyVersion
with_status status v = record v { status = status }

pub record CandidateEvaluation : Type 0 where
  pub passed : Bool
  pub policy_version : String
  pub reasons : List String

pub record Experiment : Type 0 where
  pub experiment_id : String
  pub hypothesis : String
  pub base_strategy_version : Option String
  pub candidate_strategy_version : Option String
  pub parameters_json : String
  pub train_period : ResearchPeriod
  pub validation_period : ResearchPeriod
  pub validation_method : ValidationMethod
  pub status : ExperimentStatus
  pub created_at : ℕ
  pub started_at : Option ℕ
  pub completed_at : Option ℕ
  pub dataset_snapshot_id : Option String
  pub run_ids : List String
  pub evaluation : Option CandidateEvaluation
  pub approved_by : Option String

pub data DomainError : Type 0 where
  invalid_period invalid_transition : DomainError

-- `ResearchPeriod.__post_init__`
unfoldable pub validate_period : ResearchPeriod → Result DomainError ResearchPeriod
validate_period p = do raise_if (leb p.end p.start) DomainError.invalid_period; ok p

-- The table of `Experiment.transition`.
abbrev pub allowed : ExperimentStatus → ExperimentStatus → Bool
allowed ExperimentStatus.draft ExperimentStatus.ready = true
allowed ExperimentStatus.draft ExperimentStatus.rejected = true
allowed ExperimentStatus.ready ExperimentStatus.running = true
allowed ExperimentStatus.ready ExperimentStatus.rejected = true
allowed ExperimentStatus.running ExperimentStatus.completed = true
allowed ExperimentStatus.running ExperimentStatus.failed = true
allowed ExperimentStatus.completed ExperimentStatus.candidate = true
allowed ExperimentStatus.completed ExperimentStatus.rejected = true
allowed ExperimentStatus.candidate ExperimentStatus.promoted = true
allowed ExperimentStatus.candidate ExperimentStatus.rejected = true
allowed _ _ = false

abbrev started : ExperimentStatus → ℕ → Option ℕ → Option ℕ
started ExperimentStatus.running now before = some now
started _ now before = before

abbrev ended : ExperimentStatus → ℕ → Option ℕ → Option ℕ
ended ExperimentStatus.completed now before = some now
ended ExperimentStatus.failed now before = some now
ended _ now before = before

-- `Experiment.transition`
unfoldable pub transition : Experiment → ExperimentStatus → ℕ → Result DomainError Experiment
transition e target now = do
  raise_if (not (allowed e.status target)) DomainError.invalid_transition
  ok (record e {
    status = target;
    started_at = started target now e.started_at;
    completed_at = ended target now e.completed_at;
  })
