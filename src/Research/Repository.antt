-- ===== src/Research/Repository.antt =====
-- `JsonResearchLifecycleRepository` of src/investment/crypto/infrastructure/research_repository.py: one
-- file for each record. A write succeeds; what JSON keeps of a record is the record.
use investment_research_engi.Base.{
  String, Bool, true, false, Option, none, some, if◌then◌else◌, ◌&&◌, List, [], ◌∷◌, str_eq,
  is_some,
}
use investment_research_engi.Base.Dict.{Dict, lookup, insert}
use investment_research_engi.Base.Result.{Result, ok, err, ◌>>◌, raise_if}
use investment_research_engi.Research.Domain.{
  Experiment, StrategyVersion, VersionStatus, ValidationMethod,
}

-- The fields of a `ValidationRun` that the service sets; a `BacktestRun` is its id and its version.
pub record ValidationRun : Type 0 where
  pub run_id : String
  pub experiment_id : String
  pub method : ValidationMethod
  pub successful : Bool
  pub checks : List String

pub record Files : Type 0 where
  pub experiments : Dict Experiment
  pub strategies : Dict StrategyVersion
  pub snapshots : Dict String
  pub backtest_runs : Dict String
  pub validation_runs : Dict ValidationRun

pub data FileError : Type 0 where
  already_exists not_found no_single_active : FileError

-- `_write`
unfoldable pub write {ℓ} : {V : Type ℓ} → Bool → String → V → Dict V → Result FileError (Dict V)
write create key v files = do
  raise_if (create && is_some (lookup key files)) FileError.already_exists
  ok (insert key v files)

-- `_read`
abbrev pub read {ℓ} : {V : Type ℓ} → Option V → Result FileError V
read none = err FileError.not_found
read (some v) = ok v

abbrev pub is_active : VersionStatus → Bool
is_active VersionStatus.active = true
is_active _ = false

-- The active versions of a name.
abbrev pub actives : String → Dict StrategyVersion → List StrategyVersion
actives name [] = []
actives name ((_, v) ∷ files) =
    let rest = actives name files in
    if str_eq v.strategy_name name && is_active v.status then v ∷ rest else rest

abbrev pub only : List StrategyVersion → Result FileError StrategyVersion
only [] = err FileError.no_single_active
only (v ∷ []) = ok v
only (_ ∷ _ ∷ _) = err FileError.no_single_active

-- `active_strategy`
unfoldable pub active_strategy : String → Files → Result FileError StrategyVersion
active_strategy name files = only (actives name files.strategies)
