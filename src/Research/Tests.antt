-- ===== src/Research/Tests.antt =====
-- Runs of the research lifecycle on small inputs, and its theorems at inputs that meet their hypotheses.
use investment_research_engi.Base.{
  arith, all, ◌*◌, List, ℕ, Option, if◌then◌else◌, ◌≡◌, refl, Bool, true, none, some, [], ◌∷◌,
  String, str_eq, ℕ, ltb, leb,
}
use investment_research_engi.Base.Chars.{strip, strip_left}
use investment_research_engi.Base.Dict.{lookup, insert}
use investment_research_engi.Base.Result.{ok, err}
use investment_research_engi.Research.Domain.{
  with_status, CandidateEvaluation, Experiment, ExperimentStatus, StrategyVersion, VersionStatus,
  ValidationMethod, transition,
}
use investment_research_engi.Research.Domain.Transitions.{
  Moves, unmoved, moved, IsTimed, Moves-IsTimed,
}
use investment_research_engi.Research.Policy.{
  day, Floats, PerformanceMetrics, validation_checks, evaluate,
}
use investment_research_engi.Research.Repository.{Files, FileError, write, active_strategy}
use investment_research_engi.Research.Service.{
  initialize_strategy, create_experiment, mark_ready, promote,
}
use investment_research_engi.Research.Run.{
  Lab, Times, run, execute, examine, conclude, backtest, version_status, final_status,
}
use investment_research_engi.Research.Splits.{
  PurgedWalkForwardConfig, WalkForwardMode, split, splits_from,
}
use investment_research_engi.Research.Splits.Separation.{is_purged, split-is_purged}
use investment_research_engi.Research.Splits.Termination.{split-enough}
use investment_research_engi.Research.Run.Settling.{run-settles, is_stored_settled}
use investment_research_engi.Research.Run.Verdict.{run-verdict}
use investment_research_engi.Research.Service.Promotion.{promote-two_champions}

-- Names what a run computes with.
abbrev runs : Bool
unfolding lookup insert str_eq strip strip_left transition write active_strategy initialize_strategy
    create_experiment mark_ready promote validation_checks evaluate run execute examine conclude
    backtest
runs = true

abbrev draft : Experiment
draft = record {
  experiment_id = "e1";
  hypothesis = "slower";
  base_strategy_version = some "m:v1";
  candidate_strategy_version = some "m:v2";
  parameters_json = "{}";
  train_period = record { start = 0; end = 10 };
  validation_period = record { start = 20; end = 30 };
  validation_method = ValidationMethod.holdout;
  status = ExperimentStatus.draft;
  created_at = 1;
  started_at = none;
  completed_at = none;
  dataset_snapshot_id = none;
  run_ids = [];
  evaluation = none;
  approved_by = none;
}

abbrev ready : Experiment
ready = record draft { status = ExperimentStatus.ready }

abbrev running : Experiment
running = record draft { status = ExperimentStatus.running; started_at = some 7 }

running-Moves : Moves draft running
unfolding runs
running-Moves = moved ExperimentStatus.running 7 (moved ExperimentStatus.ready 5 unmoved refl) refl

Moves-IsTimed_example : IsTimed running
Moves-IsTimed_example = Moves-IsTimed refl running-Moves

abbrev whole_floats : Floats
whole_floats = record { Float = ℕ; zero_f = 0; lt_f = ltb; le_f = leb }

abbrev metrics : ℕ → PerformanceMetrics whole_floats
metrics n = record { sharpe_ratio = some n; maximum_drawdown = 1; fee_adjusted_return = 1 }

abbrev version : String → VersionStatus → StrategyVersion
version id status = record {
  version_id = id;
  strategy_name = "m";
  version = 1;
  parameters_json = "{}";
  status = status;
  created_at = 1;
  source_experiment_id = none;
}

abbrev candidate : Experiment
candidate = record running { status = ExperimentStatus.candidate; completed_at = some 8 }

-- Two experiments of one base: the other one, for `m:v3`, is promoted.
abbrev files : Files
files = record {
  experiments = ("e1", candidate) ∷ ("e0", draft) ∷ [];
  strategies =
      ("m:v1", version "m:v1" VersionStatus.retired)
      ∷ ("m:v2", version "m:v2" VersionStatus.challenger)
      ∷ ("m:v3", version "m:v3" VersionStatus.active)
      ∷ [];
  snapshots = [];
  backtest_runs = [];
  validation_runs = [];
}

abbrev promoted : Experiment
promoted = record candidate { status = ExperimentStatus.promoted; approved_by = some "ann" }

abbrev after : Files
after = (promote "e1" "ann" (λ a. a) 9 files).1

promote-two_champions_example : active_strategy "m" after ≡ err FileError.no_single_active
unfolding runs
promote-two_champions_example =
    promote-two_champions "e1" "ann" (λ a. a) 9 files after "m:v3" refl refl refl refl refl refl
      refl refl refl refl refl

-- From the first version to two experiments on it.
abbrev empty : Files
empty = record {
  experiments = [];
  strategies = [];
  snapshots = [];
  backtest_runs = [];
  validation_runs = [];
}

abbrev opened : Files
opened = (initialize_strategy "m:v1" "m" "{}" 1 empty).1

opens_one : active_strategy "m" opened ≡ ok (version "m:v1" VersionStatus.active)
unfolding runs
opens_one = refl

-- A laboratory whose data are a text, and where the challenger `m:v2` is the better one.
abbrev lab : Lab
lab = record {
  floats = whole_floats;
  Bundle = String;
  pairs = λ json. some ("KRW-BTC" ∷ []);
  purge_days = λ json. some 1;
  fetch = λ pairs start end. some "candles";
  snapshot = λ bundle train validation. ("snapshot", bundle);
  measure = λ v bundle period. some (metrics (if str_eq v.version_id "m:v2" then 2 else 1));
  backtest_id = λ e v. v;
  validation_id = λ e. e;
  policy_version = "candidate-policy-v1";
}

-- The same with no data.
abbrev offline : Lab
offline = record lab { fetch = λ pairs start end. none }

abbrev times : Times
times = record { running_at = 7; completed_at = 8; failed_at = 9 }

abbrev prepared : Files
prepared = record files {
  experiments = ("e1", ready) ∷ [];
  strategies =
      ("m:v1", version "m:v1" VersionStatus.active)
      ∷ ("m:v2", version "m:v2" VersionStatus.challenger)
      ∷ [];
}

run-settles_example :
    is_stored_settled (lookup "e1" (run offline "e1" times prepared).1.experiments) ≡ true
unfolding runs
run-settles_example = run-settles offline "e1" times prepared ready refl refl refl

abbrev measured : Files
measured = (run lab "e1" times prepared).1

abbrev passing : CandidateEvaluation
passing = record { passed = true; policy_version = "candidate-policy-v1"; reasons = [] }

abbrev final : Experiment
final = record ready {
  status = ExperimentStatus.candidate;
  started_at = some 7;
  completed_at = some 8;
  dataset_snapshot_id = some "snapshot";
  run_ids = "m:v1" ∷ "m:v2" ∷ "e1" ∷ [];
  evaluation = some passing;
}

run-verdict_example :
    (evaluation : CandidateEvaluation) × (some passing ≡ some evaluation)
    × (ExperimentStatus.candidate ≡ final_status evaluation.passed)
    × ◌≡◌ {A = Option ℕ} (some 8) (some 8)
    × (lookup "e1" measured.experiments ≡ some final)
    × (lookup "m:v2" measured.strategies
        ≡ some (
            with_status
              (version_status evaluation.passed)
              (version "m:v2" VersionStatus.challenger)))
unfolding runs
run-verdict_example =
    run-verdict lab "e1" times prepared measured {final = final} "m:v2" refl refl refl refl

-- Two days of training, one of validation and one of test, with a day between them.
abbrev durations : PurgedWalkForwardConfig
durations = record {
  train_days = 2;
  validation_days = 1;
  test_days = 1;
  step_days = 1;
  purge_days = 1;
  mode = WalkForwardMode.rolling;
}

abbrev week : List ℕ
week = 0 ∷ day ∷ 2 * day ∷ 3 * day ∷ 4 * day ∷ 5 * day ∷ 6 * day ∷ []

one_split :
    split durations week
    ≡ record { fold = 0; train = 0 ∷ day ∷ []; validation = 3 * day ∷ []; test = 5 * day ∷ [] }
      ∷ record {
        fold = 1;
        train = day ∷ 2 * day ∷ [];
        validation = 4 * day ∷ [];
        test = 6 * day ∷ [];
      }
      ∷ []
unfolding runs split
one_split = refl

split-is_purged_example : all (is_purged day) (split durations week) ≡ true
unfolding runs split
split-is_purged_example = split-is_purged durations week

split-enough_example : splits_from durations 0 day (0 ∷ day ∷ []) 13 0 ≡ []
unfolding runs split
split-enough_example = split-enough durations 0 (day ∷ []) 10 (omega arith)
