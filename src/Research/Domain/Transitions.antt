-- ===== src/Research/Domain/Transitions.antt =====
-- The experiment's state machine.
use investment_research_engi.Base.{ℕ, ◌<◌, ◌≡◌, is_some, true, arith}
use investment_research_engi.Base.Result.{ok}
use investment_research_engi.Research.Domain.{Experiment, ExperimentStatus, transition}

pub data Moves (e : Experiment) : Experiment → Type 0 where
  unmoved : Moves e e
  moved :
      {e' e'' : Experiment} (target : ExperimentStatus) (now : ℕ)
      → Moves e e'
      → transition e' target now ≡ ok e''
      → Moves e e''

-- How far a status is on the way from DRAFT; REJECTED, FAILED and PROMOTED end it.
abbrev pub stage : ExperimentStatus → ℕ
stage ExperimentStatus.draft = 0
stage ExperimentStatus.ready = 1
stage ExperimentStatus.running = 2
stage ExperimentStatus.completed = 3
stage ExperimentStatus.candidate = 4
stage ExperimentStatus.failed = 5
stage ExperimentStatus.rejected = 5
stage ExperimentStatus.promoted = 5

-- Every transition that returns goes forward, to the status that was asked for; so a finished
-- experiment has none.
pub transition-stage :
    (e : Experiment) (target : ExperimentStatus) (now : ℕ) {e' : Experiment}
    → transition e target now ≡ ok e'
    → (e'.status ≡ target) × (stage e.status < stage e'.status)
unfolding transition
transition-stage e ExperimentStatus.draft now h = ground arith
transition-stage e target now h = ground arith

-- The times that a status shows: a run has started, and a candidate has completed one.
abbrev pub IsTimedAs : ExperimentStatus → Experiment → Type 0
IsTimedAs ExperimentStatus.running e = is_some e.started_at ≡ true
IsTimedAs ExperimentStatus.completed e =
    (is_some e.started_at ≡ true) × (is_some e.completed_at ≡ true)
IsTimedAs ExperimentStatus.candidate e =
    (is_some e.started_at ≡ true) × (is_some e.completed_at ≡ true)
IsTimedAs ExperimentStatus.promoted e =
    (is_some e.started_at ≡ true) × (is_some e.completed_at ≡ true)
IsTimedAs _ e = Unit

abbrev pub IsTimed : Experiment → Type 0
IsTimed e = IsTimedAs e.status e

transition-IsTimed :
    (e : Experiment) (target : ExperimentStatus) (now : ℕ) {e' : Experiment}
    → IsTimed e
    → transition e target now ≡ ok e'
    → IsTimed e'
unfolding transition
transition-IsTimed e ExperimentStatus.draft now t h = ground arith
transition-IsTimed e target now t h = ground arith

-- Whatever transitions lead an experiment on from DRAFT: where it is RUNNING it has been started, and
-- where it is COMPLETED, CANDIDATE or PROMOTED it has been started and completed.
pub Moves-IsTimed :
    {e e' : Experiment} → e.status ≡ ExperimentStatus.draft → Moves e e' → IsTimed e'
Moves-IsTimed fresh unmoved = rw fresh tt
Moves-IsTimed fresh (moved target now before h) =
    transition-IsTimed _ target now (Moves-IsTimed fresh before) h
