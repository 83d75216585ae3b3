-- ===== src/Runtime/Domain/Lifecycle.antt =====
-- The life of one execution, as the methods `start` and `finish` drive it.
use investment_research_engi.Base.{ℕ, ◌<◌, ◌≡◌, Option, none, is_some, true, arith, String}
use investment_research_engi.Base.Result.{ok}
use investment_research_engi.Runtime.Domain.{
  ResearchJobExecution, RuntimeErrorInfo, JobStatus, is_terminal, start, finish, schedule,
}

-- One call of `start` or `finish` that returns.
pub data Call (e e' : ResearchJobExecution) : Type 0 where
  started : (now : ℕ) → start e now ≡ ok e' → Call e e'
  finished :
      (status : JobStatus) (cause : Option RuntimeErrorInfo) (now : ℕ)
      → finish e status cause now ≡ ok e'
      → Call e e'

pub data Calls (e : ResearchJobExecution) : ResearchJobExecution → Type 0 where
  none_yet : Calls e e
  then_call : {e' e'' : ResearchJobExecution} → Calls e e' → Call e' e'' → Calls e e''

-- How far an execution is.
abbrev pub stage : JobStatus → ℕ
stage JobStatus.scheduled = 0
stage JobStatus.running = 1
stage _ = 2

-- The times that a status goes with.
abbrev pub IsConsistentAs : JobStatus → ResearchJobExecution → Type 0
IsConsistentAs JobStatus.scheduled e =
    (e.started_at ≡ none) × (e.finished_at ≡ none) × (e.error ≡ none)
IsConsistentAs JobStatus.running e =
    (is_some e.started_at ≡ true) × (e.finished_at ≡ none) × (e.error ≡ none)
IsConsistentAs _ e = is_some e.finished_at ≡ true

abbrev pub IsConsistent : ResearchJobExecution → Type 0
IsConsistent e = IsConsistentAs e.status e

-- What names the execution.
pub record IsSameJob (e e' : ResearchJobExecution) : Type 0 where
  pub same_id : e'.execution_id ≡ e.execution_id
  pub same_name : e'.job_name ≡ e.job_name
  pub same_schedule : e'.scheduled_at ≡ e.scheduled_at
  pub same_metadata : e'.metadata ≡ e.metadata

pub Call-stage : {e e' : ResearchJobExecution} → Call e e' → stage e.status < stage e'.status
unfolding start finish
Call-stage (started now h) = ground arith
Call-stage (finished status cause now h) = ground arith

Call-IsConsistent : {e e' : ResearchJobExecution} → IsConsistent e → Call e e' → IsConsistent e'
unfolding start finish
Call-IsConsistent c (started now h) = ground arith
Call-IsConsistent c (finished status cause now h) = ground arith

Call-IsSameJob : {e e' : ResearchJobExecution} → Call e e' → IsSameJob e e'
unfolding start finish
Call-IsSameJob (started now h) = ground arith
Call-IsSameJob (finished status cause now h) = ground arith

module _ (execution_id job_name : String) (now : ℕ) (identity : Option String) where
  abbrev pub fresh : ResearchJobExecution
  fresh = schedule execution_id job_name now identity

  -- Whatever calls of `start` and `finish` return, from a freshly scheduled execution on: the times
  -- fit the status, and the id, the name, the schedule and the metadata are those of the start.
  pub Calls-invariant :
      {e : ResearchJobExecution} → Calls fresh e → IsConsistent e × IsSameJob fresh e
  Calls-invariant none_yet = (ground arith, ground arith)
  Calls-invariant (then_call cs c) =
      let (consistent, same) = Calls-invariant cs in
      (Call-IsConsistent consistent c, ground (arith, Call-IsSameJob c))

-- A returned call of `start` or `finish` moves an execution forward, and no call returns from a
-- terminal status: an execution has two calls at most.
pub Call-final : {e e' : ResearchJobExecution} → is_terminal e.status ≡ true → ¬ Call e e'
unfolding start finish
Call-final over (started now h) = ground arith
Call-final over (finished status cause now h) = ground arith
