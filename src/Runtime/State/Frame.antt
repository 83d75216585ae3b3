-- ===== src/Runtime/State/Frame.antt =====
-- What reporting leaves alone.
use investment_research_engi.Base.{◌≡◌, arith, Option}
use investment_research_engi.Base.Dict.{insert}
use investment_research_engi.Runtime.Domain.{EventType, ResearchJobExecution}
use investment_research_engi.Runtime.State.{Env, ServiceState, publish, complete}

-- The jobs, leases and handler calls are as before, and so are the files of the executions.
pub record Frame (s s' : ServiceState) : Type 0 where
  pub same_accepting : s'.accepting ≡ s.accepting
  pub same_active : s'.active_jobs ≡ s.active_jobs
  pub same_leases : s'.leases ≡ s.leases
  pub same_handled : s'.handled ≡ s.handled
  pub same_executions : s'.executions ≡ s.executions

-- The same, but for one file that is written.
pub record Saves (e : ResearchJobExecution) (s s' : ServiceState) : Type 0 where
  pub same_accepting : s'.accepting ≡ s.accepting
  pub same_active : s'.active_jobs ≡ s.active_jobs
  pub same_leases : s'.leases ≡ s.leases
  pub same_handled : s'.handled ≡ s.handled
  pub saved : s'.executions ≡ insert e.execution_id e s.executions

pub publish-Frame :
    (env : Env) (t : EventType) (e : Option ResearchJobExecution) (s : ServiceState)
    → Frame s (publish env t e s)
unfolding publish
publish-Frame env t e s = ground arith

pub complete-Saves :
    (env : Env) (e : ResearchJobExecution) (s : ServiceState) → Saves e s (complete env e s)
unfolding complete
complete-Saves env e s = ground arith
