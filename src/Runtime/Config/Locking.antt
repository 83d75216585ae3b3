-- ===== src/Runtime/Config/Locking.antt =====
-- What a validated configuration promises to the runtime.
use investment_research_engi.Base.{ℕ, ◌<◌, ◌≡◌, true, Option, some, is_some, arith}
use investment_research_engi.Base.Result.{ok}
use investment_research_engi.Runtime.Domain.{given}
use investment_research_engi.Runtime.Config.{ScheduledJobConfig, job_policies, validate_config}

abbrev pub IsShorter : Option ℕ → Option ℕ → Type 0
IsShorter (some t) (some ttl) = t < ttl
IsShorter _ _ = Unit

-- A validated job of a class that changes state has a lock key, one instance at a time and a lease
-- of known length, and its timeout, if it has one, ends before the lease.
pub validate_config-locks :
    (c : ScheduledJobConfig) {c' : ScheduledJobConfig}
    → validate_config c ≡ ok c'
    → (job_policies c'.execution_class).lock_required ≡ true
    → (c' ≡ c)
      × (is_some (given c'.lock_key) ≡ true)
      × ((job_policies c'.execution_class).max_instances ≡ 1)
      × (is_some (job_policies c'.execution_class).lock_ttl_seconds ≡ true)
      × IsShorter c'.timeout_seconds (job_policies c'.execution_class).lock_ttl_seconds
unfolding validate_config job_policies
validate_config-locks c h locked = ground arith
