-- ===== src/Runtime/Config.antt =====
-- src/investment/runtime/config.py: execution classes with their policies, and the validation of
-- a scheduled job. A number of seconds is a natural number.
pub mod Locking
use investment_research_engi.Base.{
  ℕ, String, Bool, true, false, Option, none, some, ◌||◌, ◌&&◌, not, leb, ◌==◌, is_some, List, [],
  ◌∷◌, any, if◌then◌else◌,
}
use investment_research_engi.Base.Chars.{codes, strip, count_words}
use investment_research_engi.Base.Result.{Result, ok, err, ◌>>=◌, ◌>>◌, raise_if}
use investment_research_engi.Runtime.Domain.{given}

pub data JobExecutionClass : Type 0 where
  read_only refresh state_mutation execution : JobExecutionClass

pub record JobPolicy : Type 0 where
  pub max_instances : ℕ
  pub coalesce : Bool
  pub misfire_grace_time_seconds : ℕ
  pub lock_required : Bool
  pub lock_ttl_seconds : Option ℕ

abbrev policy : ℕ → ℕ → Bool → Option ℕ → JobPolicy
policy instances grace locked ttl = record {
  max_instances = instances;
  coalesce = true;
  misfire_grace_time_seconds = grace;
  lock_required = locked;
  lock_ttl_seconds = ttl;
}

-- `JOB_POLICIES`
unfoldable pub job_policies : JobExecutionClass → JobPolicy
job_policies JobExecutionClass.read_only = policy 2 60 false none
job_policies JobExecutionClass.refresh = policy 1 300 false none
job_policies JobExecutionClass.state_mutation = policy 1 60 true (some 3600)
job_policies JobExecutionClass.execution = policy 1 30 true (some 900)

pub record ScheduledJobConfig : Type 0 where
  pub name : String
  pub cron : String
  pub enabled : Bool
  pub timeout_seconds : Option ℕ
  pub execution_class : JobExecutionClass
  pub lock_key : Option String

pub data ConfigError : Type 0 where
  bad_name_or_cron timeout_not_positive lock_key_missing timeout_not_shorter : ConfigError

abbrev is_blank : List ℕ → Bool
is_blank [] = true
is_blank (_ ∷ _) = false

abbrev is_zero : Option ℕ → Bool
is_zero none = false
is_zero (some n) = n == 0

-- `timeout and ttl and timeout >= ttl`
abbrev outlasts : Option ℕ → Option ℕ → Bool
outlasts (some t) (some ttl) = not (t == 0) && not (ttl == 0) && leb ttl t
outlasts _ _ = false

-- `ScheduledJobConfig.__post_init__`: the config that it lets through.
unfoldable pub validate_config : ScheduledJobConfig → Result ConfigError ScheduledJobConfig
unfolding job_policies
validate_config c = do
  raise_if (is_blank (strip (codes c.name)) || not (count_words false (codes c.cron) == 5))
      ConfigError.bad_name_or_cron
  raise_if (is_zero c.timeout_seconds) ConfigError.timeout_not_positive
  let p = job_policies c.execution_class
  raise_if (p.lock_required && not (is_some (given c.lock_key))) ConfigError.lock_key_missing
  raise_if (outlasts c.timeout_seconds p.lock_ttl_seconds) ConfigError.timeout_not_shorter
  ok c
