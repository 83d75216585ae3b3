-- ===== src/Runtime/Lease.antt =====
-- `SqliteJobLock` of src/investment/runtime/infrastructure.py: one row for each key of job_lease.
-- BEGIN IMMEDIATE makes each method one step on the table.
pub mod Exclusion
use investment_research_engi.Base.{
  ℕ, ◌+◌, String, Bool, true, false, Option, none, some, if◌then◌else◌, ◌||◌, leb, ltb, is_empty,
  str_eq, ◌==◌,
}
use investment_research_engi.Base.Dict.{Dict, lookup, insert, erase}
use investment_research_engi.Base.Result.{Result, ok, err}

pub record JobLease : Type 0 where
  pub owner_id : String
  pub acquired_at : ℕ
  pub expires_at : ℕ

-- `ValueError("lease requires key, owner, and positive TTL")`
pub data LeaseError : Type 0 where
  invalid_lease : LeaseError

-- A row that keeps the key from a new owner at `now`.
abbrev pub is_held : Option JobLease → ℕ → Bool
is_held none now = false
is_held (some row) now = ltb now row.expires_at

-- `acquire`: false leaves the table alone.
unfoldable pub acquire :
    String → String → ℕ → ℕ → Dict JobLease → Result LeaseError Bool × Dict JobLease
acquire key owner_id ttl now leases =
    if is_empty key || is_empty owner_id || ttl == 0
    then (err LeaseError.invalid_lease, leases)
    else if is_held (lookup key leases) now
    then (ok false, leases)
    else (
      ok true,
      insert key (record { owner_id = owner_id; acquired_at = now; expires_at = now + ttl }) leases,
    )

abbrev pub is_owned : Option JobLease → String → Bool
is_owned none owner_id = false
is_owned (some row) owner_id = str_eq row.owner_id owner_id

-- `release`: the row goes only if the caller owns it.
unfoldable pub release : String → String → Dict JobLease → Bool × Dict JobLease
release key owner_id leases =
    if is_owned (lookup key leases) owner_id then (true, erase key leases) else (false, leases)
