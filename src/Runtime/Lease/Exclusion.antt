-- ===== src/Runtime/Lease/Exclusion.antt =====
-- A lease is exclusive while it runs: any number of processes call `acquire` and `release` on one
-- table, in any order.
use investment_research_engi.Base.{
  ℕ, ◌+◌, ◌<◌, String, ◌≡◌, ◌≢◌, ap, Bool, true, false, none, some, List, [], ◌∷◌, arith, is_empty,
  str_eq, str_eq_iff, str_eq_refl, All,
}
use investment_research_engi.Base.Dict.{Dict, lookup, erase, lookup-insert, lookup-erase}
use investment_research_engi.Base.Result.{ok}
use investment_research_engi.Runtime.Lease.{JobLease, acquire, release}

pub data LeaseCall : Type 0 where
  acquiring : String → String → ℕ → ℕ → LeaseCall
  releasing : String → String → LeaseCall

unfoldable pub apply_call : LeaseCall → Dict JobLease → Dict JobLease
apply_call (acquiring key owner ttl now) leases = (acquire key owner ttl now leases).1
apply_call (releasing key owner) leases = (release key owner leases).1

unfoldable pub run_calls : List LeaseCall → Dict JobLease → Dict JobLease
run_calls [] leases = leases
run_calls (c ∷ cs) leases = run_calls cs (apply_call c leases)

-- A call that stands before `until`, and is no release by the owner.
abbrev pub IsForeign : String → String → ℕ → LeaseCall → Type 0
IsForeign key owner until (acquiring _ _ _ now) = now < until
IsForeign key owner until (releasing k o) = (str_eq k key ≡ true) → str_eq o owner ≡ false

module _ (key : String) (row : JobLease) where
  apply_call-keeps :
      (c : LeaseCall) (leases : Dict JobLease)
      → lookup key leases ≡ some row
      → IsForeign key row.owner_id row.expires_at c
      → lookup key (apply_call c leases) ≡ some row
  unfolding apply_call acquire release
  apply_call-keeps (acquiring k o ttl now) leases h before = ground (
    arith,
    str_eq_iff k key,
    lookup-insert k key (record { owner_id = o; acquired_at = now; expires_at = now + ttl }) leases,
  )
  apply_call-keeps (releasing k o) leases h foreign = ground (
    arith,
    str_eq_iff k key,
    str_eq_iff row.owner_id o,
    str_eq_iff o row.owner_id,
    lookup-erase k key leases,
  )

  run_calls-keeps :
      (cs : List LeaseCall) (leases : Dict JobLease)
      → lookup key leases ≡ some row
      → All (IsForeign key row.owner_id row.expires_at) cs
      → lookup key (run_calls cs leases) ≡ some row
  unfolding run_calls
  run_calls-keeps [] leases h foreign = h
  run_calls-keeps (c ∷ cs) leases h foreign =
      run_calls-keeps cs (apply_call c leases) (apply_call-keeps c leases h foreign.0) foreign.1

-- What `acquire` leaves when it returns true.
pub acquire-lookup :
    (key owner : String) (ttl now : ℕ) (leases : Dict JobLease)
    → (acquire key owner ttl now leases).0 ≡ ok true
    → lookup key (acquire key owner ttl now leases).1
      ≡ some (record { owner_id = owner; acquired_at = now; expires_at = now + ttl })
unfolding acquire
acquire-lookup key owner ttl now leases h = ground (
  arith,
  str_eq_refl key,
  lookup-insert key key (record { owner_id = owner; acquired_at = now; expires_at = now + ttl })
      leases,
)

acquire-named :
    (key owner : String) (ttl now : ℕ) (leases : Dict JobLease)
    → (acquire key owner ttl now leases).0 ≡ ok true
    → is_empty key ≡ false
unfolding acquire
acquire-named key owner ttl now leases h = ground arith

refused :
    (key other : String) (ttl now : ℕ) (row : JobLease) (leases : Dict JobLease)
    → is_empty key ≡ false
    → is_empty other ≡ false
    → 0 < ttl
    → lookup key leases ≡ some row
    → now < row.expires_at
    → acquire key other ttl now leases ≡ (ok false, leases)
unfolding acquire
refused key other ttl now row leases keyed named positive h before = ground arith

-- Mutual exclusion. Once an owner has a lease, then after any calls made before it expires, none
-- of them a release by that owner, every well-formed `acquire` of the key before the expiry returns
-- false, to every owner, and changes nothing.
pub acquire-excludes :
    (key owner : String) (ttl now : ℕ) (leases : Dict JobLease)
    → (acquire key owner ttl now leases).0 ≡ ok true
    → (cs : List LeaseCall) → All (IsForeign key owner (now + ttl)) cs
    → (other : String) (ttl' now' : ℕ) → is_empty other ≡ false
    → 0 < ttl'
    → now' < now + ttl
    → let after = run_calls cs (acquire key owner ttl now leases).1 in
      acquire key other ttl' now' after ≡ (ok false, after)
acquire-excludes key owner ttl now leases h cs foreign other ttl' now' named positive before =
    refused key other ttl' now' _ _ keyed named positive
      (run_calls-keeps key _ cs _ (acquire-lookup key owner ttl now leases h) foreign) before
  where
    keyed : is_empty key ≡ false
    keyed = acquire-named key owner ttl now leases h

release_owned :
    (key : String) (row : JobLease) (leases : Dict JobLease) (owner : String)
    → lookup key leases ≡ some row
    → str_eq row.owner_id owner ≡ true
    → release key owner leases ≡ (true, erase key leases)
unfolding release
release_owned key row leases owner h mine = ground arith

free_lem :
    (key other : String) (ttl now : ℕ) (leases : Dict JobLease)
    → is_empty key ≡ false
    → is_empty other ≡ false
    → 0 < ttl
    → lookup key leases ≡ none
    → (acquire key other ttl now leases).0 ≡ ok true
unfolding acquire
free_lem key other ttl now leases keyed named positive h = ground arith

-- A free key goes to whoever asks; the owner's release frees it at once, before the expiry.
pub release-acquire :
    (key owner : String) (ttl now : ℕ) (leases : Dict JobLease)
    → (acquire key owner ttl now leases).0 ≡ ok true
    → (other : String) (ttl' now' : ℕ) → is_empty other ≡ false
    → 0 < ttl'
    → let held = (acquire key owner ttl now leases).1 in
      let (released, free) = release key owner held in
      (released ≡ true) × ((acquire key other ttl' now' free).0 ≡ ok true)
release-acquire key owner ttl now leases h other ttl' now' named positive =
    let held = (acquire key owner ttl now leases).1 in
    let row = acquire-lookup key owner ttl now leases h in
    let freed = release_owned key _ held owner row (str_eq_refl owner) in
    (
      ap (λ (p : Bool × Dict JobLease). p.0) freed,
      rw freed (
          free_lem key other ttl' now' _ (acquire-named key owner ttl now leases h) named positive
            (rw (lookup-erase key key held) (rw (str_eq_refl key)))),
    )

-- A release by anybody but the owner returns false and changes nothing.
pub release-foreign :
    (key owner other : String) (ttl now : ℕ) (leases : Dict JobLease)
    → (acquire key owner ttl now leases).0 ≡ ok true
    → other ≢ owner
    → let held = (acquire key owner ttl now leases).1 in release key other held ≡ (false, held)
unfolding release
release-foreign key owner other ttl now leases h foreign =
    let row = acquire-lookup key owner ttl now leases h in
    ground (arith, row, str_eq_iff owner other)
