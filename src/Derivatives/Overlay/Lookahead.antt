-- ===== src/Derivatives/Overlay/Lookahead.antt =====
-- No overlay looks ahead: what became known after the decision has no influence on it.
use investment_research_engi.Base.{
  ℕ, String, ◌≡◌, refl, Bool, true, false, Option, none, some, List, [], ◌∷◌, ◌&&◌, not,
  if◌then◌else◌, str_eq, str_eq_iff, leb, arith, any, keep,
}
use investment_research_engi.Derivatives.Store.{
  Store, DerivativesSnapshot, SignalKey, SqueezeSignal, CrowdingSignal, find_snapshot, newest_known,
  is_compatible, key_of, crowding_key_of, observation_known_at, crowding_known_at, with_snapshot,
  crowding_with,
}
use investment_research_engi.Derivatives.Overlay.{Query, known_at, look_up, crowding_by}

-- snapshot_id is the primary key.
abbrev pub has_unique_ids : List DerivativesSnapshot → Bool
has_unique_ids [] = true
has_unique_ids (d ∷ ds) =
    not (any (λ x. str_eq x.snapshot_id d.snapshot_id) ds) && has_unique_ids ds

abbrev pub available_by : ℕ → List DerivativesSnapshot → List DerivativesSnapshot
available_by cutoff = keep (λ d. leb d.available_at cutoff)

-- The rows that were known at a time.
abbrev pub known_rows : ℕ → Store → Store
known_rows cutoff store = record {
  snapshots = available_by cutoff store.snapshots;
  signals = keep (λ s. leb s.key.as_of cutoff) store.signals;
  crowding = keep (λ s. leb s.key.as_of cutoff) store.crowding;
}

abbrev if_available : ℕ → Option DerivativesSnapshot → Option DerivativesSnapshot
if_available cutoff none = none
if_available cutoff (some d) = if leb d.available_at cutoff then some d else none

find-absent :
    (cutoff : ℕ) (id : String) (ds : List DerivativesSnapshot)
    → any (λ x. str_eq x.snapshot_id id) ds ≡ false
    → find_snapshot id (available_by cutoff ds) ≡ none
unfolding find_snapshot
find-absent cutoff id [] h = refl
find-absent cutoff id (d ∷ ds) h = ground (arith, find-absent cutoff id ds)

find-available :
    (cutoff : ℕ) (id : String) (ds : List DerivativesSnapshot)
    → has_unique_ids ds ≡ true
    → find_snapshot id (available_by cutoff ds) ≡ if_available cutoff (find_snapshot id ds)
unfolding find_snapshot
find-available cutoff id [] unique = refl
find-available cutoff id (d ∷ ds) unique =
    ground
      (arith, str_eq_iff d.snapshot_id id, find-absent cutoff id ds, find-available cutoff id ds)

compatible_lem :
    (cutoff : ℕ) (symbol version : String) (ds : List DerivativesSnapshot) (k : SignalKey)
    → has_unique_ids ds ≡ true
    → is_compatible symbol cutoff version (available_by cutoff ds) k
      ≡ is_compatible symbol cutoff version ds k
compatible_lem cutoff symbol version ds k unique =
    ground (arith, find-available cutoff k.snapshot_id ds)

module _ {Row : Type 0} (key : Row → SignalKey) (cutoff : ℕ) (symbol version : String)
    (ds : List DerivativesSnapshot) (unique : has_unique_ids ds ≡ true) where
  newest-known :
      (rows : List Row)
      → newest_known key symbol cutoff version
          (available_by cutoff ds)
          (keep (λ r. leb (key r).as_of cutoff) rows)
        ≡ newest_known key symbol cutoff version ds rows
  unfolding newest_known
  newest-known [] = refl
  newest-known (r ∷ rows) =
      ground (arith, newest-known rows, compatible_lem cutoff symbol version ds (key r) unique)

  abbrev pub fits : Option Row → Bool
  fits none = true
  fits (some r) = is_compatible symbol cutoff version ds (key r)

  -- A row that the query finds joins a snapshot that was available.
  pub newest-fits : (rows : List Row) → fits (newest_known key symbol cutoff version ds rows) ≡ true
  unfolding newest_known
  newest-fits [] = refl
  newest-fits (r ∷ rows) = ground (arith, newest-fits rows)

with_snapshot-known :
    (cutoff : ℕ) (symbol version : String) (ds : List DerivativesSnapshot)
    (found : Option SqueezeSignal) (unique : has_unique_ids ds ≡ true)
    → fits key_of cutoff symbol version ds unique found ≡ true
    → with_snapshot found (available_by cutoff ds) ≡ with_snapshot found ds
with_snapshot-known cutoff symbol version ds none unique h = refl
with_snapshot-known cutoff symbol version ds (some s) unique h =
    ground (arith, find-available cutoff s.key.snapshot_id ds)

crowding_with-known :
    (cutoff : ℕ) (symbol version : String) (ds : List DerivativesSnapshot)
    (found : Option CrowdingSignal) (unique : has_unique_ids ds ≡ true)
    → fits crowding_key_of cutoff symbol version ds unique found ≡ true
    → crowding_with found (available_by cutoff ds) ≡ crowding_with found ds
crowding_with-known cutoff symbol version ds none unique h = refl
crowding_with-known cutoff symbol version ds (some s) unique h =
    ground (arith, find-available cutoff s.key.snapshot_id ds)

observation-known :
    (store : Store) (symbol : String) (cutoff : ℕ) (version : String)
    → has_unique_ids store.snapshots ≡ true
    → observation_known_at (known_rows cutoff store) symbol cutoff version
      ≡ observation_known_at store symbol cutoff version
unfolding observation_known_at
observation-known store symbol cutoff version unique =
    rw (newest-known key_of cutoff symbol version store.snapshots unique store.signals) (
      with_snapshot-known cutoff symbol version store.snapshots _ unique
        (newest-fits key_of cutoff symbol version store.snapshots unique store.signals))

crowding-known :
    (store : Store) (symbol : String) (cutoff : ℕ) (version : String)
    → has_unique_ids store.snapshots ≡ true
    → crowding_known_at (known_rows cutoff store) symbol cutoff version
      ≡ crowding_known_at store symbol cutoff version
unfolding crowding_known_at
crowding-known store symbol cutoff version unique =
    rw (newest-known crowding_key_of cutoff symbol version store.snapshots unique store.crowding) (
      crowding_with-known cutoff symbol version store.snapshots _ unique
        (newest-fits crowding_key_of cutoff symbol version store.snapshots unique store.crowding))

crowding_by-known :
    (store : Store) (q : Query) (version : Option String)
    → has_unique_ids store.snapshots ≡ true
    → crowding_by (known_rows q.as_of store) q version ≡ crowding_by store q version
crowding_by-known store q none unique = refl
crowding_by-known store q (some version) unique =
    rw (crowding-known store q.symbol q.as_of version unique)

-- An overlay, and equally an exception, is the one that the rows known at the time of the decision
-- give: snapshots and signals from after it change nothing.
pub known_at-no_lookahead :
    (store : Store) (q : Query)
    → has_unique_ids store.snapshots ≡ true
    → known_at (known_rows q.as_of store) q ≡ known_at store q
unfolding known_at look_up
known_at-no_lookahead store q unique = rw (
  observation-known store q.symbol q.as_of q.feature_version unique,
  crowding_by-known store q q.crowding_feature_version unique,
)
