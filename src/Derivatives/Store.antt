-- ===== src/Derivatives/Store.antt =====
-- src/investment/crypto/derivatives/domain.py and the queries `observation_known_at` and
-- `crowding_known_at` of repository.py. A column of times holds ISO texts in UTC, which are ordered as
-- the times are. Of a row, the fields that an overlay decides by.
use investment_research_engi.Base.{
  ℕ, String, Bool, false, Option, none, some, List, [], ◌∷◌, ◌&&◌, ◌||◌, not, if◌then◌else◌, str_eq,
  leb, ltb, ◌==◌,
}
use investment_research_engi.Base.Order.{str_lt}
use investment_research_engi.Base.Result.{Result, ok, err}
use investment_research_engi.Decimal.{Decimal}

pub data SqueezeState : Type 0 where
  insufficient_data no_squeeze fuel ignition active : SqueezeState

pub data CrowdingState : Type 0 where
  insufficient_data neutral long_crowded short_crowded long_unwind short_unwind : CrowdingState

pub data BasisSource : Type 0 where
  official mark_index_proxy : BasisSource

pub record DerivativesSnapshot : Type 0 where
  pub snapshot_id : String
  pub symbol : String
  pub available_at : ℕ
  pub missing_fields : List String

-- The columns that tables of signals share.
pub record SignalKey : Type 0 where
  pub snapshot_id : String
  pub symbol : String
  pub feature_version : String
  pub as_of : ℕ

pub record SqueezeSignal : Type 0 where
  pub key : SignalKey
  pub state : SqueezeState
  pub liquidation_confirmed : Bool
  pub evidence : List String
  pub basis_input_rate : Option Decimal
  pub basis_input_source : Option BasisSource

pub record CrowdingSignal : Type 0 where
  pub key : SignalKey
  pub state : CrowdingState

pub record Store : Type 0 where
  pub snapshots : List DerivativesSnapshot
  pub signals : List SqueezeSignal
  pub crowding : List CrowdingSignal

-- SELECT * FROM derivatives_snapshot WHERE snapshot_id = ?
unfoldable pub find_snapshot : String → List DerivativesSnapshot → Option DerivativesSnapshot
find_snapshot id [] = none
find_snapshot id (d ∷ ds) = if str_eq d.snapshot_id id then some d else find_snapshot id ds

abbrev pub is_available : ℕ → Option DerivativesSnapshot → Bool
is_available cutoff none = false
is_available cutoff (some d) = leb d.available_at cutoff

-- The join by the primary key snapshot_id, and WHERE symbol = ? AND feature_version = ? AND as_of <= ? AND d.available_at <= ?
abbrev pub is_compatible : String → ℕ → String → List DerivativesSnapshot → SignalKey → Bool
is_compatible symbol cutoff version snapshots k =
    str_eq k.symbol symbol
    && (str_eq k.feature_version version
        && (leb k.as_of cutoff && is_available cutoff (find_snapshot k.snapshot_id snapshots)))

-- ORDER BY as_of DESC, snapshot_id DESC
abbrev is_later : SignalKey → SignalKey → Bool
is_later a b = ltb b.as_of a.as_of || (a.as_of == b.as_of && str_lt b.snapshot_id a.snapshot_id)

module _ {Row : Type 0} (key : Row → SignalKey) where
  abbrev pub later : Row → Option Row → Option Row
  later r none = some r
  later r (some q) = if is_later (key q) (key r) then some q else some r

  -- The first row of the query.
  unfoldable pub newest_known :
      String → ℕ → String → List DerivativesSnapshot → List Row → Option Row
  newest_known symbol cutoff version snapshots [] = none
  newest_known symbol cutoff version snapshots (r ∷ rows) =
      let rest = newest_known symbol cutoff version snapshots rows in
      if is_compatible symbol cutoff version snapshots (key r) then later r rest else rest

abbrev pub key_of : SqueezeSignal → SignalKey
key_of s = s.key

abbrev pub crowding_key_of : CrowdingSignal → SignalKey
crowding_key_of s = s.key

pub data StoreError : Type 0 where
  signal_mismatch : StoreError

abbrev pub matched :
    SqueezeSignal
    → Option DerivativesSnapshot
    → Result StoreError (Option (DerivativesSnapshot × SqueezeSignal))
matched s none = ok none
matched s (some d) =
    if not (str_eq d.snapshot_id s.key.snapshot_id) || not (str_eq d.symbol s.key.symbol)
    then err StoreError.signal_mismatch
    else ok (some (d, s))

abbrev pub with_snapshot :
    Option SqueezeSignal
    → List DerivativesSnapshot
    → Result StoreError (Option (DerivativesSnapshot × SqueezeSignal))
with_snapshot none snapshots = ok none
with_snapshot (some s) snapshots = matched s (find_snapshot s.key.snapshot_id snapshots)

-- `observation_known_at`, for a symbol and a version in their normal form.
unfoldable pub observation_known_at :
    Store → String → ℕ → String → Result StoreError (Option (DerivativesSnapshot × SqueezeSignal))
observation_known_at store symbol cutoff version =
    with_snapshot (newest_known key_of symbol cutoff version store.snapshots store.signals)
      store.snapshots

abbrev paired :
    CrowdingSignal → Option DerivativesSnapshot → Option (DerivativesSnapshot × CrowdingSignal)
paired s none = none
paired s (some d) = some (d, s)

abbrev pub crowding_with :
    Option CrowdingSignal → List DerivativesSnapshot → Option (DerivativesSnapshot × CrowdingSignal)
crowding_with none snapshots = none
crowding_with (some s) snapshots = paired s (find_snapshot s.key.snapshot_id snapshots)

-- `crowding_known_at`
unfoldable pub crowding_known_at :
    Store → String → ℕ → String → Option (DerivativesSnapshot × CrowdingSignal)
crowding_known_at store symbol cutoff version =
    crowding_with
      (newest_known crowding_key_of symbol cutoff version store.snapshots store.crowding)
      store.snapshots
