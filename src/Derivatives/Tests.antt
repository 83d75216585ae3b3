-- ===== src/Derivatives/Tests.antt =====
-- Overlays of a small store, and the theorems at inputs that meet their hypotheses.
use investment_research_engi.Base.{◌≡◌, refl, Bool, true, none, some, [], ◌∷◌, String, ℕ, str_eq}
use investment_research_engi.Base.Int.{pos, ◌-ℤ◌}
use investment_research_engi.Decimal.{integer}
use investment_research_engi.Base.Chars.{strip, strip_left}
use investment_research_engi.Base.Order.{str_lt}
use investment_research_engi.Base.Result.{ok}
use investment_research_engi.Derivatives.Store.{
  BasisSource, Store, SqueezeState, DerivativesSnapshot, SqueezeSignal, find_snapshot, newest_known,
  observation_known_at, crowding_known_at,
}
use investment_research_engi.Derivatives.Context.{
  DerivativesOverlayAvailability, DerivativesOverlayRecommendation, BtcDerivativesDecisionOverlay,
  validate_overlay,
}
use investment_research_engi.Derivatives.Overlay.{Query, known_at, look_up, unique_after}
use investment_research_engi.Derivatives.Overlay.Decision.{IsConfirming, known_at-confirms}
use investment_research_engi.Derivatives.Overlay.Totality.{is_returned, known_at-returns}
use investment_research_engi.Derivatives.Overlay.Lookahead.{known_rows, known_at-no_lookahead}

-- Names what a query computes with.
abbrev runs : Bool
unfolding known_at look_up observation_known_at crowding_known_at newest_known find_snapshot
    validate_overlay unique_after ◌-ℤ◌ str_eq str_lt strip strip_left
runs = true

abbrev snapshot : String → ℕ → DerivativesSnapshot
snapshot id time = record {
  snapshot_id = id;
  symbol = "BTCUSDT";
  available_at = time;
  missing_fields = [];
}

abbrev signal : String → ℕ → SqueezeState → SqueezeSignal
signal id time state = record {
  key = record { snapshot_id = id; symbol = "BTCUSDT"; feature_version = "v1"; as_of = time };
  state = state;
  liquidation_confirmed = true;
  evidence = [];
  basis_input_rate = some (integer 1);
  basis_input_source = some BasisSource.official;
}

-- At 15, the signal of 20 is not known yet.
abbrev store : Store
store = record {
  snapshots = snapshot "a" 10 ∷ snapshot "b" 20 ∷ [];
  signals = signal "a" 11 SqueezeState.ignition ∷ signal "b" 20 SqueezeState.no_squeeze ∷ [];
  crowding = [];
}

abbrev query : Query
query = record {
  symbol = "BTCUSDT";
  as_of = 15;
  feature_version = "v1";
  maximum_age = 5;
  crowding_feature_version = none;
  crowding_maximum_age = none;
}

abbrev confirmed : BtcDerivativesDecisionOverlay
confirmed = record {
  decision_as_of = 15;
  availability = DerivativesOverlayAvailability.available;
  recommendation = DerivativesOverlayRecommendation.confirm_risk_on;
  reason_codes = "DERIVATIVES_RISK_ON_CONFIRMED" ∷ [];
  symbol = "BTCUSDT";
  snapshot_id = some "a";
  snapshot_available_at = some 10;
  signal_as_of = some 11;
  age = some (pos 4);
  feature_version = some "v1";
  state = some SqueezeState.ignition;
  liquidation_confirmed = some true;
  basis_input_rate = some (integer 1);
  basis_input_source = some BasisSource.official;
  crowding_availability = none;
  crowding_signal_as_of = none;
  crowding_age = none;
  crowding_state = none;
}

confirms : known_at store query ≡ ok confirmed
unfolding runs
confirms = refl

stale :
    known_at store (record query { maximum_age = 3 })
    ≡ ok (record confirmed {
      availability = DerivativesOverlayAvailability.stale;
      recommendation = DerivativesOverlayRecommendation.unknown;
      reason_codes = "DERIVATIVES_SIGNAL_STALE" ∷ [];
    })
unfolding runs
stale = refl

known_at-confirms_example : IsConfirming query confirmed
unfolding runs
known_at-confirms_example = known_at-confirms store query {o = confirmed} refl refl

known_at-no_lookahead_example : known_at (known_rows 15 store) query ≡ ok confirmed
unfolding runs
known_at-no_lookahead_example = known_at-no_lookahead store query refl

known_at-returns_example : is_returned (known_at store query) ≡ true
unfolding runs
known_at-returns_example =
    known_at-returns store query
      {observation = some (snapshot "a" 10, signal "a" 11 SqueezeState.ignition)} refl refl refl
      refl refl refl refl
