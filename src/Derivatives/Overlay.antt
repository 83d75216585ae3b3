-- ===== src/Derivatives/Overlay.antt =====
-- `PointInTimeBtcDerivativesOverlayProvider.known_at` of src/investment/crypto/derivatives/overlay.py.
pub mod Decision
pub mod Lookahead
pub mod Totality
use investment_research_engi.Base.{
  ℕ, ◌+◌, ◌-◌, max, String, Bool, true, false, Option, none, some, List, [], ◌∷◌, ◌++◌, ◌||◌,
  if◌then◌else◌, str_eq, ltb, ◌==◌, any,
}
use investment_research_engi.Base.Int.{ℤ, pos, ◌-ℤ◌}
use investment_research_engi.Base.Result.{Result, ok, err, ◌>>=◌, ◌>>◌, raise_if}
use investment_research_engi.Derivatives.Store.{
  Store, StoreError, SqueezeState, CrowdingState, DerivativesSnapshot, SqueezeSignal,
  CrowdingSignal, observation_known_at, crowding_known_at,
}
use investment_research_engi.Derivatives.Context.{
  DerivativesOverlayAvailability, DerivativesOverlayRecommendation, OverlayError, is_blank,
  BtcDerivativesDecisionOverlay, validate_overlay,
}

-- `_recommendation`
abbrev pub recommendation_of : SqueezeState → DerivativesOverlayRecommendation × String
recommendation_of SqueezeState.no_squeeze =
    (DerivativesOverlayRecommendation.no_confirmation, "NO_DERIVATIVES_RISK_ON_CONFIRMATION")
recommendation_of SqueezeState.fuel =
    (DerivativesOverlayRecommendation.wait_for_ignition, "SHORT_FUEL_WAITING_FOR_IGNITION")
recommendation_of SqueezeState.ignition =
    (DerivativesOverlayRecommendation.confirm_risk_on, "DERIVATIVES_RISK_ON_CONFIRMED")
recommendation_of SqueezeState.active =
    (DerivativesOverlayRecommendation.confirm_risk_on, "DERIVATIVES_RISK_ON_CONFIRMED")
recommendation_of SqueezeState.insufficient_data =
    (DerivativesOverlayRecommendation.unknown, "DERIVATIVES_SIGNAL_INCOMPLETE")

-- `tuple(dict.fromkeys(xs))`, with what has been seen.
unfoldable pub unique_after : List String → List String → List String
unique_after seen [] = []
unique_after seen (x ∷ xs) =
    let rest = unique_after (x ∷ seen) xs in if any (λ y. str_eq y x) seen then rest else x ∷ rest

-- The availability, the recommendation and the reasons of an observation.
pub record Judgement : Type 0 where
  pub availability : DerivativesOverlayAvailability
  pub recommendation : DerivativesOverlayRecommendation
  pub reasons : List String

abbrev pub fresh_judgement : SqueezeState → List String → Judgement
fresh_judgement SqueezeState.insufficient_data evidence = record {
  availability = DerivativesOverlayAvailability.incomplete;
  recommendation = DerivativesOverlayRecommendation.unknown;
  reasons = "DERIVATIVES_SIGNAL_INCOMPLETE" ∷ evidence;
}
fresh_judgement state evidence = record {
  availability = DerivativesOverlayAvailability.available;
  recommendation = (recommendation_of state).0;
  reasons = (recommendation_of state).1 ∷ evidence;
}

abbrev pub effective_at : DerivativesSnapshot → SqueezeSignal → ℕ
effective_at d s = max d.available_at s.key.as_of

abbrev pub judge : ℕ → ℕ → DerivativesSnapshot → SqueezeSignal → Judgement
judge cutoff maximum_age d s =
    if ltb (effective_at d s + maximum_age) cutoff
    then record {
      availability = DerivativesOverlayAvailability.stale;
      recommendation = DerivativesOverlayRecommendation.unknown;
      reasons = "DERIVATIVES_SIGNAL_STALE" ∷ [];
    }
    else fresh_judgement s.state s.evidence

abbrev optional_reasons : DerivativesSnapshot → SqueezeSignal → List String
optional_reasons d s =
    (if any (λ x. str_eq x "coinbase_premium_rate") d.missing_fields
      then "OPTIONAL_COINBASE_PREMIUM_MISSING" ∷ []
      else [])
    ++ (if s.liquidation_confirmed then [] else "LIQUIDATION_COVERAGE_UNCONFIRMED" ∷ [])

abbrev crowding_fresh : CrowdingState → DerivativesOverlayAvailability
crowding_fresh CrowdingState.insufficient_data = DerivativesOverlayAvailability.incomplete
crowding_fresh _ = DerivativesOverlayAvailability.available

abbrev crowding_availability_of :
    ℕ → Option ℕ → Option CrowdingSignal → Option DerivativesOverlayAvailability
crowding_availability_of cutoff none signal = none
crowding_availability_of cutoff (some age) none = some DerivativesOverlayAvailability.missing
crowding_availability_of cutoff (some age) (some s) =
    if ltb (s.key.as_of + age) cutoff
    then some DerivativesOverlayAvailability.stale
    else some (crowding_fresh s.state)

abbrev pub crowding_time : Option CrowdingSignal → Option ℕ
crowding_time none = none
crowding_time (some s) = some s.key.as_of

-- `decision_as_of - time`
abbrev pub since : ℕ → ℕ → ℤ
since now time = pos now -ℤ pos time

abbrev pub crowding_age_of : ℕ → Option ℕ → Option CrowdingSignal → Option ℤ
crowding_age_of cutoff (some age) (some s) = some (since cutoff s.key.as_of)
crowding_age_of cutoff _ _ = none

abbrev crowding_state_of : Option CrowdingSignal → Option CrowdingState
crowding_state_of none = none
crowding_state_of (some s) = some s.state

abbrev pub second : Option (DerivativesSnapshot × CrowdingSignal) → Option CrowdingSignal
second none = none
second (some (d, s)) = some s

-- `_overlay`, before its checks.
abbrev pub overlay_of :
    ℕ
    → DerivativesSnapshot
    → SqueezeSignal
    → Judgement
    → Option CrowdingSignal
    → Option ℕ
    → BtcDerivativesDecisionOverlay
overlay_of cutoff d s j crowding crowding_age = record {
  decision_as_of = cutoff;
  availability = j.availability;
  recommendation = j.recommendation;
  reason_codes = unique_after [] (unique_after [] j.reasons ++ optional_reasons d s);
  symbol = d.symbol;
  snapshot_id = some d.snapshot_id;
  snapshot_available_at = some d.available_at;
  signal_as_of = some s.key.as_of;
  age = some (since cutoff (effective_at d s));
  feature_version = some s.key.feature_version;
  state = some s.state;
  liquidation_confirmed = some s.liquidation_confirmed;
  basis_input_rate = s.basis_input_rate;
  basis_input_source = s.basis_input_source;
  crowding_availability = crowding_availability_of cutoff crowding_age crowding;
  crowding_signal_as_of = crowding_time crowding;
  crowding_age = crowding_age_of cutoff crowding_age crowding;
  crowding_state = crowding_state_of crowding;
}

-- An overlay without an observation.
abbrev pub missing_overlay : ℕ → String → String → BtcDerivativesDecisionOverlay
missing_overlay cutoff symbol version = record {
  decision_as_of = cutoff;
  availability = DerivativesOverlayAvailability.missing;
  recommendation = DerivativesOverlayRecommendation.unknown;
  reason_codes = "NO_COMPATIBLE_DERIVATIVES_SIGNAL" ∷ [];
  symbol = symbol;
  snapshot_id = none;
  snapshot_available_at = none;
  signal_as_of = none;
  age = none;
  feature_version = some version;
  state = none;
  liquidation_confirmed = none;
  basis_input_rate = none;
  basis_input_source = none;
  crowding_availability = none;
  crowding_signal_as_of = none;
  crowding_age = none;
  crowding_state = none;
}

-- The arguments of `known_at`, and the symbol of the provider.
pub record Query : Type 0 where
  pub symbol : String
  pub as_of : ℕ
  pub feature_version : String
  pub maximum_age : ℕ
  pub crowding_feature_version : Option String
  pub crowding_maximum_age : Option ℕ

abbrev not_positive : Option ℕ → Bool
not_positive none = true
not_positive (some age) = age == 0

abbrev pub is_misconfigured : Option String → Option ℕ → Bool
is_misconfigured none age = false
is_misconfigured (some version) age = is_blank version || not_positive age

abbrev pub crowding_by : Store → Query → Option String → Option CrowdingSignal
crowding_by store q none = none
crowding_by store q (some version) = second (crowding_known_at store q.symbol q.as_of version)

abbrev pub crowding_for : Store → Query → Option CrowdingSignal
crowding_for store q = crowding_by store q q.crowding_feature_version

abbrev pub overlay_from :
    Query
    → Option (DerivativesSnapshot × SqueezeSignal)
    → Option CrowdingSignal
    → Result OverlayError BtcDerivativesDecisionOverlay
overlay_from q none crowding = validate_overlay (missing_overlay q.as_of q.symbol q.feature_version)
overlay_from q (some (d, s)) crowding =
    validate_overlay
      (overlay_of q.as_of d s (judge q.as_of q.maximum_age d s) crowding q.crowding_maximum_age)

abbrev pub overlay_after :
    Query
    → Option CrowdingSignal
    → Result StoreError (Option (DerivativesSnapshot × SqueezeSignal))
    → Result OverlayError BtcDerivativesDecisionOverlay
overlay_after q crowding (err e) = err (OverlayError.of_store e)
overlay_after q crowding (ok observation) = overlay_from q observation crowding

-- `known_at`, after the checks of its arguments.
unfoldable pub look_up : Store → Query → Result OverlayError BtcDerivativesDecisionOverlay
look_up store q =
    overlay_after q (crowding_for store q)
      (observation_known_at store q.symbol q.as_of q.feature_version)

-- `known_at`, for a symbol and a version with no white space around.
unfoldable pub known_at : Store → Query → Result OverlayError BtcDerivativesDecisionOverlay
known_at store q = do
  raise_if (is_blank q.feature_version) OverlayError.version_missing
  raise_if (q.maximum_age == 0) OverlayError.maximum_age_not_positive
  raise_if (is_misconfigured q.crowding_feature_version q.crowding_maximum_age)
      OverlayError.crowding_misconfigured
  look_up store q
