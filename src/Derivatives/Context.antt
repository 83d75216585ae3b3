-- ===== src/Derivatives/Context.antt =====
-- `BtcDerivativesDecisionOverlay` of src/investment/crypto/derivatives/domain.py, with the checks of its
-- constructor. The measurements that an overlay copies from its rows, and that it does not check, are left
-- out; times are in UTC, and a symbol is already stripped and capitalized, as the provider and the snapshots
-- do it. An age is in microseconds, and the number of its seconds is finite.
use investment_research_engi.Base.{
  ℕ, String, Bool, true, false, Option, none, some, List, [], ◌∷◌, ◌&&◌, ◌||◌, not, ltb, ◌==◌,
  is_some,
}
use investment_research_engi.Base.Result.{Result, ok, ◌>>◌, raise_if}
use investment_research_engi.Base.Chars.{codes, strip}
use investment_research_engi.Base.Int.{ℤ, neg_part}
use investment_research_engi.Decimal.{Decimal}
use investment_research_engi.Derivatives.Store.{
  StoreError, SqueezeState, CrowdingState, BasisSource,
}

pub data DerivativesOverlayAvailability : Type 0 where
  available missing stale incomplete : DerivativesOverlayAvailability

pub data DerivativesOverlayRecommendation : Type 0 where
  unknown no_confirmation wait_for_ignition confirm_risk_on : DerivativesOverlayRecommendation

pub record BtcDerivativesDecisionOverlay : Type 0 where
  pub decision_as_of : ℕ
  pub availability : DerivativesOverlayAvailability
  pub recommendation : DerivativesOverlayRecommendation
  pub reason_codes : List String
  pub symbol : String
  pub snapshot_id : Option String
  pub snapshot_available_at : Option ℕ
  pub signal_as_of : Option ℕ
  pub age : Option ℤ
  pub feature_version : Option String
  pub state : Option SqueezeState
  pub liquidation_confirmed : Option Bool
  pub basis_input_rate : Option Decimal
  pub basis_input_source : Option BasisSource
  pub crowding_availability : Option DerivativesOverlayAvailability
  pub crowding_signal_as_of : Option ℕ
  pub crowding_age : Option ℤ
  pub crowding_state : Option CrowdingState

pub data OverlayError : Type 0 where
  version_missing maximum_age_not_positive crowding_misconfigured : OverlayError
  symbol_or_reasons_missing future_signal future_snapshot negative_age unpaired_basis : OverlayError
  inconsistent_availability incomplete_observation unfounded_recommendation : OverlayError
  future_crowding : OverlayError
  of_store : StoreError → OverlayError

abbrev pub is_missing : DerivativesOverlayAvailability → Bool
is_missing DerivativesOverlayAvailability.missing = true
is_missing _ = false

abbrev pub is_usable : DerivativesOverlayAvailability → Bool
is_usable DerivativesOverlayAvailability.available = true
is_usable _ = false

abbrev pub is_unknown : DerivativesOverlayRecommendation → Bool
is_unknown DerivativesOverlayRecommendation.unknown = true
is_unknown _ = false

abbrev has_none : List String → Bool
has_none [] = true
has_none (_ ∷ _) = false

abbrev nothing_left : List ℕ → Bool
nothing_left [] = true
nothing_left (_ ∷ _) = false

-- `not text.strip()`
abbrev pub is_blank : String → Bool
is_blank s = nothing_left (strip (codes s))

abbrev is_negative : Option ℤ → Bool
is_negative none = false
is_negative (some age) = not (neg_part age == 0)

-- `(rate is None) != (source is None)`
abbrev pub is_unpaired : Option Decimal → Option BasisSource → Bool
is_unpaired none none = false
is_unpaired (some _) (some _) = false
is_unpaired _ _ = true

abbrev lacks_identity : BtcDerivativesDecisionOverlay → Bool
lacks_identity o =
    not (is_some o.snapshot_available_at)
    || not (is_some o.signal_as_of)
    || not (is_some o.age)
    || not (is_some o.feature_version)
    || not (is_some o.state)
    || not (is_some o.liquidation_confirmed)

abbrev pub time_after : ℕ → Option ℕ → Bool
time_after now none = false
time_after now (some t) = ltb now t

-- `BtcDerivativesDecisionOverlay.__post_init__`
unfoldable pub validate_overlay :
    BtcDerivativesDecisionOverlay → Result OverlayError BtcDerivativesDecisionOverlay
validate_overlay o = do
  raise_if (is_blank o.symbol || has_none o.reason_codes) OverlayError.symbol_or_reasons_missing
  raise_if (time_after o.decision_as_of o.signal_as_of) OverlayError.future_signal
  raise_if (time_after o.decision_as_of o.snapshot_available_at) OverlayError.future_snapshot
  raise_if (is_negative o.age) OverlayError.negative_age
  raise_if (is_unpaired o.basis_input_rate o.basis_input_source) OverlayError.unpaired_basis
  raise_if (is_missing o.availability && is_some o.snapshot_id)
      OverlayError.inconsistent_availability
  raise_if (not (is_missing o.availability) && not (is_some o.snapshot_id))
      OverlayError.inconsistent_availability
  raise_if (is_some o.snapshot_id && lacks_identity o) OverlayError.incomplete_observation
  raise_if (not (is_usable o.availability) && not (is_unknown o.recommendation))
      OverlayError.unfounded_recommendation
  raise_if (time_after o.decision_as_of o.crowding_signal_as_of) OverlayError.future_crowding
  raise_if (is_negative o.crowding_age) OverlayError.negative_age
  ok o
