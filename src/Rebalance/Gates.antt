-- ===== src/Rebalance/Gates.antt =====
-- The gates that the BTC derivatives put on new entries
-- (src/investment/crypto/application/dynamic_paper_rebalance.py, `_derivatives_overlay` and the functions
-- on its result).
use Prim.Native.String.{◌++◌ as append}
use investment_research_engi.Base.{
  ℕ, ◌+◌, String, Bool, true, false, Option, none, some, List, [], ◌∷◌, ◌&&◌, not, if◌then◌else◌,
  str_eq, is_some,
}
use investment_research_engi.Base.Result.{Result, ok, err}
use investment_research_engi.Decimal.{Decimal, lt_d, integer}
use investment_research_engi.Ledger.Orders.{DomainError}
use investment_research_engi.Ledger.Accounting.{LedgerError}
use investment_research_engi.Ledger.Risk.{PolicyError, ApprovalError}
use investment_research_engi.Ledger.Exchange.{GatewayError}
use investment_research_engi.Derivatives.Store.{CrowdingState}
use investment_research_engi.Derivatives.Context.{
  DerivativesOverlayAvailability, DerivativesOverlayRecommendation, BtcDerivativesDecisionOverlay,
  OverlayError,
}
use investment_research_engi.Derivatives.Overlay.{missing_overlay}
use investment_research_engi.Rebalance.Floats.{Floats, le_f, zero_f}
use investment_research_engi.Rebalance.Policy.{DynamicUniversePolicy, point}
use investment_research_engi.Rebalance.Candidates.{is_in}

pub data RebalanceError : Type 0 where
  unsupported_overlay_mode unsupported_scoring_method unsupported_calibration : RebalanceError
  unsupported_turnover_mode no_universe stale_holding no_price deadline_elapsed : RebalanceError
  missing_rank missing_evidence too_few_closes : RebalanceError
  pair_not_in_universe division_by_zero no_positions unvalued_holding : RebalanceError
  of_intent : DomainError → RebalanceError
  of_ledger : LedgerError → RebalanceError
  of_policy : PolicyError → RebalanceError
  of_gateway : GatewayError → RebalanceError
  of_approval : ApprovalError → RebalanceError

abbrev pub is_available : DerivativesOverlayAvailability → Bool
is_available DerivativesOverlayAvailability.available = true
is_available _ = false

abbrev is_usable : Option DerivativesOverlayAvailability → Bool
is_usable none = false
is_usable (some a) = is_available a

abbrev is_long_unwind : Option CrowdingState → Bool
is_long_unwind (some CrowdingState.long_unwind) = true
is_long_unwind _ = false

module _ (fs : Floats) where
  open fs use {Float}

  -- The decision overlay, with the numbers of the snapshot and of the crowding signal.
  pub record Overlay : Type 0 where
    pub decision : BtcDerivativesDecisionOverlay
    pub funding_rate : Option Decimal
    pub basis_input_rate : Option Decimal
    pub global_long_short_ratio : Option Decimal
    pub long_crowding_score : Option Float
    pub bearish_unwind_score : Option Float

-- `BtcDerivativesOverlayProvider.known_at`: the cutoff, the version and the maximum age of the
-- features, and those of the crowding signal. What it raises is caught.
abbrev pub KnownAt : Floats → Type 0
KnownAt fs =
    (as_of : ℕ)
    → (feature_version : String) → (maximum_age : ℕ) → Option String
    → Option ℕ
    → Result OverlayError (Overlay fs)

abbrev pub overlay_modes : List String
overlay_modes = "SHADOW" ∷ "ENTRY_GATE" ∷ "LONG_SHORT_GATE" ∷ "SOFT_PENALTY" ∷ []

abbrev pub gate_modes : List String
gate_modes = "ENTRY_GATE" ∷ "LONG_SHORT_GATE" ∷ "SOFT_PENALTY" ∷ []

abbrev availability_name : DerivativesOverlayAvailability → String
availability_name DerivativesOverlayAvailability.available = "AVAILABLE"
availability_name DerivativesOverlayAvailability.missing = "MISSING"
availability_name DerivativesOverlayAvailability.stale = "STALE"
availability_name DerivativesOverlayAvailability.incomplete = "INCOMPLETE"

abbrev recommendation_name : DerivativesOverlayRecommendation → String
recommendation_name DerivativesOverlayRecommendation.unknown = "UNKNOWN"
recommendation_name DerivativesOverlayRecommendation.no_confirmation = "NO_CONFIRMATION"
recommendation_name DerivativesOverlayRecommendation.wait_for_ignition = "WAIT_FOR_IGNITION"
recommendation_name DerivativesOverlayRecommendation.confirm_risk_on = "CONFIRM_RISK_ON"

-- The first reason that there is.
abbrev pub or_else : Option String → Option String → Option String
or_else (some reason) other = some reason
or_else none other = other

module _ (fs : Floats) (policy : DynamicUniversePolicy fs) where
  open fs use {Float, mul_f, of_decimal}

  abbrev pub unknown_overlay : ℕ → String → Overlay fs
  unknown_overlay as_of reason = record {
    decision = record (missing_overlay as_of "BTCUSDT" policy.derivatives_feature_version) {
      reason_codes = reason ∷ [];
    };
    funding_rate = none;
    basis_input_rate = none;
    global_long_short_ratio = none;
    long_crowding_score = none;
    bearish_unwind_score = none;
  }

  abbrev caught : ℕ → Result OverlayError (Overlay fs) → Overlay fs
  caught as_of (ok overlay) = overlay
  caught as_of (err e) = unknown_overlay as_of "DERIVATIVES_OVERLAY_READ_FAILED"

  abbrev ask : ℕ → KnownAt fs → Result OverlayError (Overlay fs)
  ask as_of known_at =
      if str_eq policy.crowding_overlay_mode "DISABLED"
      then known_at as_of policy.derivatives_feature_version policy.derivatives_maximum_age none
          none
      else known_at as_of policy.derivatives_feature_version policy.derivatives_maximum_age
          (some policy.crowding_feature_version) (some policy.crowding_maximum_age)

  abbrev overlay_by : ℕ → Option (KnownAt fs) → Overlay fs
  overlay_by as_of none = unknown_overlay as_of "DERIVATIVES_OVERLAY_PROVIDER_DISABLED"
  overlay_by as_of (some known_at) = caught as_of (ask as_of known_at)

  -- `_derivatives_overlay`
  unfoldable pub derivatives_overlay :
      ℕ → Option (KnownAt fs) → Result RebalanceError (Option (Overlay fs))
  derivatives_overlay as_of provider =
      if str_eq policy.derivatives_overlay_mode "DISABLED"
      then ok none
      else if not (is_in policy.derivatives_overlay_mode overlay_modes)
      then err RebalanceError.unsupported_overlay_mode
      else ok (some (overlay_by as_of provider))

  -- `_derivatives_overlay_reasons`
  abbrev pub derivatives_overlay_reasons : Option (Overlay fs) → List String
  derivatives_overlay_reasons none = []
  derivatives_overlay_reasons (some o) =
      append "DERIVATIVES_" (
        append policy.derivatives_overlay_mode (
          append "_" (
            append (availability_name o.decision.availability)
              (append "_" (recommendation_name o.decision.recommendation)))))
      ∷ []

  -- `actual is None or actual < minimum`, where there is a minimum.
  abbrev pub fails : Option Decimal → Option Decimal → Bool
  fails actual none = false
  fails none (some minimum) = true
  fails (some actual) (some minimum) = lt_d actual minimum

  abbrev ratio_reason : Overlay fs → Option String
  ratio_reason o =
      if fails o.global_long_short_ratio policy.derivatives_minimum_global_long_short_ratio
      then some "NEW_ENTRY_BLOCKED_BY_LOW_BTC_LONG_SHORT_REGIME"
      else none

  abbrev full_reason : Overlay fs → Option String
  full_reason o =
      if fails o.funding_rate policy.derivatives_minimum_funding_rate
      then some "NEW_ENTRY_BLOCKED_BY_LOW_BTC_FUNDING_REGIME"
      else if fails o.basis_input_rate policy.derivatives_minimum_basis_input_rate
      then some "NEW_ENTRY_BLOCKED_BY_NEGATIVE_BTC_BASIS_REGIME"
      else ratio_reason o

  abbrev no_data : Option String
  no_data = some "NEW_ENTRY_BLOCKED_BY_DERIVATIVES_DATA_UNAVAILABLE"

  abbrev has_numbers : Overlay fs → Bool
  has_numbers o =
      is_some o.funding_rate && is_some o.basis_input_rate && is_some o.global_long_short_ratio

  abbrev available_reason : Overlay fs → Option String
  available_reason o =
      if str_eq policy.derivatives_overlay_mode "SOFT_PENALTY"
      then if has_numbers o then none else no_data
      else if str_eq policy.derivatives_overlay_mode "LONG_SHORT_GATE"
      then ratio_reason o
      else full_reason o

  abbrev gated_reason : Option (Overlay fs) → Option String
  gated_reason none = no_data
  gated_reason (some o) =
      if is_available o.decision.availability then available_reason o else no_data

  -- `_raw_derivatives_entry_block_reason`
  unfoldable pub raw_derivatives_entry_block_reason : Option (Overlay fs) → Option String
  raw_derivatives_entry_block_reason overlay =
      if is_in policy.derivatives_overlay_mode gate_modes then gated_reason overlay else none

  abbrev crowding_no_data : Option String
  crowding_no_data = some "NEW_ENTRY_BLOCKED_BY_CROWDING_DATA_UNAVAILABLE"

  -- Both scores reach their limits, where there are limits.
  abbrev pub crowded : Float → Float → Option Float → Option Float → Bool
  crowded long bearish (some maximum_long) (some maximum_bearish) =
      le_f fs maximum_long long && le_f fs maximum_bearish bearish
  crowded long bearish _ _ = false

  abbrev scored_reason : Overlay fs → Option Float → Option Float → Option String
  scored_reason o (some long) (some bearish) =
      if is_long_unwind o.decision.crowding_state
      then some "NEW_ENTRY_BLOCKED_BY_LONG_CROWDING_UNWIND"
      else if crowded long bearish policy.crowding_maximum_long_score
          policy.crowding_maximum_bearish_unwind_score
      then some "NEW_ENTRY_BLOCKED_BY_LONG_CROWDING_AND_BEARISH_TRIGGER"
      else none
  scored_reason o _ _ = crowding_no_data

  abbrev crowding_reason : Option (Overlay fs) → Option String
  crowding_reason none = crowding_no_data
  crowding_reason (some o) =
      if is_usable o.decision.crowding_availability
      then scored_reason o o.long_crowding_score o.bearish_unwind_score
      else crowding_no_data

  -- `_crowding_entry_block_reason`
  unfoldable pub crowding_entry_block_reason : Option (Overlay fs) → Option String
  crowding_entry_block_reason overlay =
      if str_eq policy.crowding_overlay_mode "ENTRY_GATE" then crowding_reason overlay else none

  -- `_derivatives_entry_block_reason`
  unfoldable pub derivatives_entry_block_reason : Option (Overlay fs) → Option String
  unfolding raw_derivatives_entry_block_reason crowding_entry_block_reason
  derivatives_entry_block_reason overlay =
      or_else (raw_derivatives_entry_block_reason overlay) (crowding_entry_block_reason overlay)

  -- `actual is not None and minimum is not None and actual < minimum`, as a summand.
  abbrev breach : Option Decimal → Option Decimal → ℕ
  breach (some actual) (some minimum) = if lt_d actual minimum then 1 else 0
  breach _ _ = 0

  abbrev breaches : Overlay fs → ℕ
  breaches o =
      breach o.funding_rate policy.derivatives_minimum_funding_rate
      + breach o.basis_input_rate policy.derivatives_minimum_basis_input_rate
      + breach o.global_long_short_ratio policy.derivatives_minimum_global_long_short_ratio

  -- `V28_DERIVATIVES_PENALTY_PER_BREACH`
  abbrev pub penalty_per_breach : Float
  penalty_per_breach = of_decimal (point 5 4)

  abbrev penalty_of : Option (Overlay fs) → Float
  penalty_of none = zero_f fs
  penalty_of (some o) =
      if is_available o.decision.availability
      then mul_f penalty_per_breach (of_decimal (integer (breaches o)))
      else zero_f fs

  -- `_derivatives_cost_penalty`
  unfoldable pub derivatives_cost_penalty : Option (Overlay fs) → Float
  derivatives_cost_penalty overlay =
      if str_eq policy.derivatives_overlay_mode "SOFT_PENALTY"
      then penalty_of overlay
      else zero_f fs

  abbrev policy_crowded : Option Float → Option Float → Bool
  policy_crowded (some long) (some bearish) =
      crowded long bearish policy.crowding_maximum_long_score
        policy.crowding_maximum_bearish_unwind_score
  policy_crowded _ _ = false

  -- The two answers of `_decision_diagnostics` on crowding: `currentCrowdingGate.blocked` and
  -- `policyCrowdingGate.blocked`.
  unfoldable pub crowding_diagnostics : Option (Overlay fs) → Bool × Bool
  unfolding crowding_entry_block_reason
  crowding_diagnostics none = (is_some (crowding_entry_block_reason none), false)
  crowding_diagnostics (some o) = (
    is_some (crowding_entry_block_reason (some o)),
    policy_crowded o.long_crowding_score o.bearish_unwind_score,
  )
