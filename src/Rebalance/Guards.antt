-- ===== src/Rebalance/Guards.antt =====
-- The guards of src/investment/crypto/application/dynamic_paper_rebalance.py on one candidate:
-- `_entry_guard_reason`, `_hold_guard_reason`, `_entry_volatility_cap` and the tests on expected returns.
use investment_research_engi.Base.{
  ℕ, zero, suc, String, Bool, true, false, Option, none, some, List, [], ◌∷◌, if◌then◌else◌, str_eq,
  length, min,
}
use investment_research_engi.Base.Int.{pos_part}
use investment_research_engi.Base.Sorting.{sort_by}
use investment_research_engi.Decimal.{integer}
use investment_research_engi.Rebalance.Floats.{Floats, le_f, min_f}
use investment_research_engi.Rebalance.Policy.{DynamicUniversePolicy, round_trip_cost_hurdle}
use investment_research_engi.Rebalance.Candidates.{CandidateAssessment}

module _ (fs : Floats) where
  open fs use {Float, lt_f, sub_f, mul_f, of_decimal, truncate}

  -- `limit is not None and value is not None and value < limit`, and `value > limit`.
  abbrev pub is_under : Option Float → Option Float → Bool
  is_under (some limit) (some value) = lt_f value limit
  is_under _ _ = false

  abbrev pub is_over : Option Float → Option Float → Bool
  is_over (some limit) (some value) = lt_f limit value
  is_over _ _ = false

  abbrev otherwise : Bool → String → Option String → Option String
  otherwise true reason rest = some reason
  otherwise false reason rest = rest

  module _ (policy : DynamicUniversePolicy fs) where
    unfoldable pub entry_guard_reason : CandidateAssessment fs → Option Float → Option String
    entry_guard_reason item volatility_cap =
        otherwise (is_under policy.minimum_entry_momentum_1h item.momentum_1h)
          "NEW_ENTRY_BLOCKED_BY_FALLING_KNIFE_GUARD"
          (otherwise (is_over policy.maximum_entry_momentum_1h item.momentum_1h)
            "NEW_ENTRY_BLOCKED_BY_SHORT_TERM_SPIKE_GUARD"
            (otherwise (is_under policy.minimum_entry_momentum_4h item.momentum_4h)
              "NEW_ENTRY_BLOCKED_BY_4H_FALLING_KNIFE_GUARD"
              (otherwise (is_over policy.maximum_entry_momentum_4h item.momentum_4h)
                "NEW_ENTRY_BLOCKED_BY_4H_SPIKE_GUARD"
                (otherwise (is_under policy.minimum_entry_momentum_24h item.momentum_24h)
                  "NEW_ENTRY_BLOCKED_BY_24H_TREND_GUARD"
                  (otherwise (is_over policy.maximum_entry_momentum_24h item.momentum_24h)
                    "NEW_ENTRY_BLOCKED_BY_24H_SPIKE_GUARD"
                    (otherwise (is_over volatility_cap item.volatility)
                      "NEW_ENTRY_BLOCKED_BY_VOLATILITY_GUARD" none))))))

    unfoldable pub hold_guard_reason : CandidateAssessment fs → Option String
    hold_guard_reason item =
        otherwise (is_under policy.minimum_hold_momentum_1h item.momentum_1h)
          "HOLD_BLOCKED_BY_FALLING_KNIFE_GUARD"
          (otherwise (is_under policy.minimum_hold_momentum_24h item.momentum_24h)
            "HOLD_BLOCKED_BY_24H_TREND_GUARD"
            (otherwise (is_over policy.maximum_hold_volatility item.volatility)
              "HOLD_BLOCKED_BY_VOLATILITY_GUARD" none))

    abbrev with_value : Option Float → List Float → List Float
    with_value none values = values
    with_value (some v) values = v ∷ values

    abbrev volatilities : List (CandidateAssessment fs) → List Float
    volatilities [] = []
    volatilities (item ∷ items) = with_value item.volatility (volatilities items)

    abbrev at_index : ℕ → List Float → Option Float
    at_index n [] = none
    at_index zero (x ∷ xs) = some x
    at_index (suc n) (x ∷ xs) = at_index n xs

    abbrev capped : Option Float → Option Float → Option Float
    capped none relative = relative
    capped absolute none = absolute
    capped (some absolute) (some relative) = some (min_f fs absolute relative)

    -- `int((len(values) - 1) * quantile)`, kept between 0 and the last index.
    abbrev quantile_index : ℕ → Float → ℕ
    quantile_index last quantile =
        min last (pos_part (truncate (mul_f (of_decimal (integer last)) quantile)))

    abbrev cap_of : Option Float → Option Float → List Float → Option Float
    cap_of absolute none values = absolute
    cap_of absolute (some quantile) [] = absolute
    cap_of absolute (some quantile) (v ∷ vs) =
        capped absolute (at_index (quantile_index (length vs) quantile) (v ∷ vs))

    unfoldable pub entry_volatility_cap : List (CandidateAssessment fs) → Option Float
    unfolding sort_by
    entry_volatility_cap assessments =
        cap_of policy.maximum_entry_volatility policy.maximum_entry_volatility_quantile
          (sort_by lt_f (volatilities assessments))

    abbrev both_min : Option Float → Option Float → Option Float
    both_min (some a) (some b) = some (min_f fs a b)
    both_min _ _ = none

    -- `_conservative_expected_relative_return`
    abbrev pub conservative_return : CandidateAssessment fs → Option Float
    conservative_return item =
        both_min item.expected_relative_return_1h item.expected_relative_return_4h

    abbrev pub is_uncalibrated : Bool
    is_uncalibrated = str_eq policy.expected_return_calibration_mode "DISABLED"

    -- `value is not None and value >= minimum`, and the same for a missing value.
    abbrev pub reaches : Option Float → Float → Bool
    reaches none minimum = false
    reaches (some value) minimum = le_f fs minimum value

    abbrev pub absent_or_reaches : Option Float → Float → Bool
    absent_or_reaches none minimum = true
    absent_or_reaches (some value) minimum = le_f fs minimum value

    unfoldable pub fee_adjusted_entry_return_passes : CandidateAssessment fs → Bool
    fee_adjusted_entry_return_passes item =
        if is_uncalibrated
        then true
        else reaches item.fee_adjusted_expected_return policy.minimum_fee_adjusted_entry_return

    unfoldable pub expected_hold_return_passes : CandidateAssessment fs → Bool
    expected_hold_return_passes item =
        if is_uncalibrated
        then true
        else absent_or_reaches (conservative_return item) policy.minimum_expected_hold_return

    abbrev net_advantage : Option Float → Option Float → Option Float
    net_advantage (some entrant) (some incumbent) =
        some (sub_f (sub_f entrant incumbent) (round_trip_cost_hurdle fs policy))
    net_advantage _ _ = none

    unfoldable pub fee_adjusted_replacement_passes :
        CandidateAssessment fs → CandidateAssessment fs → Bool
    unfolding round_trip_cost_hurdle
    fee_adjusted_replacement_passes entrant incumbent =
        if is_uncalibrated
        then true
        else reaches (net_advantage (conservative_return entrant) (conservative_return incumbent))
            policy.minimum_fee_adjusted_replacement_advantage
