-- ===== src/Rebalance/Policy.antt =====
-- `DynamicUniversePolicy` of src/investment/crypto/application/dynamic_paper_rebalance.py: the numbers
-- and switches of a strategy version. A duration is in microseconds.
pub mod Versions
use investment_research_engi.Base.{
  ℕ, ◌*◌, String, Option, none, List, [], Bool, str_eq, if◌then◌else◌,
}
use investment_research_engi.Base.Int.{pos, negsuc, sub_ℕ}
use investment_research_engi.Decimal.{Decimal, integer, ◌+d◌, ◌*d◌}
use investment_research_engi.Rebalance.Floats.{Floats, max_f}

-- `c / 10 ** k`, as `Decimal` reads it from a literal, and the same below zero.
abbrev pub point : ℕ → ℕ → Decimal
point c k = record { coefficient = pos c; exponent = sub_ℕ 0 k }

abbrev pub below_zero : ℕ → ℕ → Decimal
below_zero c k = record { coefficient = sub_ℕ 0 c; exponent = sub_ℕ 0 k }

abbrev pub minute : ℕ
minute = 60_000_000

abbrev pub hour : ℕ
hour = 60 * minute

module _ (fs : Floats) where
  open fs use {Float, of_decimal}

  -- A literal of the source.
  abbrev pub literal : Decimal → Float
  literal d = of_decimal d

  pub record DynamicUniversePolicy : Type 0 where
    pub strategy_version : String
    pub minimum_history_bars : ℕ
    pub liquidity_lookback_bars : ℕ
    pub maximum_candidates : ℕ
    pub maximum_positions : ℕ
    pub invested_fraction : Decimal
    pub maximum_asset_weight : Decimal
    pub minimum_order_notional : Decimal
    pub minimum_rebalance_fraction : Decimal
    pub exchange_fee_rate : Decimal
    pub estimated_slippage_rate : Decimal
    pub entry_score_hurdle : Float
    pub hold_score_hurdle : Float
    pub exit_score_hurdle : Float
    pub maximum_hold_rank : ℕ
    pub required_entry_confirmations : ℕ
    pub reentry_cooldown : ℕ
    pub minimum_replacement_score_advantage : Float
    pub maximum_daily_turnover_fraction : Decimal
    pub turnover_sell_weight : Decimal
    pub turnover_budget_mode : String
    pub bullish_daily_turnover_fraction : Option Decimal
    pub bullish_btc_minimum_momentum_4h : Float
    pub bullish_btc_minimum_momentum_24h : Float
    pub bullish_market_breadth_minimum : Float
    pub bullish_market_breadth_minimum_candidates : ℕ
    pub maximum_daily_fee_fraction : Decimal
    pub maximum_daily_realized_loss_fraction : Decimal
    pub scoring_method : String
    pub score_scale : String
    pub momentum_1h_weight : Float
    pub momentum_4h_weight : Float
    pub momentum_24h_weight : Float
    pub volatility_weight : Float
    pub minimum_entry_momentum_1h : Option Float
    pub maximum_entry_momentum_1h : Option Float
    pub minimum_entry_momentum_4h : Option Float
    pub maximum_entry_momentum_4h : Option Float
    pub minimum_entry_momentum_24h : Option Float
    pub maximum_entry_momentum_24h : Option Float
    pub maximum_entry_volatility : Option Float
    pub maximum_entry_volatility_quantile : Option Float
    pub minimum_hold_momentum_1h : Option Float
    pub minimum_hold_momentum_24h : Option Float
    pub maximum_hold_volatility : Option Float
    pub maximum_holding_period : Option ℕ
    pub excluded_base_assets : List String
    pub maximum_market_data_age : Option ℕ
    pub extreme_score_penalty_threshold : Option Float
    pub extreme_score_maximum_penalty : Float
    pub expected_return_calibration_mode : String
    pub expected_return_1h_intercept : Float
    pub expected_return_1h_score_slope : Float
    pub expected_return_4h_intercept : Float
    pub expected_return_4h_score_slope : Float
    pub minimum_fee_adjusted_entry_return : Float
    pub minimum_expected_hold_return : Float
    pub minimum_fee_adjusted_replacement_advantage : Float
    pub selection_concentration_lookback : Option ℕ
    pub maximum_selection_concentration : Option Float
    pub selection_concentration_minimum_cohorts : ℕ
    pub rolling_asset_performance_lookback : Option ℕ
    pub rolling_asset_minimum_sells : ℕ
    pub maximum_rolling_asset_realized_loss_fraction : Option Decimal
    pub derivatives_overlay_mode : String
    pub derivatives_feature_version : String
    pub derivatives_maximum_age : ℕ
    pub derivatives_minimum_funding_rate : Option Decimal
    pub derivatives_minimum_basis_input_rate : Option Decimal
    pub derivatives_minimum_global_long_short_ratio : Option Decimal
    pub crowding_overlay_mode : String
    pub crowding_feature_version : String
    pub crowding_maximum_age : ℕ
    pub crowding_maximum_long_score : Option Float
    pub crowding_maximum_bearish_unwind_score : Option Float
    pub maximum_entry_market_data_age : Option ℕ

  -- The fields' defaults.
  abbrev pub default_policy : DynamicUniversePolicy
  default_policy = record {
    strategy_version = "dynamic-intraday-v2.1";
    minimum_history_bars = 7 * 24 * 4;
    liquidity_lookback_bars = 24 * 4;
    maximum_candidates = 20;
    maximum_positions = 3;
    invested_fraction = point 9 1;
    maximum_asset_weight = point 4 1;
    minimum_order_notional = integer 5000;
    minimum_rebalance_fraction = point 2 2;
    exchange_fee_rate = point 5 4;
    estimated_slippage_rate = point 5 4;
    entry_score_hurdle = literal (point 5 3);
    hold_score_hurdle = literal (point 1 3);
    exit_score_hurdle = literal (below_zero 2 3);
    maximum_hold_rank = 8;
    required_entry_confirmations = 2;
    reentry_cooldown = 1 * hour;
    minimum_replacement_score_advantage = literal (point 1 2);
    maximum_daily_turnover_fraction = integer 6;
    turnover_sell_weight = integer 1;
    turnover_budget_mode = "FIXED";
    bullish_daily_turnover_fraction = none;
    bullish_btc_minimum_momentum_4h = literal (integer 0);
    bullish_btc_minimum_momentum_24h = literal (integer 0);
    bullish_market_breadth_minimum = literal (integer 1);
    bullish_market_breadth_minimum_candidates = 10;
    maximum_daily_fee_fraction = point 5 3;
    maximum_daily_realized_loss_fraction = point 2 2;
    scoring_method = "RAW_MOMENTUM";
    score_scale = "EXPECTED_RETURN";
    momentum_1h_weight = literal (point 45 2);
    momentum_4h_weight = literal (point 35 2);
    momentum_24h_weight = literal (point 2 1);
    volatility_weight = literal (below_zero 1 1);
    minimum_entry_momentum_1h = none;
    maximum_entry_momentum_1h = none;
    minimum_entry_momentum_4h = none;
    maximum_entry_momentum_4h = none;
    minimum_entry_momentum_24h = none;
    maximum_entry_momentum_24h = none;
    maximum_entry_volatility = none;
    maximum_entry_volatility_quantile = none;
    minimum_hold_momentum_1h = none;
    minimum_hold_momentum_24h = none;
    maximum_hold_volatility = none;
    maximum_holding_period = none;
    excluded_base_assets = [];
    maximum_market_data_age = none;
    extreme_score_penalty_threshold = none;
    extreme_score_maximum_penalty = literal (integer 0);
    expected_return_calibration_mode = "DISABLED";
    expected_return_1h_intercept = literal (integer 0);
    expected_return_1h_score_slope = literal (integer 0);
    expected_return_4h_intercept = literal (integer 0);
    expected_return_4h_score_slope = literal (integer 0);
    minimum_fee_adjusted_entry_return = literal (integer 0);
    minimum_expected_hold_return = literal (integer 0);
    minimum_fee_adjusted_replacement_advantage = literal (integer 0);
    selection_concentration_lookback = none;
    maximum_selection_concentration = none;
    selection_concentration_minimum_cohorts = 20;
    rolling_asset_performance_lookback = none;
    rolling_asset_minimum_sells = 2;
    maximum_rolling_asset_realized_loss_fraction = none;
    derivatives_overlay_mode = "DISABLED";
    derivatives_feature_version = "btc-squeeze-v1";
    derivatives_maximum_age = 10 * minute;
    derivatives_minimum_funding_rate = none;
    derivatives_minimum_basis_input_rate = none;
    derivatives_minimum_global_long_short_ratio = none;
    crowding_overlay_mode = "DISABLED";
    crowding_feature_version = "btc-crowding-v1";
    crowding_maximum_age = 10 * minute;
    crowding_maximum_long_score = none;
    crowding_maximum_bearish_unwind_score = none;
    maximum_entry_market_data_age = none;
  }

  -- `round_trip_cost_hurdle`
  unfoldable pub round_trip_cost_hurdle : DynamicUniversePolicy → Float
  round_trip_cost_hurdle p =
      of_decimal (integer 2 *d (p.exchange_fee_rate +d p.estimated_slippage_rate))

  -- `effective_entry_score_hurdle`
  unfoldable pub effective_entry_score_hurdle : DynamicUniversePolicy → Float
  effective_entry_score_hurdle p =
      if str_eq p.score_scale "EXPECTED_RETURN"
      then max_f fs p.entry_score_hurdle (round_trip_cost_hurdle p)
      else p.entry_score_hurdle
