-- ===== src/Rebalance/Policy/Versions.antt =====
-- `dynamic_policy_for_version` of src/investment/crypto/application/dynamic_paper_rebalance.py: the
-- published strategy versions, each a change of an earlier one.
use investment_research_engi.Base.{◌*◌, String, Option, none, some, List, [], ◌∷◌}
use investment_research_engi.Base.Dict.{lookup}
use investment_research_engi.Decimal.{integer}
use investment_research_engi.Rebalance.Floats.{Floats}
use investment_research_engi.Rebalance.Policy.{
  DynamicUniversePolicy, default_policy, point, below_zero, minute, hour, literal,
}

module _ (fs : Floats) where
  abbrev pub v2_2 : DynamicUniversePolicy fs
  v2_2 = record (default_policy fs) {
    strategy_version = "dynamic-intraday-v2.2";
    maximum_positions = 2;
    invested_fraction = point 5 1;
    maximum_asset_weight = point 25 2;
    entry_score_hurdle = literal fs (point 6 1);
    hold_score_hurdle = literal fs (point 45 2);
    exit_score_hurdle = literal fs (point 45 2);
    maximum_hold_rank = 6;
    required_entry_confirmations = 3;
    reentry_cooldown = 2 * hour;
    minimum_replacement_score_advantage = literal fs (point 15 2);
    maximum_daily_turnover_fraction = integer 2;
    maximum_daily_fee_fraction = point 3 3;
    maximum_daily_realized_loss_fraction = point 1 2;
    scoring_method = "CALM_PULLBACK_RANK";
    score_scale = "UNIT_INTERVAL";
    momentum_1h_weight = literal fs (point 45 2);
    momentum_4h_weight = literal fs (point 2 1);
    momentum_24h_weight = literal fs (point 1 1);
    volatility_weight = literal fs (point 25 2);
    minimum_entry_momentum_1h = some (literal fs (below_zero 15 3));
    maximum_entry_momentum_1h = some (literal fs (point 5 3));
    minimum_entry_momentum_4h = some (literal fs (below_zero 3 2));
    maximum_entry_momentum_4h = some (literal fs (point 15 3));
    minimum_entry_momentum_24h = some (literal fs (below_zero 8 2));
    maximum_entry_momentum_24h = some (literal fs (point 8 2));
    maximum_entry_volatility = some (literal fs (point 12 3));
    maximum_entry_volatility_quantile = some (literal fs (point 8 1));
    minimum_hold_momentum_1h = some (literal fs (below_zero 4 2));
    minimum_hold_momentum_24h = some (literal fs (below_zero 8 2));
    maximum_hold_volatility = some (literal fs (point 12 3));
    maximum_holding_period = some (4 * hour);
    excluded_base_assets =
        "DAI" ∷ "RLUSD" ∷ "USD1" ∷ "USDC" ∷ "USDE" ∷ "USDG" ∷ "USDS" ∷ "USDT" ∷ [];
  }

  abbrev pub v2_3 : DynamicUniversePolicy fs
  v2_3 = record v2_2 {
    strategy_version = "dynamic-intraday-v2.3";
    turnover_sell_weight = point 5 1;
    turnover_budget_mode = "BULLISH_REGIME";
    bullish_daily_turnover_fraction = some (integer 3);
    bullish_btc_minimum_momentum_4h = literal fs (point 1 2);
    bullish_btc_minimum_momentum_24h = literal fs (point 3 2);
    bullish_market_breadth_minimum = literal fs (point 65 2);
    bullish_market_breadth_minimum_candidates = 10;
  }

  abbrev pub v2_4 : DynamicUniversePolicy fs
  v2_4 = record v2_3 {
    strategy_version = "dynamic-intraday-v2.4";
    maximum_market_data_age = some (30 * minute);
    extreme_score_penalty_threshold = some (literal fs (point 8 1));
    extreme_score_maximum_penalty = literal fs (point 25 2);
    expected_return_calibration_mode = "SCORE_LINEAR";
    expected_return_1h_intercept = literal fs (below_zero 5 3);
    expected_return_1h_score_slope = literal fs (point 1 2);
    expected_return_4h_intercept = literal fs (below_zero 8 3);
    expected_return_4h_score_slope = literal fs (point 16 3);
    minimum_fee_adjusted_entry_return = literal fs (integer 0);
    minimum_expected_hold_return = literal fs (integer 0);
    minimum_fee_adjusted_replacement_advantage = literal fs (point 1 3);
    selection_concentration_lookback = some (24 * hour);
    maximum_selection_concentration = some (literal fs (point 25 2));
    selection_concentration_minimum_cohorts = 20;
    rolling_asset_performance_lookback = some (72 * hour);
    rolling_asset_minimum_sells = 2;
    maximum_rolling_asset_realized_loss_fraction = some ((point 5 3));
    derivatives_overlay_mode = "SHADOW";
    derivatives_feature_version = "btc-squeeze-v2-market-streams";
    derivatives_maximum_age = 10 * minute;
  }

  abbrev pub v2_5 : DynamicUniversePolicy fs
  v2_5 = record v2_4 {
    strategy_version = "dynamic-intraday-v2.5";
    minimum_entry_momentum_4h = some (literal fs (integer 0));
    derivatives_feature_version = "btc-squeeze-v3-mark-index-basis-proxy";
  }

  abbrev pub v2_6 : DynamicUniversePolicy fs
  v2_6 = record v2_5 {
    strategy_version = "dynamic-intraday-v2.6";
    minimum_entry_momentum_4h = some (literal fs (below_zero 3 2));
    maximum_entry_momentum_4h = some (literal fs (point 5 3));
    maximum_entry_volatility = some (literal fs (point 3 3));
    maximum_entry_volatility_quantile = some (literal fs (point 5 1));
    maximum_holding_period = some (1 * hour);
    extreme_score_penalty_threshold = some (literal fs (point 7 1));
    extreme_score_maximum_penalty = literal fs (point 35 2);
    derivatives_overlay_mode = "ENTRY_GATE";
    derivatives_minimum_funding_rate = some ((point 5 5));
    derivatives_minimum_basis_input_rate = some ((below_zero 5 4));
    derivatives_minimum_global_long_short_ratio = some ((integer 1));
  }

  abbrev pub v2_7 : DynamicUniversePolicy fs
  v2_7 = record v2_6 {
    strategy_version = "dynamic-intraday-v2.7";
    minimum_entry_momentum_1h = some (literal fs (below_zero 7 3));
    reentry_cooldown = 4 * hour;
    crowding_overlay_mode = "ENTRY_GATE";
    crowding_feature_version = "btc-crowding-v1";
    crowding_maximum_age = 10 * minute;
    crowding_maximum_long_score = some (literal fs (point 7 1));
    crowding_maximum_bearish_unwind_score = some (literal fs (point 55 2));
  }

  abbrev pub v2_7_accuracy_v1 : DynamicUniversePolicy fs
  v2_7_accuracy_v1 = record v2_7 {
    strategy_version = "dynamic-intraday-v2.7-accuracy-v1";
    maximum_entry_market_data_age = some (20 * minute);
  }

  -- The versions 2.8 change the overlay modes of the accuracy patch.
  abbrev pub v2_8_production_control : DynamicUniversePolicy fs
  v2_8_production_control = record v2_7_accuracy_v1 {
    strategy_version = "dynamic-intraday-v2.8-production-control";
  }

  abbrev pub v2_8_momentum : DynamicUniversePolicy fs
  v2_8_momentum = record v2_7_accuracy_v1 {
    strategy_version = "dynamic-intraday-v2.8-momentum";
    derivatives_overlay_mode = "SHADOW";
    derivatives_minimum_funding_rate = none;
    derivatives_minimum_basis_input_rate = none;
    derivatives_minimum_global_long_short_ratio = none;
    crowding_overlay_mode = "SHADOW";
    crowding_maximum_long_score = none;
    crowding_maximum_bearish_unwind_score = none;
  }

  abbrev gated : String → String → DynamicUniversePolicy fs
  gated version mode = record v2_7_accuracy_v1 {
    strategy_version = version;
    derivatives_overlay_mode = mode;
    crowding_overlay_mode = "SHADOW";
    crowding_maximum_long_score = none;
    crowding_maximum_bearish_unwind_score = none;
  }

  -- The versions 2.9 each change one thing of the 2.8 control.
  abbrev pub v2_9_volatility_relaxed : DynamicUniversePolicy fs
  v2_9_volatility_relaxed = record v2_8_production_control {
    strategy_version = "dynamic-intraday-v2.9-volatility-relaxed";
    maximum_entry_volatility = some (literal fs (point 18 3));
    maximum_entry_volatility_quantile = none;
  }

  abbrev pub v2_9_pullback_window : DynamicUniversePolicy fs
  v2_9_pullback_window = record v2_8_production_control {
    strategy_version = "dynamic-intraday-v2.9-pullback-window";
    minimum_entry_momentum_1h = some (literal fs (below_zero 3 2));
    maximum_entry_momentum_1h = some (literal fs (below_zero 7 3));
    minimum_entry_momentum_4h = some (literal fs (below_zero 3 2));
    maximum_entry_momentum_4h = some (literal fs (below_zero 8 3));
  }

  -- The versions with their policies; `None` is the ValueError of an unknown version.
  abbrev pub published : List (String × DynamicUniversePolicy fs)
  published =
      ("dynamic-intraday-v2.1", default_policy fs)
      ∷ ("dynamic-intraday-v2.2", v2_2)
      ∷ ("dynamic-intraday-v2.3", v2_3)
      ∷ ("dynamic-intraday-v2.4", v2_4)
      ∷ ("dynamic-intraday-v2.5", v2_5)
      ∷ ("dynamic-intraday-v2.6", v2_6)
      ∷ ("dynamic-intraday-v2.7", v2_7)
      ∷ ("dynamic-intraday-v2.7-accuracy-v1", v2_7_accuracy_v1)
      ∷ ("dynamic-intraday-v2.8-production-control", v2_8_production_control)
      ∷ ("dynamic-intraday-v2.8-momentum", v2_8_momentum)
      ∷ (
        "dynamic-intraday-v2.8-long-short",
        gated "dynamic-intraday-v2.8-long-short" "LONG_SHORT_GATE",
      )
      ∷ (
        "dynamic-intraday-v2.8-soft-penalty",
        gated "dynamic-intraday-v2.8-soft-penalty" "SOFT_PENALTY",
      )
      ∷ (
        "dynamic-intraday-v2.9-production-control",
        record v2_8_production_control {
          strategy_version = "dynamic-intraday-v2.9-production-control";
        },
      )
      ∷ ("dynamic-intraday-v2.9-volatility-relaxed", v2_9_volatility_relaxed)
      ∷ ("dynamic-intraday-v2.9-pullback-window", v2_9_pullback_window)
      ∷ (
        "dynamic-intraday-v2.9-concentration-relaxed",
        record v2_8_production_control {
          strategy_version = "dynamic-intraday-v2.9-concentration-relaxed";
          maximum_selection_concentration = some (literal fs (point 5 1));
        },
      )
      ∷ []

  unfoldable pub dynamic_policy_for_version : String → Option (DynamicUniversePolicy fs)
  unfolding lookup
  dynamic_policy_for_version version = lookup version published
