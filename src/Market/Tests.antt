-- ===== src/Market/Tests.antt =====
-- Runs of the trading universe on small inputs, and its theorems at inputs that meet their hypotheses.
use investment_research_engi.Base.{
  ℕ, String, ◌+◌, ◌≡◌, ◌≤◌, refl, Bool, true, false, List, [], ◌∷◌, length, All, str_eq,
}
use investment_research_engi.Base.Dict.{lookup, insert}
use investment_research_engi.Base.Int.{◌+ℤ◌, ◌-ℤ◌}
use investment_research_engi.Base.Order.{str_lt}
use investment_research_engi.Base.Result.{ok, returned}
use investment_research_engi.Base.Sorting.{place, sort_by}
use investment_research_engi.Decimal.{
  integer, ◌+d◌, ◌-d◌, ◌*d◌, ◌/d◌, lt_d, abs_d, align, fix, excess, digit_count, round_half_even,
}
use investment_research_engi.Ledger.Orders.{TradingPair}
use investment_research_engi.Rebalance.Universe
use investment_research_engi.Rebalance.Universe.{UniverseMember, UniverseSnapshot}
use investment_research_engi.Market.{
  MarketCandle, MarketDataBundle, known_at, validate_bundle, validate_candle, validate_universe,
  truncated,
}
use investment_research_engi.Market.Liquidity.{
  PointInTimeLiquidityUniverse, UniverseEligibilityResult, Exclusion, evaluate, evaluate_at, screen,
  average_of, keyed, rank, select, validate,
}
use investment_research_engi.Market.Liquidity.Coverage.{is_explained, evaluate-explains}
use investment_research_engi.Market.Liquidity.Totality.{evaluate-returns}
use investment_research_engi.Market.Liquidity.Lookahead.{past, evaluate-no_lookahead}
use investment_research_engi.Market.Liquidity.Eligibility.{IsEligible, evaluate-IsEligible}

-- Names what a run computes with.
abbrev runs : Bool
unfolding lookup insert str_lt str_eq place sort_by ◌+ℤ◌ ◌-ℤ◌ ◌+d◌ ◌-d◌ ◌*d◌ ◌/d◌ lt_d abs_d align
    fix excess digit_count round_half_even Universe.known_at known_at validate_bundle
    validate_candle validate_universe screen average_of keyed rank select validate evaluate_at
    evaluate
runs = true

abbrev pair_of : String → TradingPair
pair_of base = record { base = base; quote = "KRW" }

abbrev candle : String → ℕ → ℕ → MarketCandle
candle base day volume = record {
  pair = pair_of base;
  open_time = day;
  available_at = day + 1;
  open_price = integer 10;
  high = integer 12;
  low = integer 9;
  close = integer 10;
  volume = integer volume;
}

abbrev member : String → Bool → ℕ → UniverseMember
member base warning day = record { pair = pair_of base; warning = warning; observed_at = day }

-- SOL is listed on day 9 only, and XRP has a warning.
abbrev universe : PointInTimeLiquidityUniverse
universe = record {
  history =
      record {
        observed_at = 1;
        members = member "BTC" false 1 ∷ member "ETH" false 1 ∷ member "XRP" true 1 ∷ [];
      }
      ∷ record { observed_at = 9; members = member "SOL" false 9 ∷ [] }
      ∷ [];
  lookback_days = 2;
  minimum_average_quote_volume = integer 20;
  maximum_assets = 1;
  require_btc = true;
}

abbrev series : String → ℕ → List MarketCandle
series base volume =
    candle base 1 volume ∷ candle base 2 volume ∷ candle base 3 volume ∷ candle base 8 0 ∷ []

abbrev market_data : MarketDataBundle
market_data = record {
  pairs = pair_of "BTC" ∷ pair_of "ETH" ∷ pair_of "XRP" ∷ pair_of "SOL" ∷ [];
  candles =
      ("BTCKRW", series "BTC" 5)
      ∷ ("ETHKRW", series "ETH" 7)
      ∷ ("XRPKRW", series "XRP" 9)
      ∷ ("SOLKRW", series "SOL" 9)
      ∷ [];
}

abbrev result : UniverseEligibilityResult
unfolding runs
result = (returned (evaluate universe market_data 5) refl).0

returns_lem : evaluate universe market_data 5 ≡ ok result
unfolding runs
returns_lem = refl

-- ETH ranks first, and BTC takes its place.
selected_lem : result.eligible_pairs ≡ pair_of "BTC" ∷ []
unfolding runs
selected_lem = refl

excluded_lem :
    result.exclusions
    ≡ ("XRPKRW", Exclusion.market_warning)
      ∷ ("SOLKRW", Exclusion.not_in_latest_known_snapshot)
      ∷ ("ETHKRW", Exclusion.below_liquidity_rank_cutoff)
      ∷ []
unfolding runs
excluded_lem = refl

valid_lem : validate universe ≡ ok universe
unfolding runs
valid_lem = refl

evaluate-no_lookahead_example :
    evaluate (record universe { history = past 6 universe.history }) (truncated 6 market_data) 5
    ≡ evaluate universe market_data 5
evaluate-no_lookahead_example = evaluate-no_lookahead universe market_data 5 6 refl

evaluate-IsEligible_example :
    All (IsEligible universe market_data 5) result.eligible_pairs
    × (length result.eligible_pairs ≤ 1)
evaluate-IsEligible_example =
    evaluate-IsEligible universe universe market_data 5 result valid_lem returns_lem

made_lem : validate_bundle market_data ≡ ok market_data
unfolding runs
made_lem = refl

evaluate-returns_example :
    (result : UniverseEligibilityResult) × (evaluate universe market_data 5 ≡ ok result)
evaluate-returns_example =
    evaluate-returns universe universe market_data market_data 5 valid_lem made_lem

evaluate-explains_example : All (λ p. is_explained result p ≡ true) market_data.pairs
evaluate-explains_example = evaluate-explains universe market_data 5 result returns_lem
