-- ===== src/Market/Liquidity.antt =====
-- src/investment/crypto/universe/liquidity.py: which pairs may be traded at a time, by membership,
-- warning, history and trailing liquidity.
pub mod Lookahead
pub mod Selection
pub mod Ranking
pub mod Recording
pub mod Coverage
pub mod Totality
pub mod Eligibility
use investment_research_engi.Base.{
  ℕ, zero, suc, ◌-◌, String, Bool, true, false, Option, none, some, List, [], ◌∷◌, ◌++◌, ◌&&◌, ◌||◌,
  not, any, map, length, take, str_eq, ltb, ◌==◌, if◌then◌else◌,
}
use investment_research_engi.Base.Dict.{Dict, lookup, insert}
use investment_research_engi.Base.Order.{str_lt}
use investment_research_engi.Base.Result.{Result, ok, err, ◌>>=◌, ◌>>◌, raise_if}
use investment_research_engi.Base.Sorting.{sort_by}
use investment_research_engi.Decimal.{Decimal, ◌+d◌, ◌*d◌, ◌/d◌, lt_d, eq_d, integer, zero_d}
use investment_research_engi.Ledger.Orders.{TradingPair}
use investment_research_engi.Ledger.Exchange.{symbol_of}
use investment_research_engi.Rebalance.Universe
use investment_research_engi.Rebalance.Universe.{UniverseMember, UniverseSnapshot}
use investment_research_engi.Market.{MarketError, MarketCandle, MarketDataBundle, known_at}

pub record PointInTimeLiquidityUniverse : Type 0 where
  pub history : List UniverseSnapshot
  pub lookback_days : ℕ
  pub minimum_average_quote_volume : Decimal
  pub maximum_assets : ℕ
  pub require_btc : Bool

-- `PointInTimeLiquidityUniverse.__post_init__`
unfoldable pub validate :
    PointInTimeLiquidityUniverse → Result MarketError PointInTimeLiquidityUniverse
validate u = do
  raise_if (u.lookback_days == 0 || u.maximum_assets == 0) MarketError.invalid_lookback
  raise_if (lt_d u.minimum_average_quote_volume zero_d) MarketError.negative_liquidity
  ok u

pub data Exclusion : Type 0 where
  no_membership_snapshot not_in_latest_known_snapshot market_warning insufficient_history
        insufficient_liquidity below_liquidity_rank_cutoff :
      Exclusion

pub record UniverseEligibilityResult : Type 0 where
  pub as_of : ℕ
  pub snapshot_observed_at : Option ℕ
  pub eligible_pairs : List TradingPair
  pub average_quote_volume : Dict Decimal
  pub exclusions : Dict Exclusion

-- The variables that the loop over the pairs writes.
pub record Screening : Type 0 where
  pub liquidity : Dict Decimal
  pub exclusions : Dict Exclusion
  pub eligible : List TradingPair

abbrev pub unscreened : Screening
unscreened = record { liquidity = []; exclusions = []; eligible = [] }

abbrev pub exclude : TradingPair → Exclusion → Screening → Screening
exclude pair reason s = record s { exclusions = insert (symbol_of pair) reason s.exclusions }

abbrev pub drop : ℕ → List MarketCandle → List MarketCandle
drop zero xs = xs
drop (suc n) [] = []
drop (suc n) (x ∷ xs) = drop n xs

-- `candles[-lookback_days:]`
abbrev pub window : ℕ → List MarketCandle → List MarketCandle
window n candles = drop (length candles - n) candles

-- `sum((candle.close * candle.volume for candle in window), Decimal("0"))`
abbrev pub quote_volume : Decimal → List MarketCandle → Decimal
quote_volume total [] = total
quote_volume total (c ∷ cs) = quote_volume (total +d (c.close *d c.volume)) cs

abbrev divided : Option Decimal → Result MarketError Decimal
divided none = err MarketError.division_by_zero
divided (some d) = ok d

unfoldable pub average_of : List MarketCandle → Result MarketError Decimal
average_of candles = divided (quote_volume zero_d candles /d integer (length candles))

abbrev pub rate : PointInTimeLiquidityUniverse → TradingPair → Decimal → Screening → Screening
rate u pair average s =
    let rated : Screening = record s { liquidity = insert (symbol_of pair) average s.liquidity } in
    if lt_d average u.minimum_average_quote_volume
    then exclude pair Exclusion.insufficient_liquidity rated
    else record rated { eligible = rated.eligible ++ (pair ∷ []) }

abbrev pub screen_candles :
    PointInTimeLiquidityUniverse
    → TradingPair
    → Screening
    → Option (List MarketCandle)
    → Result MarketError Screening
screen_candles u pair s none = err MarketError.unknown_symbol
screen_candles u pair s (some candles) =
    if ltb (length candles) u.lookback_days
    then ok (exclude pair Exclusion.insufficient_history s)
    else (do average ← average_of (window u.lookback_days candles); ok (rate u pair average s))

abbrev pub screen_member :
    PointInTimeLiquidityUniverse
    → Dict (List MarketCandle)
    → TradingPair
    → Screening
    → Option UniverseMember
    → Result MarketError Screening
screen_member u candles pair s none = ok (exclude pair Exclusion.not_in_latest_known_snapshot s)
screen_member u candles pair s (some member) =
    if member.warning
    then ok (exclude pair Exclusion.market_warning s)
    else screen_candles u pair s (lookup (symbol_of pair) candles)

-- `for pair in market_data.universe.pairs`
unfoldable pub screen :
    PointInTimeLiquidityUniverse
    → Dict UniverseMember
    → Dict (List MarketCandle)
    → List TradingPair
    → Screening
    → Result MarketError Screening
screen u membership candles [] s = ok s
screen u membership candles (pair ∷ pairs) s = do
  s' ← screen_member u candles pair s (lookup (symbol_of pair) membership)
  screen u membership candles pairs s'

-- `{member.pair.symbol: member for member in snapshot.members}`
abbrev pub membership_of : Dict UniverseMember → List UniverseMember → Dict UniverseMember
membership_of d [] = d
membership_of d (m ∷ ms) = membership_of (insert (symbol_of m.pair) m d) ms

-- `liquidity[pair.symbol]`
abbrev pub rating : Option Decimal → Result MarketError Decimal
rating none = err MarketError.unknown_symbol
rating (some d) = ok d

-- Each pair with the first part of its key; `sorted` computes all keys before it compares any.
unfoldable pub keyed :
    Dict Decimal → List TradingPair → Result MarketError (List (Decimal × TradingPair))
keyed liquidity [] = ok []
keyed liquidity (p ∷ ps) = do
  value ← rating (lookup (symbol_of p) liquidity)
  rest ← keyed liquidity ps
  ok ((value, p) ∷ rest)

-- `key=lambda pair: (-liquidity[pair.symbol], pair.symbol)`
abbrev pub ranks_before : Decimal × TradingPair → Decimal × TradingPair → Bool
ranks_before (a, p) (b, q) = lt_d b a || (eq_d a b && str_lt (symbol_of p) (symbol_of q))

-- `ranked`
unfoldable pub rank : Screening → Result MarketError (List TradingPair)
unfolding sort_by
rank s = do pairs ← keyed s.liquidity s.eligible; ok (map (λ k. k.1) (sort_by ranks_before pairs))

abbrev pub first_btc : List TradingPair → Option TradingPair
first_btc [] = none
first_btc (p ∷ ps) = if str_eq p.base "BTC" then some p else first_btc ps

abbrev pub pair_eq : TradingPair → TradingPair → Bool
pair_eq p q = str_eq p.base q.base && str_eq p.quote q.quote

-- `[*selected[:-1], btc] if selected else [btc]`
abbrev pub replace_last : TradingPair → List TradingPair → List TradingPair
replace_last btc [] = btc ∷ []
replace_last btc (x ∷ []) = btc ∷ []
replace_last btc (x ∷ y ∷ rest) = x ∷ replace_last btc (y ∷ rest)

abbrev pub with_btc : Option TradingPair → List TradingPair → List TradingPair
with_btc none selected = selected
with_btc (some btc) selected =
    if any (pair_eq btc) selected then selected else replace_last btc selected

unfoldable pub select : PointInTimeLiquidityUniverse → List TradingPair → List TradingPair
select u ranked =
    let selected = take u.maximum_assets ranked in
    if u.require_btc then with_btc (first_btc ranked) selected else selected

-- `for pair in eligible: if pair.symbol not in selected_symbols`
abbrev pub cut_off : List String → List TradingPair → Dict Exclusion → Dict Exclusion
cut_off selected [] d = d
cut_off selected (p ∷ ps) d = cut_off selected ps (
    if any (str_eq (symbol_of p)) selected
    then d
    else insert (symbol_of p) Exclusion.below_liquidity_rank_cutoff d)

abbrev pub without_snapshot : List TradingPair → Dict Exclusion → Dict Exclusion
without_snapshot [] d = d
without_snapshot (p ∷ ps) d =
    without_snapshot ps (insert (symbol_of p) Exclusion.no_membership_snapshot d)

abbrev pub conclude :
    PointInTimeLiquidityUniverse
    → ℕ
    → UniverseSnapshot
    → Screening
    → List TradingPair
    → UniverseEligibilityResult
conclude u as_of snapshot s ranked =
    let selected = select u ranked in
    record {
      as_of = as_of;
      snapshot_observed_at = some snapshot.observed_at;
      eligible_pairs = selected;
      average_quote_volume = s.liquidity;
      exclusions = cut_off (map symbol_of selected) s.eligible s.exclusions;
    }

unfoldable pub evaluate_at :
    PointInTimeLiquidityUniverse
    → MarketDataBundle
    → ℕ
    → Option UniverseSnapshot
    → Result MarketError UniverseEligibilityResult
evaluate_at u market_data as_of none = ok (record {
  as_of = as_of;
  snapshot_observed_at = none;
  eligible_pairs = [];
  average_quote_volume = [];
  exclusions = without_snapshot market_data.pairs [];
})
evaluate_at u market_data as_of (some snapshot) = do
  known ← known_at market_data as_of
  s ← screen u (membership_of [] snapshot.members) known.candles market_data.pairs unscreened
  ranked ← rank s
  ok (conclude u as_of snapshot s ranked)

-- `evaluate`
unfoldable pub evaluate :
    PointInTimeLiquidityUniverse
    → MarketDataBundle
    → ℕ
    → Result MarketError UniverseEligibilityResult
evaluate u market_data as_of = evaluate_at u market_data as_of (Universe.known_at u.history as_of)
