-- ===== src/Market.antt =====
-- src/investment/crypto/domain/market.py: the pairs of a universe, their candles, and which of these were
-- known at a time. An asset is its symbol, and a time a natural number.
pub mod Liquidity
mod Tests
use investment_research_engi.Base.{
  ℕ, String, Bool, true, false, Option, none, some, List, [], ◌∷◌, ◌&&◌, ◌||◌, not, any, all, keep,
  map, str_eq, leb, ltb, if◌then◌else◌,
}
use investment_research_engi.Base.Dict.{Dict, lookup}
use investment_research_engi.Base.Result.{Result, ok, ◌>>◌, raise_if}
use investment_research_engi.Decimal.{Decimal, lt_d, le_d, zero_d}
use investment_research_engi.Ledger.Orders.{TradingPair}
use investment_research_engi.Ledger.Exchange.{symbol_of}

pub data MarketError : Type 0 where
  early_candle nonpositive_price negative_volume invalid_range empty_universe duplicate_pairs
        mixed_quotes missing_pair unordered_candles unknown_symbol division_by_zero invalid_lookback
        negative_liquidity :
      MarketError

pub record MarketCandle : Type 0 where
  pub pair : TradingPair
  pub open_time : ℕ
  pub available_at : ℕ
  pub open_price : Decimal
  pub high : Decimal
  pub low : Decimal
  pub close : Decimal
  pub volume : Decimal

-- Python's `min` and `max` of two
abbrev min_d : Decimal → Decimal → Decimal
min_d a b = if lt_d b a then b else a

abbrev max_d : Decimal → Decimal → Decimal
max_d a b = if lt_d a b then b else a

-- `MarketCandle.__post_init__`
unfoldable pub validate_candle : MarketCandle → Result MarketError MarketCandle
validate_candle c = do
  raise_if (ltb c.available_at c.open_time) MarketError.early_candle
  raise_if (le_d (min_d (min_d (min_d c.open_price c.high) c.low) c.close) zero_d)
      MarketError.nonpositive_price
  raise_if (lt_d c.volume zero_d) MarketError.negative_volume
  raise_if (lt_d c.high (max_d c.open_price c.close) || lt_d (min_d c.open_price c.close) c.low)
      MarketError.invalid_range
  ok c

abbrev repeats : List String → Bool
repeats [] = false
repeats (x ∷ xs) = any (λ y. str_eq y x) xs || repeats xs

abbrev is_mixed : List TradingPair → Bool
is_mixed [] = false
is_mixed (p ∷ ps) = any (λ q. not (str_eq p.quote q.quote)) ps

abbrev is_empty : List TradingPair → Bool
is_empty [] = true
is_empty (p ∷ ps) = false

-- `TradingUniverse.__post_init__`
unfoldable pub validate_universe : List TradingPair → Result MarketError (List TradingPair)
validate_universe pairs = do
  raise_if (is_empty pairs) MarketError.empty_universe
  raise_if (repeats (map symbol_of pairs)) MarketError.duplicate_pairs
  raise_if (is_mixed pairs) MarketError.mixed_quotes
  ok pairs

-- The pairs are those of the bundle's universe.
pub record MarketDataBundle : Type 0 where
  pub pairs : List TradingPair
  pub candles : Dict (List MarketCandle)

-- `any(left.open_time >= right.open_time for left, right in zip(values, values[1:]))`
abbrev pub is_disordered : List MarketCandle → Bool
is_disordered [] = false
is_disordered (x ∷ []) = false
is_disordered (x ∷ y ∷ rest) = leb y.open_time x.open_time || is_disordered (y ∷ rest)

abbrev pub has_some {ℓ} : {A : Type ℓ} → Option A → Bool
has_some none = false
has_some (some x) = true

-- `MarketDataBundle.__post_init__`
unfoldable pub validate_bundle : MarketDataBundle → Result MarketError MarketDataBundle
validate_bundle b = do
  raise_if (not (all (λ p. has_some (lookup (symbol_of p) b.candles)) b.pairs))
      MarketError.missing_pair
  raise_if (any (λ entry. is_disordered entry.1) b.candles) MarketError.unordered_candles
  ok b

abbrev pub known_candles : ℕ → List MarketCandle → List MarketCandle
known_candles cutoff candles = keep (λ c. leb c.available_at cutoff) candles

abbrev pub known_entries : ℕ → Dict (List MarketCandle) → Dict (List MarketCandle)
known_entries cutoff [] = []
known_entries cutoff ((symbol, values) ∷ d) =
    (symbol, known_candles cutoff values) ∷ known_entries cutoff d

-- The bundle without the candles that became available after the cutoff.
abbrev pub truncated : ℕ → MarketDataBundle → MarketDataBundle
truncated cutoff b = record { pairs = b.pairs; candles = known_entries cutoff b.candles }

-- `MarketDataBundle.known_at`
unfoldable pub known_at : MarketDataBundle → ℕ → Result MarketError MarketDataBundle
known_at b as_of = validate_bundle (truncated as_of b)
