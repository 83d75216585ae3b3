-- ===== src/Rebalance/Assess.antt =====
-- `_assess` of src/investment/crypto/application/dynamic_paper_rebalance.py: the markets of a snapshot as
-- candidates. The provider of market data is a parameter: no answer is its FileNotFoundError.
use investment_research_engi.Base.{
  ℕ, zero, suc, ◌+◌, ◌-◌, ◌*◌, min, String, Bool, true, false, Option, none, some, List, [], ◌∷◌,
  ◌&&◌, not, if◌then◌else◌, str_eq, length, keep, map, ltb, leb, ◌==◌,
}
use investment_research_engi.Base.Dict.{Dict, insert}
use investment_research_engi.Base.Result.{Result, ok, err, ◌>>=◌}
use investment_research_engi.Decimal.{Decimal, ◌+d◌, ◌*d◌, ◌/d◌, zero_d, integer}
use investment_research_engi.Ledger.Orders.{TradingPair}
use investment_research_engi.Ledger.Exchange.{symbol_of}
use investment_research_engi.Rebalance.Floats.{Floats}
use investment_research_engi.Rebalance.Policy.{DynamicUniversePolicy, minute}
use investment_research_engi.Rebalance.Candidates.{CandidateAssessment, is_in}
use investment_research_engi.Rebalance.Gates.{RebalanceError}
use investment_research_engi.Rebalance.Scoring.{score_assessments}
use investment_research_engi.Rebalance.Universe.{UniverseMember, UniverseSnapshot}

-- `MarketCandle`, the fields that are read.
pub record MarketCandle : Type 0 where
  pub available_at : ℕ
  pub close : Decimal
  pub volume : Decimal

-- `CryptoMarketDataProvider.fetch` for one pair, from a start to an end.
abbrev pub Fetch : Type 0
Fetch = TradingPair → (start end : ℕ) → Option (List MarketCandle)

abbrev pub last_candle : List MarketCandle → Option MarketCandle
last_candle [] = none
last_candle (x ∷ []) = some x
last_candle (x ∷ y ∷ rest) = last_candle (y ∷ rest)

abbrev drop {ℓ} : {A : Type ℓ} → ℕ → List A → List A
drop zero xs = xs
drop (suc n) [] = []
drop (suc n) (x ∷ xs) = drop n xs

-- `xs[-n:]`, which is all of them for zero.
abbrev last_n {ℓ} : {A : Type ℓ} → ℕ → List A → List A
last_n n xs = if n == 0 then xs else drop (length xs - n) xs

abbrev first {ℓ} : {A : Type ℓ} → List A → Option A
first [] = none
first (x ∷ _) = some x

abbrev or_raise {ℓ} : {A : Type ℓ} → Option A → RebalanceError → Result RebalanceError A
or_raise none e = err e
or_raise (some a) e = ok a

-- `xs[-n]` for a positive n; an index out of range raises.
abbrev nth_last {ℓ} : {A : Type ℓ} → ℕ → List A → Result RebalanceError A
nth_last n xs =
    if ltb (length xs) n
    then err RebalanceError.too_few_closes
    else or_raise (first (drop (length xs - n) xs)) RebalanceError.too_few_closes

abbrev sum_volumes : Decimal → List MarketCandle → Decimal
sum_volumes acc [] = acc
sum_volumes acc (c ∷ cs) = sum_volumes (acc +d c.close *d c.volume) cs

abbrev close_of : Option MarketCandle → Option Decimal
close_of none = none
close_of (some c) = some c.close

abbrev time_of : Option MarketCandle → Option ℕ
time_of none = none
time_of (some c) = some c.available_at

-- `a or b` of two durations
abbrev or_other : Option ℕ → Option ℕ → Option ℕ
or_other none b = b
or_other (some zero) b = b
or_other (some (suc n)) b = some (suc n)

-- `maximum_age is not None and known and as_of - known[-1].available_at > maximum_age`
abbrev is_stale : ℕ → Option ℕ → Option MarketCandle → Bool
is_stale as_of (some age) (some c) = ltb (c.available_at + age) as_of
is_stale as_of _ _ = false

module _ (fs : Floats) where
  open fs use {Float, add_f, sub_f, mul_f, div_f, of_decimal, log_return_deviation}

  -- The result for one member: an assessment, and the candles that are kept for it.
  pub record Assessed : Type 0 where
    pub assessment : CandidateAssessment fs
    pub candles : Option (List MarketCandle)

  abbrev pub ineligible : String → String → CandidateAssessment fs
  ineligible pair reason = record {
    pair = pair;
    eligible = false;
    reason = reason;
    score = none;
    average_quote_volume = none;
    latest_price = none;
    momentum_1h = none;
    momentum_4h = none;
    momentum_24h = none;
    volatility = none;
    reference_at = none;
    raw_score = none;
    score_penalty = none;
    expected_relative_return_1h = none;
    expected_relative_return_4h = none;
    fee_adjusted_expected_return = none;
    decision_reasons = [];
    reference_age = none;
    candidate_confirmation_count = 0;
    entry_signal_eligible = false;
    entry_eligible_confirmation_count = 0;
  }

  abbrev refused : String → String → Result RebalanceError Assessed
  refused pair reason = ok (record { assessment = ineligible pair reason; candles = none })

  abbrev one_f : Float
  one_f = of_decimal (integer 1)

  -- `closes[-1] / closes[-bars] - 1`
  abbrev momentum : ℕ → List Float → Result RebalanceError Float
  momentum bars closes = do
    latest ← nth_last 1 closes
    before ← nth_last bars closes
    ok (sub_f (div_f latest before) one_f)

  module _ (policy : DynamicUniversePolicy fs) (fetch : Fetch) (as_of : ℕ)
      (held : List String) where
    abbrev start_of : ℕ
    start_of =
        min (as_of - 15 * minute * (policy.minimum_history_bars + 8))
          (as_of - 10 * (24 * 60) * minute)

    abbrev maximum_age : String → Option ℕ
    maximum_age pair =
        if is_in pair held
        then policy.maximum_market_data_age
        else or_other policy.maximum_entry_market_data_age policy.maximum_market_data_age

    abbrev raw_momentum_score : Float → Float → Float → Float → Option Float
    raw_momentum_score m1 m4 m24 volatility =
        if str_eq policy.scoring_method "RAW_MOMENTUM"
        then some (
            add_f
              (add_f
                (add_f (mul_f policy.momentum_1h_weight m1) (mul_f policy.momentum_4h_weight m4))
                (mul_f policy.momentum_24h_weight m24))
              (mul_f policy.volatility_weight volatility))
        else none

    abbrev age_of : Option MarketCandle → Option ℕ
    age_of none = none
    age_of (some c) = some (as_of - c.available_at)

    -- A market with enough known candles.
    unfoldable pub assess_known : String → List MarketCandle → Result RebalanceError Assessed
    assess_known pair known = do
      let window = last_n policy.liquidity_lookback_bars known
      liquidity ←
          or_raise (sum_volumes zero_d window /d integer (length window))
            RebalanceError.division_by_zero
      let closes = map (λ c. of_decimal c.close) known
      m1 ← momentum 5 closes
      m4 ← momentum 17 closes
      m24 ← momentum 97 closes
      let volatility = log_return_deviation (last_n 97 closes)
      ok (record {
        assessment = record (ineligible pair "ELIGIBLE") {
          eligible = true;
          score = raw_momentum_score m1 m4 m24 volatility;
          average_quote_volume = some liquidity;
          latest_price = close_of (last_candle known);
          momentum_1h = some m1;
          momentum_4h = some m4;
          momentum_24h = some m24;
          volatility = some volatility;
          reference_at = time_of (last_candle known);
          reference_age = age_of (last_candle known);
        };
        candles = some known;
      })

    abbrev some_candles : List MarketCandle → Option (List MarketCandle)
    some_candles [] = none
    some_candles (c ∷ cs) = some (c ∷ cs)

    abbrev priced_only : String → String → List MarketCandle → CandidateAssessment fs
    priced_only pair reason known = record (ineligible pair reason) {
      latest_price = close_of (last_candle known);
      reference_at = time_of (last_candle known);
    }

    abbrev assess_stale : String → List MarketCandle → Result RebalanceError Assessed
    assess_stale pair known =
        if is_in pair held
        then err RebalanceError.stale_holding
        else ok (record {
          assessment = record (ineligible pair "STALE_MARKET_DATA") {
            reference_at = time_of (last_candle known);
            reference_age = age_of (last_candle known);
          };
          candles = none;
        })

    unfoldable pub assess_fresh : Bool → String → List MarketCandle → Result RebalanceError Assessed
    unfolding assess_known
    assess_fresh warning pair known =
        if warning
        then ok (record {
          assessment = priced_only pair "MARKET_WARNING" known;
          candles = some_candles known;
        })
        else if ltb (length known) policy.minimum_history_bars
        then ok
            (record { assessment = priced_only pair "INSUFFICIENT_HISTORY" known; candles = none })
        else assess_known pair known

    abbrev assess_candles :
        Bool → String → Option (List MarketCandle) → Result RebalanceError Assessed
    assess_candles warning pair none = refused pair "DATA_UNAVAILABLE"
    assess_candles warning pair (some fetched) =
        let known = keep (λ c. leb c.available_at as_of) fetched in
        if is_stale as_of (maximum_age pair) (last_candle known)
        then assess_stale pair known
        else assess_fresh warning pair known

    -- One pass of the loop over the members, for a pair that is quoted in KRW.
    unfoldable pub assess_member : UniverseMember → Result RebalanceError Assessed
    unfolding assess_fresh
    assess_member member =
        let pair = symbol_of member.pair in
        if is_in member.pair.base policy.excluded_base_assets && not (is_in pair held)
        then refused pair "DIRECTIONAL_ASSET_EXCLUDED"
        else if member.warning && not (is_in pair held)
        then refused pair "MARKET_WARNING"
        else assess_candles member.warning pair (fetch member.pair start_of as_of)

    abbrev with_candles :
        String → Option (List MarketCandle) → Dict (List MarketCandle) → Dict (List MarketCandle)
    with_candles pair none candles = candles
    with_candles pair (some known) candles = insert pair known candles

    -- The loop: the assessments, and the candles by symbol so far.
    unfoldable pub assess_all :
        List UniverseMember
        → Dict (List MarketCandle)
        → Result RebalanceError (List (CandidateAssessment fs) × Dict (List MarketCandle))
    unfolding assess_member
    assess_all [] candles = ok ([], candles)
    assess_all (m ∷ ms) candles =
        if str_eq m.pair.quote "KRW"
        then (assess_member m >>= λ a.
            assess_all ms (with_candles (symbol_of m.pair) a.candles candles) >>= λ rest.
            ok (a.assessment ∷ rest.0, rest.1))
        else assess_all ms candles

    unfoldable pub assess :
        UniverseSnapshot
        → Result RebalanceError (List (CandidateAssessment fs) × Dict (List MarketCandle))
    unfolding assess_all score_assessments
    assess snapshot = do
      found ← assess_all snapshot.members []
      assessments ← score_assessments fs policy found.0
      ok (assessments, found.1)
