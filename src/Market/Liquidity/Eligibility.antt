-- ===== src/Market/Liquidity/Eligibility.antt =====
-- Each pair that `evaluate` selects has passed the rules of eligibility.
use investment_research_engi.Base.{
  ℕ, String, str_eq, ◌≡◌, ◌≤◌, refl, ap, false, Option, none, some, List, [], ◌∷◌, arith, length,
  All, All-append, All-map, ltb, inl, inr, Bool-cases, subst, sym,
}
use investment_research_engi.Base.Dict.{Dict, lookup}
use investment_research_engi.Base.Result.{ok, >>=-returns, same_value}
use investment_research_engi.Decimal.{Decimal, lt_d}
use investment_research_engi.Ledger.Orders.{TradingPair}
use investment_research_engi.Ledger.Exchange.{symbol_of}
use investment_research_engi.Rebalance.Universe
use investment_research_engi.Rebalance.Universe.{UniverseMember, UniverseSnapshot}
use investment_research_engi.Market.{
  MarketCandle, MarketDataBundle, known_candles, known_entries, truncated, known_at,
  validate_bundle,
}
use investment_research_engi.Market.Liquidity.Ranking.{rank-All}
use investment_research_engi.Market.Liquidity.Selection.{same_some, select-All, select-bounded}
use investment_research_engi.Market.Liquidity.{
  rank, unscreened, PointInTimeLiquidityUniverse, UniverseEligibilityResult, Screening, screen,
  screen_member, screen_candles, rate, evaluate_at, evaluate, membership_of, average_of, window,
  validate,
}

-- The rules, on the tables of members and candles.
record Passes (u : PointInTimeLiquidityUniverse) (membership : Dict UniverseMember)
    (candles : Dict (List MarketCandle)) (p : TradingPair) : Type 0 where
  member : UniverseMember
  found : lookup (symbol_of p) membership ≡ some member
  unwarned : member.warning ≡ false
  history : List MarketCandle
  kept : lookup (symbol_of p) candles ≡ some history
  enough : ltb (length history) u.lookback_days ≡ false
  average : Decimal
  averaged : average_of (window u.lookback_days history) ≡ ok average
  liquid : lt_d average u.minimum_average_quote_volume ≡ false

module _ (u : PointInTimeLiquidityUniverse) (membership : Dict UniverseMember)
    (candles : Dict (List MarketCandle)) where
  abbrev P : TradingPair → Type 0
  P = Passes u membership candles

  rate-passes :
      (p : TradingPair) (s : Screening) (average : Decimal)
      → All P s.eligible
      → (lt_d average u.minimum_average_quote_volume ≡ false → P p)
      → All P (rate u p average s).eligible
  rate-passes p s average h new = elim (Bool-cases (lt_d average u.minimum_average_quote_volume)) [
    | inl poor ↦ rw poor h
    | inr rich ↦ rw rich (All-append P s.eligible (p ∷ []) h (new rich, tt))
  ]

  screen_candles-passes :
      (p : TradingPair) (s s' : Screening) (m : UniverseMember) (found : Option (List MarketCandle))
      → lookup (symbol_of p) membership ≡ some m
      → m.warning ≡ false
      → lookup (symbol_of p) candles ≡ found
      → All P s.eligible
      → screen_candles u p s found ≡ ok s'
      → All P s'.eligible
  screen_candles-passes p s s' m none listed unwarned kept h k = absurd (ground arith)
  screen_candles-passes p s s' m (some cs) listed unwarned kept h k =
      elim (Bool-cases (ltb (length cs) u.lookback_days)) [
        | inl short ↦ subst (λ x. All P x.eligible) (same_value (rw short at k)) h
        | inr long ↦
            let (average, averaged, k₁) =
              >>=-returns (average_of (window u.lookback_days cs)) _ (rw long at k) in
            subst (λ x. All P x.eligible) (same_value k₁)
              (rate-passes p s average h (λ rich. record {
                member = m;
                found = listed;
                unwarned = unwarned;
                history = cs;
                kept = kept;
                enough = long;
                average = average;
                averaged = averaged;
                liquid = rich;
              }))
      ]

  screen_member-passes :
      (p : TradingPair) (s s' : Screening) (found : Option UniverseMember)
      → lookup (symbol_of p) membership ≡ found
      → All P s.eligible
      → screen_member u candles p s found ≡ ok s'
      → All P s'.eligible
  screen_member-passes p s s' none listed h k = subst (λ x. All P x.eligible) (same_value k) h
  screen_member-passes p s s' (some m) listed h k = elim (Bool-cases m.warning) [
    | inl warned ↦ subst (λ x. All P x.eligible) (same_value (rw warned at k)) h
    | inr unwarned ↦
        screen_candles-passes p s s' m (lookup (symbol_of p) candles) listed unwarned refl h
          (rw unwarned at k)
  ]

  screen-passes :
      (pairs : List TradingPair) (s s' : Screening)
      → All P s.eligible
      → screen u membership candles pairs s ≡ ok s'
      → All P s'.eligible
  unfolding screen
  screen-passes [] s s' h k = subst (λ x. All P x.eligible) (same_value k) h
  screen-passes (p ∷ pairs) s s' h k =
      let (s₁, first, rest) = >>=-returns _ _ k in
      screen-passes pairs s₁ s' (screen_member-passes p s s₁ _ refl h first) rest

-- A pair that may be traded at a time, on the data of the repository: it is in the latest snapshot that
-- was observed by then, without a warning, and of the candles that were available by then there are
-- enough, the last ones with enough volume on average.
pub record IsEligible (u : PointInTimeLiquidityUniverse) (b : MarketDataBundle) (as_of : ℕ)
    (p : TradingPair) : Type 0 where
  pub snapshot : UniverseSnapshot
  pub latest : Universe.known_at u.history as_of ≡ some snapshot
  pub member : UniverseMember
  pub found : lookup (symbol_of p) (membership_of [] snapshot.members) ≡ some member
  pub unwarned : member.warning ≡ false
  pub values : List MarketCandle
  pub kept : lookup (symbol_of p) b.candles ≡ some values
  pub enough : u.lookback_days ≤ length (known_candles as_of values)
  pub average : Decimal
  pub averaged : average_of (window u.lookback_days (known_candles as_of values)) ≡ ok average
  pub liquid : lt_d average u.minimum_average_quote_volume ≡ false

lookup-known_entries :
    (cutoff : ℕ) (k : String) (d : Dict (List MarketCandle)) (known : List MarketCandle)
    → lookup k (known_entries cutoff d) ≡ some known
    → (values : List MarketCandle) × (lookup k d ≡ some values)
      × (known ≡ known_candles cutoff values)
unfolding lookup
lookup-known_entries cutoff k [] known h = absurd (ground arith)
lookup-known_entries cutoff k ((j, values) ∷ d) known h = elim (Bool-cases (str_eq j k)) [
  | inl here ↦ rw here (values, refl, sym (same_some (rw here at h)))
  | inr other ↦ rw other (lookup-known_entries cutoff k d known (rw other at h))
]

known_at_lem :
    (b known : MarketDataBundle) (as_of : ℕ)
    → known_at b as_of ≡ ok known
    → known ≡ truncated as_of b
unfolding known_at validate_bundle
known_at_lem b known as_of h = ground arith

Passes-IsEligible :
    (u : PointInTimeLiquidityUniverse) (b : MarketDataBundle) (as_of : ℕ) (s : UniverseSnapshot)
    → Universe.known_at u.history as_of ≡ some s
    → (p : TradingPair) → Passes u (membership_of [] s.members) (known_entries as_of b.candles) p
    → IsEligible u b as_of p
Passes-IsEligible u b as_of s latest p h =
    let (values, kept, same) =
      lookup-known_entries as_of (symbol_of p) b.candles h.history h.kept in
    record {
      snapshot = s;
      latest = latest;
      member = h.member;
      found = h.found;
      unwarned = h.unwarned;
      values = values;
      kept = kept;
      enough =
          let long = subst (λ x. ltb (length x) u.lookback_days ≡ false) same h.enough in
          ground arith;
      average = h.average;
      averaged = subst (λ x. average_of (window u.lookback_days x) ≡ ok h.average) same h.averaged;
      liquid = h.liquid;
    }

module _ (u : PointInTimeLiquidityUniverse) (b : MarketDataBundle) (as_of : ℕ)
    (result : UniverseEligibilityResult) where
  evaluate_at-IsEligible :
      (found : Option UniverseSnapshot)
      → Universe.known_at u.history as_of ≡ found
      → 1 ≤ u.maximum_assets
      → evaluate_at u b as_of found ≡ ok result
      → All (IsEligible u b as_of) result.eligible_pairs
        × (length result.eligible_pairs ≤ u.maximum_assets)
  unfolding evaluate_at
  evaluate_at-IsEligible none latest positive h =
      subst
        (λ r.
          All (IsEligible u b as_of) r.eligible_pairs
          × (length r.eligible_pairs ≤ u.maximum_assets))
        (same_value h) (tt, omega arith)
  evaluate_at-IsEligible (some s) latest positive h =
      let (known, k, h₁) = >>=-returns (known_at b as_of) _ h in
      let (screened, loop, h₂) =
        >>=-returns (screen u (membership_of [] s.members) known.candles b.pairs unscreened) _ h₁ in
      let candles_lem : known.candles ≡ known_entries as_of b.candles =
        ap (λ x. x.candles) (known_at_lem b known as_of k) in
      let passed =
        screen-passes u (membership_of [] s.members) (known_entries as_of b.candles) b.pairs _
          screened tt (rw candles_lem at loop) in
      let (ranked, order, h₃) = >>=-returns (rank screened) _ h₂ in
      let allowed = All-map _ _ (Passes-IsEligible u b as_of s latest) screened.eligible passed in
      subst
        (λ r.
          All (IsEligible u b as_of) r.eligible_pairs
          × (length r.eligible_pairs ≤ u.maximum_assets))
        (same_value h₃)
        (
          select-All (IsEligible u b as_of) u ranked
              (rank-All (IsEligible u b as_of) screened ranked order allowed),
          select-bounded u _ positive,
        )

validate-positive :
    (u u' : PointInTimeLiquidityUniverse) → validate u ≡ ok u' → 1 ≤ u.maximum_assets
unfolding validate
validate-positive u u' h = ground arith

-- Every pair that a validated universe gives for a time is in the latest snapshot that was observed by
-- then, without a warning; enough of its candles were available by then, and their average quote
-- volume is not below the minimum. There are at most `maximum_assets` of them, BTC included.
pub evaluate-IsEligible :
    (u valid : PointInTimeLiquidityUniverse) (b : MarketDataBundle) (as_of : ℕ)
    (result : UniverseEligibilityResult)
    → validate u ≡ ok valid
    → evaluate u b as_of ≡ ok result
    → All (IsEligible u b as_of) result.eligible_pairs
      × (length result.eligible_pairs ≤ u.maximum_assets)
unfolding evaluate
evaluate-IsEligible u valid b as_of result v h =
    evaluate_at-IsEligible u b as_of result (Universe.known_at u.history as_of) refl
      (validate-positive u valid v) h
