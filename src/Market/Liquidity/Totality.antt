-- ===== src/Market/Liquidity/Totality.antt =====
-- `evaluate` never raises on market data that was made.
use investment_research_engi.Base.{
  ℕ, ◌-◌, ◌≤◌, zero, suc, String, ◌≡◌, refl, Bool, true, false, Option, none, some, List, [], ◌∷◌,
  all, any, length, leb, ltb, arith, inl, inr, Bool-cases,
}
use investment_research_engi.Base.Dict.{Dict, lookup}
use investment_research_engi.Base.Result.{ok}
use investment_research_engi.Decimal.{Decimal, integer, nonzero, zero_d}
use investment_research_engi.Decimal.Sign.{/d-returns}
use investment_research_engi.Ledger.Orders.{TradingPair}
use investment_research_engi.Ledger.Exchange.{symbol_of}
use investment_research_engi.Rebalance.Universe
use investment_research_engi.Rebalance.Universe.{UniverseMember, UniverseSnapshot}
use investment_research_engi.Market.{
  MarketCandle, MarketDataBundle, is_disordered, has_some, known_candles, known_entries, truncated,
  known_at, validate_bundle,
}
use investment_research_engi.Market.Liquidity.Ranking.{screen-Rated, rank-returns}
use investment_research_engi.Market.Liquidity.{
  PointInTimeLiquidityUniverse, UniverseEligibilityResult, Screening, drop, window, average_of,
  screen_candles, screen_member, screen, unscreened, membership_of, conclude, validate, evaluate_at,
  evaluate, quote_volume,
}

-- Dropping candles keeps the strict order of the others.
disordered_skip :
    (x y : MarketCandle) (rest : List MarketCandle)
    → is_disordered (x ∷ y ∷ rest) ≡ false
    → is_disordered (x ∷ rest) ≡ false
disordered_skip x y [] h = refl
disordered_skip x y (z ∷ rest) h = ground arith

ordered_after :
    (t : ℕ) (x : MarketCandle) (rest : List MarketCandle)
    → is_disordered (x ∷ rest) ≡ false
    → is_disordered (x ∷ known_candles t rest) ≡ false
ordered_after t x [] h = refl
ordered_after t x (y ∷ rest) h = ground (
  arith,
  ordered_after t y rest (ground arith),
  ordered_after t x rest (disordered_skip x y rest h),
)

known_candles-ordered :
    (t : ℕ) (candles : List MarketCandle)
    → is_disordered candles ≡ false
    → is_disordered (known_candles t candles) ≡ false
known_candles-ordered t [] h = refl
known_candles-ordered t (x ∷ []) h = ground arith
known_candles-ordered t (x ∷ y ∷ rest) h =
    let next = known_candles-ordered t (y ∷ rest) (ground arith) in
    let first = ordered_after t x (y ∷ rest) h in
    elim (Bool-cases (leb x.available_at t)) [
      | inl known ↦ rw known first
      | inr unknown ↦ rw unknown next
    ]

known_entries-ordered :
    (t : ℕ) (d : Dict (List MarketCandle))
    → any (λ entry. is_disordered entry.1) d ≡ false
    → any (λ entry. is_disordered entry.1) (known_entries t d) ≡ false
known_entries-ordered t [] h = refl
known_entries-ordered t ((k, values) ∷ d) h =
    ground (
      arith,
      known_candles-ordered t values (ground arith),
      known_entries-ordered t d (ground arith),
    )

has_some-known_entries :
    (t : ℕ) (k : String) (d : Dict (List MarketCandle))
    → has_some (lookup k (known_entries t d)) ≡ has_some (lookup k d)
unfolding lookup
has_some-known_entries t k [] = refl
has_some-known_entries t k ((j, values) ∷ d) = ground (arith, has_some-known_entries t k d)

abbrev is_covered : Dict (List MarketCandle) → List TradingPair → Bool
is_covered d pairs = all (λ p. has_some (lookup (symbol_of p) d)) pairs

known_entries-covered :
    (t : ℕ) (d : Dict (List MarketCandle)) (pairs : List TradingPair)
    → is_covered d pairs ≡ true
    → is_covered (known_entries t d) pairs ≡ true
known_entries-covered t d [] h = refl
known_entries-covered t d (p ∷ pairs) h = ground (
  arith,
  has_some-known_entries t (symbol_of p) d,
  known_entries-covered t d pairs (ground arith),
)

-- What a bundle that was made satisfies.
record Made (b : MarketDataBundle) : Type 0 where
  covered : is_covered b.candles b.pairs ≡ true
  ordered : any (λ entry. is_disordered entry.1) b.candles ≡ false

validate_bundle-Made : (b b' : MarketDataBundle) → validate_bundle b ≡ ok b' → Made b
unfolding validate_bundle
validate_bundle-Made b b' h = record { covered = ground arith; ordered = ground arith }

known_at-returns : (b : MarketDataBundle) (t : ℕ) → Made b → known_at b t ≡ ok (truncated t b)
unfolding known_at validate_bundle
known_at-returns b t h =
    rw
      (
        known_entries-covered t b.candles b.pairs h.covered,
        known_entries-ordered t b.candles h.ordered,
      )
      refl

length-drop : (n : ℕ) (xs : List MarketCandle) → length (drop n xs) ≡ length xs - n
length-drop zero xs = omega arith
length-drop (suc n) [] = omega arith
length-drop (suc n) (x ∷ xs) = omega (arith, length-drop n xs)

nonzero_lem : (n : ℕ) → 1 ≤ n → nonzero (integer n) ≡ true
nonzero_lem n h = ground arith

average_of-returns :
    (n : ℕ) (candles : List MarketCandle)
    → 1 ≤ n
    → ltb (length candles) n ≡ false
    → (average : Decimal) × (average_of (window n candles) ≡ ok average)
unfolding average_of
average_of-returns n candles positive long =
    let size = length-drop (length candles - n) candles in
    let (average, h) =
      /d-returns (quote_volume zero_d (window n candles)) (integer (length (window n candles)))
        (nonzero_lem _ (ground arith)) in
    (average, rw h refl)

module _ (u : PointInTimeLiquidityUniverse) (positive : 1 ≤ u.lookback_days)
    (membership : Dict UniverseMember) (candles : Dict (List MarketCandle)) where
  screen_candles-returns :
      (p : TradingPair) (s : Screening) (found : Option (List MarketCandle))
      → has_some found ≡ true
      → (s' : Screening) × (screen_candles u p s found ≡ ok s')
  screen_candles-returns p s none h = absurd (ground arith)
  screen_candles-returns p s (some values) h =
      elim (Bool-cases (ltb (length values) u.lookback_days)) [
        | inl short ↦ rw short (_, refl)
        | inr long ↦
            let (average, averaged) = average_of-returns u.lookback_days values positive long in
            rw (long, averaged) (_, refl)
      ]

  screen_member-returns :
      (p : TradingPair) (s : Screening) (found : Option UniverseMember)
      → has_some (lookup (symbol_of p) candles) ≡ true
      → (s' : Screening) × (screen_member u candles p s found ≡ ok s')
  screen_member-returns p s none h = (_, refl)
  screen_member-returns p s (some m) h = elim (Bool-cases m.warning) [
    | inl warned ↦ rw warned (_, refl)
    | inr unwarned ↦ rw unwarned (screen_candles-returns p s (lookup (symbol_of p) candles) h)
  ]

  screen-returns :
      (pairs : List TradingPair) (s : Screening)
      → is_covered candles pairs ≡ true
      → (s' : Screening) × (screen u membership candles pairs s ≡ ok s')
  unfolding screen
  screen-returns [] s h = (s, refl)
  screen-returns (p ∷ pairs) s h =
      let (s', first) =
        screen_member-returns p s (lookup (symbol_of p) membership) (ground arith) in
      rw first (screen-returns pairs s' (ground arith))

evaluate_at-returns :
    (u : PointInTimeLiquidityUniverse) (b : MarketDataBundle) (as_of : ℕ)
    (found : Option UniverseSnapshot)
    → 1 ≤ u.lookback_days
    → Made b
    → (result : UniverseEligibilityResult) × (evaluate_at u b as_of found ≡ ok result)
unfolding evaluate_at
evaluate_at-returns u b as_of none positive made = (_, refl)
evaluate_at-returns u b as_of (some s) positive made =
    let (s', screened) =
      screen-returns u positive (membership_of [] s.members) (known_entries as_of b.candles) b.pairs
        unscreened (known_entries-covered as_of b.candles b.pairs made.covered) in
    let (ranked, order) = rank-returns s' (
      screen-Rated u (membership_of [] s.members) (known_entries as_of b.candles) b.pairs unscreened
        s' screened tt) in
    (conclude u as_of s s' ranked, rw (known_at-returns b as_of made, screened, order) refl)

validate-lookback : (u u' : PointInTimeLiquidityUniverse) → validate u ≡ ok u' → 1 ≤ u.lookback_days
unfolding validate
validate-lookback u u' h = ground arith

-- On market data and a universe that passed the checks of their constructors, `evaluate` returns for every
-- time: the candles that are known by then make a bundle again, no symbol and no average is missing,
-- and no average divides by zero.
pub evaluate-returns :
    (u valid : PointInTimeLiquidityUniverse) (b made : MarketDataBundle) (as_of : ℕ)
    → validate u ≡ ok valid
    → validate_bundle b ≡ ok made
    → (result : UniverseEligibilityResult) × (evaluate u b as_of ≡ ok result)
unfolding evaluate
evaluate-returns u valid b made as_of v m =
    evaluate_at-returns u b as_of (Universe.known_at u.history as_of) (validate-lookback u valid v)
      (validate_bundle-Made b made m)
