-- ===== src/Market/Liquidity/Ranking.antt =====
-- The pairs in the order of their liquidity, and that each eligible pair has one.
use investment_research_engi.Base.{
  ◌≡◌, refl, true, Option, none, some, List, [], ◌∷◌, map, length, All, All-map, All-append,
  All-of_map, arith, inl, inr, Bool-cases, subst, ltb, str_eq_refl,
}
use investment_research_engi.Base.Dict.{Dict, lookup, insert, lookup-insert}
use investment_research_engi.Base.Result.{ok, >>=-returns, same_value}
use investment_research_engi.Base.Sorting.{sort_by, All-sort_by}
use investment_research_engi.Decimal.{Decimal, lt_d}
use investment_research_engi.Ledger.Orders.{TradingPair}
use investment_research_engi.Ledger.Exchange.{symbol_of}
use investment_research_engi.Rebalance.Universe.{UniverseMember}
use investment_research_engi.Market.{MarketCandle, has_some}
use investment_research_engi.Market.Liquidity.{
  PointInTimeLiquidityUniverse, Screening, rating, keyed, rank, ranks_before, rate, average_of,
  window, screen_candles, screen_member, screen,
}

module _ {ℓ} (P : TradingPair → Type ℓ) where
  keyed-All :
      (d : Dict Decimal) (ps : List TradingPair) (pairs : List (Decimal × TradingPair))
      → keyed d ps ≡ ok pairs
      → All P ps
      → All (λ k. P k.1) pairs
  unfolding keyed
  keyed-All d [] pairs h all = subst (All (λ k. P k.1)) (same_value h) tt
  keyed-All d (p ∷ ps) pairs h all =
      let (value, _, h₁) = >>=-returns (rating (lookup (symbol_of p) d)) _ h in
      let (rest, more, h₂) = >>=-returns (keyed d ps) _ h₁ in
      subst (All (λ k. P k.1)) (same_value h₂) (all.0, keyed-All d ps rest more all.1)

  pub rank-All :
      (s : Screening) (ranked : List TradingPair)
      → rank s ≡ ok ranked
      → All P s.eligible
      → All P ranked
  unfolding rank
  rank-All s ranked h all =
      let (pairs, found, h₁) = >>=-returns (keyed s.liquidity s.eligible) _ h in
      subst (All P) (same_value h₁) (
        All-of_map (λ k. k.1) P (sort_by ranks_before pairs)
          (All-sort_by ranks_before (λ k. P k.1) pairs
            (keyed-All s.liquidity s.eligible pairs found all)))

-- Each eligible pair has its average.
abbrev IsRated : Dict Decimal → TradingPair → Type 0
IsRated d p = has_some (lookup (symbol_of p) d) ≡ true

abbrev pub Rated : Screening → Type 0
Rated s = All (IsRated s.liquidity) s.eligible

IsRated-insert :
    (d : Dict Decimal) (p : TradingPair) (average : Decimal) (q : TradingPair)
    → IsRated d q
    → IsRated (insert (symbol_of p) average d) q
IsRated-insert d p average q h = ground (arith, lookup-insert (symbol_of p) (symbol_of q) average d)

IsRated-own :
    (d : Dict Decimal) (p : TradingPair) (average : Decimal)
    → IsRated (insert (symbol_of p) average d) p
IsRated-own d p average =
    ground (arith, lookup-insert (symbol_of p) (symbol_of p) average d, str_eq_refl (symbol_of p))

module _ (u : PointInTimeLiquidityUniverse) where
  rate-Rated :
      (p : TradingPair) (s : Screening) (average : Decimal) → Rated s → Rated (rate u p average s)
  rate-Rated p s average h =
      let d = insert (symbol_of p) average s.liquidity in
      let kept =
        All-map (IsRated s.liquidity) (IsRated d) (IsRated-insert s.liquidity p average) s.eligible
          h in
      elim (Bool-cases (lt_d average u.minimum_average_quote_volume)) [
        | inl poor ↦ rw poor kept
        | inr rich ↦ rw rich (
            All-append (IsRated d) s.eligible (p ∷ []) kept (IsRated-own s.liquidity p average, tt))
      ]

  screen_candles-Rated :
      (p : TradingPair) (s s' : Screening) (found : Option (List MarketCandle))
      → screen_candles u p s found ≡ ok s'
      → Rated s
      → Rated s'
  screen_candles-Rated p s s' none k h = absurd (ground arith)
  screen_candles-Rated p s s' (some values) k h =
      elim (Bool-cases (ltb (length values) u.lookback_days)) [
        | inl short ↦ subst Rated (same_value (rw short at k)) h
        | inr long ↦
            let (average, _, k₁) =
              >>=-returns (average_of (window u.lookback_days values)) _ (rw long at k) in
            subst Rated (same_value k₁) (rate-Rated p s average h)
      ]

  screen_member-Rated :
      (candles : Dict (List MarketCandle)) (p : TradingPair) (s s' : Screening)
      (found : Option UniverseMember)
      → screen_member u candles p s found ≡ ok s'
      → Rated s
      → Rated s'
  screen_member-Rated candles p s s' none k h = subst Rated (same_value k) h
  screen_member-Rated candles p s s' (some m) k h = elim (Bool-cases m.warning) [
    | inl warned ↦ subst Rated (same_value (rw warned at k)) h
    | inr unwarned ↦ screen_candles-Rated p s s' (lookup (symbol_of p) candles) (rw unwarned at k) h
  ]

  pub screen-Rated :
      (membership : Dict UniverseMember) (candles : Dict (List MarketCandle))
      (pairs : List TradingPair) (s s' : Screening)
      → screen u membership candles pairs s ≡ ok s'
      → Rated s
      → Rated s'
  unfolding screen
  screen-Rated membership candles [] s s' k h = subst Rated (same_value k) h
  screen-Rated membership candles (p ∷ pairs) s s' k h =
      let found = lookup (symbol_of p) membership in
      let (s₁, first, rest) = >>=-returns (screen_member u candles p s found) _ k in
      screen-Rated membership candles pairs s₁ s' rest
        (screen_member-Rated candles p s s₁ found first h)

rating-returns :
    (found : Option Decimal) → has_some found ≡ true → (value : Decimal) × (rating found ≡ ok value)
rating-returns none h = absurd (ground arith)
rating-returns (some value) h = (value, refl)

keyed-returns :
    (d : Dict Decimal) (ps : List TradingPair)
    → All (IsRated d) ps
    → (pairs : List (Decimal × TradingPair)) × (keyed d ps ≡ ok pairs)
unfolding keyed
keyed-returns d [] h = ([], refl)
keyed-returns d (p ∷ ps) h =
    let (value, there) = rating-returns (lookup (symbol_of p) d) h.0 in
    let (rest, more) = keyed-returns d ps h.1 in ((value, p) ∷ rest, rw (there, more) refl)

pub rank-returns : (s : Screening) → Rated s → (ranked : List TradingPair) × (rank s ≡ ok ranked)
unfolding rank
rank-returns s h =
    let (pairs, found) = keyed-returns s.liquidity s.eligible h in
    (map (λ k. k.1) (sort_by ranks_before pairs), rw found refl)
