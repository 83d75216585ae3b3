-- ===== src/Market/Liquidity/Recording.antt =====
-- The loop of `evaluate` records each pair: as eligible, or with an exclusion.
use investment_research_engi.Base.{
  String, ◌≡◌, refl, Bool, true, Option, none, some, List, [], ◌∷◌, ◌++◌, ◌||◌, any, length, All,
  str_eq, str_eq_refl, ltb, arith, inl, inr, Bool-cases, subst,
}
use investment_research_engi.Base.Dict.{Dict, lookup, insert, lookup-insert}
use investment_research_engi.Base.Result.{ok, >>=-returns, same_value}
use investment_research_engi.Decimal.{Decimal, lt_d}
use investment_research_engi.Ledger.Orders.{TradingPair}
use investment_research_engi.Ledger.Exchange.{symbol_of}
use investment_research_engi.Rebalance.Universe.{UniverseMember}
use investment_research_engi.Market.{MarketCandle, has_some}
use investment_research_engi.Market.Liquidity.{
  PointInTimeLiquidityUniverse, Exclusion, Screening, exclude, rate, window, average_of,
  screen_candles, screen_member, screen,
}

abbrev pub is_listed : String → List TradingPair → Bool
is_listed k pairs = any (λ q. str_eq k (symbol_of q)) pairs

is_listed-append :
    (k : String) (xs ys : List TradingPair)
    → is_listed k (xs ++ ys) ≡ is_listed k xs || is_listed k ys
is_listed-append k [] ys = refl
is_listed-append k (x ∷ xs) ys = ground (arith, is_listed-append k xs ys)

abbrev pub is_excluded : String → Dict Exclusion → Bool
is_excluded k d = has_some (lookup k d)

pub is_excluded-insert :
    (k j : String) (reason : Exclusion) (d : Dict Exclusion)
    → is_excluded k (insert j reason d) ≡ str_eq j k || is_excluded k d
is_excluded-insert k j reason d = ground (arith, lookup-insert j k reason d)

-- What the loop has recorded of a symbol.
abbrev pub accounted : Screening → String → Bool
accounted s k = is_listed k s.eligible || is_excluded k s.exclusions

-- A turn of the loop records its pair and forgets nothing.
record Adds (p : TradingPair) (s s' : Screening) : Type 0 where
  keeps : (k : String) → accounted s k ≡ true → accounted s' k ≡ true
  adds : accounted s' (symbol_of p) ≡ true

exclude-Adds :
    (p : TradingPair) (reason : Exclusion) (s : Screening) → Adds p s (exclude p reason s)
exclude-Adds p reason s = record {
  keeps = λ k h. ground (arith, is_excluded-insert k (symbol_of p) reason s.exclusions);
  adds = ground (
    arith,
    is_excluded-insert (symbol_of p) (symbol_of p) reason s.exclusions,
    str_eq_refl (symbol_of p),
  );
}

append-Adds :
    (p : TradingPair) (s : Screening) (liquidity : Dict Decimal)
    → Adds p s (record s { liquidity = liquidity; eligible = s.eligible ++ (p ∷ []) })
append-Adds p s liquidity = record {
  keeps = λ k h. ground (arith, is_listed-append k s.eligible (p ∷ []));
  adds =
      ground (arith, is_listed-append (symbol_of p) s.eligible (p ∷ []), str_eq_refl (symbol_of p));
}

module _ (u : PointInTimeLiquidityUniverse) where
  rate-Adds : (p : TradingPair) (s : Screening) (average : Decimal) → Adds p s (rate u p average s)
  rate-Adds p s average =
      let rated : Screening = record s { liquidity = insert (symbol_of p) average s.liquidity } in
      elim (Bool-cases (lt_d average u.minimum_average_quote_volume)) [
        | inl poor ↦
            let e = exclude-Adds p Exclusion.insufficient_liquidity rated in
            rw poor (record { keeps = e.keeps; adds = e.adds })
        | inr rich ↦ rw rich (append-Adds p s rated.liquidity)
      ]

  screen_candles-Adds :
      (p : TradingPair) (s s' : Screening) (found : Option (List MarketCandle))
      → screen_candles u p s found ≡ ok s'
      → Adds p s s'
  screen_candles-Adds p s s' none h = absurd (ground arith)
  screen_candles-Adds p s s' (some values) h =
      elim (Bool-cases (ltb (length values) u.lookback_days)) [
        | inl short ↦
            subst (Adds p s) (same_value (rw short at h))
              (exclude-Adds p Exclusion.insufficient_history s)
        | inr long ↦
            let (average, _, h₁) =
              >>=-returns (average_of (window u.lookback_days values)) _ (rw long at h) in
            subst (Adds p s) (same_value h₁) (rate-Adds p s average)
      ]

  screen_member-Adds :
      (candles : Dict (List MarketCandle)) (p : TradingPair) (s s' : Screening)
      (found : Option UniverseMember)
      → screen_member u candles p s found ≡ ok s'
      → Adds p s s'
  screen_member-Adds candles p s s' none h =
      subst (Adds p s) (same_value h) (exclude-Adds p Exclusion.not_in_latest_known_snapshot s)
  screen_member-Adds candles p s s' (some m) h = elim (Bool-cases m.warning) [
    | inl warned ↦
        subst (Adds p s) (same_value (rw warned at h)) (exclude-Adds p Exclusion.market_warning s)
    | inr unwarned ↦ screen_candles-Adds p s s' (lookup (symbol_of p) candles) (rw unwarned at h)
  ]

  screen-keeps :
      (membership : Dict UniverseMember) (candles : Dict (List MarketCandle))
      (pairs : List TradingPair) (s s' : Screening)
      → screen u membership candles pairs s ≡ ok s'
      → (k : String) → accounted s k ≡ true
      → accounted s' k ≡ true
  unfolding screen
  screen-keeps membership candles [] s s' h k known =
      subst (λ x. accounted x k ≡ true) (same_value h) known
  screen-keeps membership candles (p ∷ pairs) s s' h k known =
      let (s₁, first, rest) =
        >>=-returns (screen_member u candles p s (lookup (symbol_of p) membership)) _ h in
      screen-keeps membership candles pairs s₁ s' rest k
        ((screen_member-Adds candles p s s₁ (lookup (symbol_of p) membership) first).keeps k known)

  pub screen-accounted :
      (membership : Dict UniverseMember) (candles : Dict (List MarketCandle))
      (pairs : List TradingPair) (s s' : Screening)
      → screen u membership candles pairs s ≡ ok s'
      → All (λ p. accounted s' (symbol_of p) ≡ true) pairs
  unfolding screen
  screen-accounted membership candles [] s s' h = tt
  screen-accounted membership candles (p ∷ pairs) s s' h =
      let (s₁, first, rest) =
        >>=-returns (screen_member u candles p s (lookup (symbol_of p) membership)) _ h in
      (
        screen-keeps membership candles pairs s₁ s' rest (symbol_of p)
            (screen_member-Adds candles p s s₁ (lookup (symbol_of p) membership) first).adds,
        screen-accounted membership candles pairs s₁ s' rest,
      )
