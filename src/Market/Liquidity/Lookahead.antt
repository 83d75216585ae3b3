-- ===== src/Market/Liquidity/Lookahead.antt =====
-- What becomes known after a time has no part in the universe that `evaluate` gives for it.
use investment_research_engi.Base.{
  ℕ, ◌≡◌, refl, Bool, true, false, Option, none, some, List, [], ◌∷◌, if◌then◌else◌, keep, leb,
  arith,
}
use investment_research_engi.Base.Dict.{Dict, lookup}
use investment_research_engi.Base.Result.{Result, ok, err, ◌>>=◌}
use investment_research_engi.Ledger.Orders.{TradingPair}
use investment_research_engi.Ledger.Exchange.{symbol_of}
use investment_research_engi.Rebalance.Universe
use investment_research_engi.Rebalance.Universe.{UniverseMember, UniverseSnapshot}
use investment_research_engi.Market.{
  MarketCandle, MarketDataBundle, known_entries, truncated, known_at,
}
use investment_research_engi.Market.Liquidity.{
  PointInTimeLiquidityUniverse, Screening, Exclusion, exclude, screen, screen_member,
  screen_candles, select, evaluate_at, evaluate,
}

keep-keep {ℓ} :
    {A : Type ℓ} (time : A → ℕ) (t later : ℕ)
    → leb t later ≡ true
    → (xs : List A)
    → keep (λ x. leb (time x) t) (keep (λ x. leb (time x) later) xs) ≡ keep (λ x. leb (time x) t) xs
keep-keep time t later h [] = refl
keep-keep time t later h (x ∷ xs) = ground (arith, keep-keep time t later h xs)

-- The snapshots that were observed by a time.
abbrev pub past : ℕ → List UniverseSnapshot → List UniverseSnapshot
past cutoff snapshots = keep (λ s. leb s.observed_at cutoff) snapshots

known_entries_twice :
    (t later : ℕ)
    → leb t later ≡ true
    → (d : Dict (List MarketCandle)) → known_entries t (known_entries later d) ≡ known_entries t d
known_entries_twice t later h [] = refl
known_entries_twice t later h ((k, values) ∷ d) =
    rw (keep-keep (λ c. c.available_at) t later h values, known_entries_twice t later h d) refl

known_at-truncated :
    (b : MarketDataBundle) (t later : ℕ)
    → leb t later ≡ true
    → known_at (truncated later b) t ≡ known_at b t
unfolding known_at
known_at-truncated b t later h = rw (known_entries_twice t later h b.candles) refl

known_at-past :
    (snapshots : List UniverseSnapshot) (t later : ℕ)
    → leb t later ≡ true
    → Universe.known_at (past later snapshots) t ≡ Universe.known_at snapshots t
unfolding Universe.known_at
known_at-past snapshots t later h = rw (keep-keep (λ s. s.observed_at) t later h snapshots) refl

>>=-same {ℓ κ μ} :
    {E : Type μ} {A : Type ℓ} {B : Type κ} (r : Result E A) {f g : A → Result E B}
    → ((x : A) → f x ≡ g x)
    → (r >>= f) ≡ (r >>= g)
>>=-same (ok x) h = h x
>>=-same (err e) h = refl

module _ (u : PointInTimeLiquidityUniverse) (history : List UniverseSnapshot) where
  abbrev rewritten : PointInTimeLiquidityUniverse
  rewritten = record u { history = history }

  screen_member-history :
      (candles : Dict (List MarketCandle)) (p : TradingPair) (s : Screening)
      (found : Option UniverseMember)
      → screen_member rewritten candles p s found ≡ screen_member u candles p s found
  screen_member-history candles p s none = refl
  screen_member-history candles p s (some m) = same_candles m.warning (lookup (symbol_of p) candles)
    where
      same_candles :
          (warned : Bool) (values : Option (List MarketCandle))
          → (if warned
              then ok (exclude p Exclusion.market_warning s)
              else screen_candles rewritten p s values)
            ≡ (if warned
                then ok (exclude p Exclusion.market_warning s)
                else screen_candles u p s values)
      same_candles true values = refl
      same_candles false none = refl
      same_candles false (some values) = refl

  screen-history :
      (membership : Dict UniverseMember) (candles : Dict (List MarketCandle))
      (pairs : List TradingPair) (s : Screening)
      → screen rewritten membership candles pairs s ≡ screen u membership candles pairs s
  unfolding screen
  screen-history membership candles [] s = refl
  screen-history membership candles (p ∷ pairs) s =
      rw (screen_member-history candles p s (lookup (symbol_of p) membership))
        (>>=-same _ (screen-history membership candles pairs))

  evaluate_at-truncated :
      (b : MarketDataBundle) (t later : ℕ)
      → leb t later ≡ true
      → (snapshot : Option UniverseSnapshot)
      → evaluate_at rewritten (truncated later b) t snapshot ≡ evaluate_at u b t snapshot
  unfolding evaluate_at select
  evaluate_at-truncated b t later h none = refl
  evaluate_at-truncated b t later h (some snapshot) =
      rw (known_at-truncated b t later h)
        (>>=-same (known_at b t) (λ known. rw (screen-history _ known.candles b.pairs _) refl))

-- The universe of a time stays the same when snapshots that were observed, and candles that became
-- available, after any later time are left out.
pub evaluate-no_lookahead :
    (u : PointInTimeLiquidityUniverse) (b : MarketDataBundle) (as_of later : ℕ)
    → leb as_of later ≡ true
    → evaluate (record u { history = past later u.history }) (truncated later b) as_of
      ≡ evaluate u b as_of
unfolding evaluate
evaluate-no_lookahead u b as_of later h = rw (known_at-past u.history as_of later h) (
    evaluate_at-truncated u (past later u.history) b as_of later h
      (Universe.known_at u.history as_of))
