-- ===== src/Market/Liquidity/Coverage.antt =====
-- No pair of the universe is left out without a reason.
use investment_research_engi.Base.{
  ℕ, String, ◌≡◌, Bool, true, false, Option, none, some, List, [], ◌∷◌, ◌||◌, map, any, any-map,
  All, All-map, str_eq, str_eq_iff, str_eq_refl, arith, inl, inr, Bool-cases, subst, if◌then◌else◌,
}
use investment_research_engi.Base.Dict.{Dict, insert}
use investment_research_engi.Base.Result.{ok, >>=-returns, same_value}
use investment_research_engi.Ledger.Orders.{TradingPair}
use investment_research_engi.Ledger.Exchange.{symbol_of}
use investment_research_engi.Rebalance.Universe
use investment_research_engi.Rebalance.Universe.{UniverseMember, UniverseSnapshot}
use investment_research_engi.Market.{MarketDataBundle, known_at}
use investment_research_engi.Market.Liquidity.{
  rank, PointInTimeLiquidityUniverse, UniverseEligibilityResult, Exclusion, Screening, unscreened,
  screen, membership_of, cut_off, without_snapshot, conclude, select, evaluate_at, evaluate,
}
use investment_research_engi.Market.Liquidity.Recording.{
  is_listed, is_excluded, is_excluded-insert, accounted, screen-accounted,
}

cut_off-keeps :
    (selected : List String) (ps : List TradingPair) (d : Dict Exclusion) (k : String)
    → is_excluded k d ≡ true
    → is_excluded k (cut_off selected ps d) ≡ true
cut_off-keeps selected [] d k h = h
cut_off-keeps selected (p ∷ ps) d k h =
    elim (any (str_eq (symbol_of p)) selected)
      as (λ t.
        is_excluded k (
          cut_off selected ps
            (if t then d else insert (symbol_of p) Exclusion.below_liquidity_rank_cutoff d))
        ≡ true) [
          | true ↦ cut_off-keeps selected ps d k h
          | false ↦ cut_off-keeps selected ps _ k (
              ground
                (arith, is_excluded-insert k (symbol_of p) Exclusion.below_liquidity_rank_cutoff d))
        ]

cut_off-first :
    (selected : List String) (p : TradingPair) (ps : List TradingPair) (d : Dict Exclusion)
    → any (str_eq (symbol_of p)) selected || is_excluded (symbol_of p) (cut_off selected (p ∷ ps) d)
      ≡ true
cut_off-first selected p ps d = elim (Bool-cases (any (str_eq (symbol_of p)) selected)) [
  | inl chosen ↦ ground arith
  | inr other ↦ rw other (
      cut_off-keeps selected ps _ (symbol_of p) (
        ground (
          arith,
          is_excluded-insert (symbol_of p) (symbol_of p) Exclusion.below_liquidity_rank_cutoff d,
          str_eq_refl (symbol_of p),
        )))
]

-- An eligible pair is selected, or excluded by its rank.
cut_off-explains :
    (selected : List String) (ps : List TradingPair) (d : Dict Exclusion) (k : String)
    → is_listed k ps ≡ true
    → any (str_eq k) selected || is_excluded k (cut_off selected ps d) ≡ true
cut_off-explains selected [] d k h = absurd (ground arith)
cut_off-explains selected (p ∷ ps) d k h = elim (Bool-cases (str_eq k (symbol_of p))) [
  | inl here ↦
      let same : symbol_of p ≡ k = ground (arith, str_eq_iff k (symbol_of p)) in
      subst (λ x. any (str_eq x) selected || is_excluded x (cut_off selected (p ∷ ps) d) ≡ true)
        same (cut_off-first selected p ps d)
  | inr other ↦ cut_off-explains selected ps _ k (ground arith)
]

without_snapshot-keeps :
    (ps : List TradingPair) (d : Dict Exclusion) (k : String)
    → is_excluded k d ≡ true
    → is_excluded k (without_snapshot ps d) ≡ true
without_snapshot-keeps [] d k h = h
without_snapshot-keeps (p ∷ ps) d k h =
    without_snapshot-keeps ps _ k
      (ground (arith, is_excluded-insert k (symbol_of p) Exclusion.no_membership_snapshot d))

without_snapshot-explains :
    (ps : List TradingPair) (d : Dict Exclusion)
    → All (λ p. is_excluded (symbol_of p) (without_snapshot ps d) ≡ true) ps
without_snapshot-explains [] d = tt
without_snapshot-explains (p ∷ ps) d = (
  without_snapshot-keeps ps _ (symbol_of p) (
      ground (
        arith,
        is_excluded-insert (symbol_of p) (symbol_of p) Exclusion.no_membership_snapshot d,
        str_eq_refl (symbol_of p),
      )),
  without_snapshot-explains ps _,
)

abbrev pub is_explained : UniverseEligibilityResult → TradingPair → Bool
is_explained r p =
    is_listed (symbol_of p) r.eligible_pairs || is_excluded (symbol_of p) r.exclusions

conclude-explains :
    (u : PointInTimeLiquidityUniverse) (as_of : ℕ) (snapshot : UniverseSnapshot) (s : Screening)
    (ranked : List TradingPair) (p : TradingPair)
    → accounted s (symbol_of p) ≡ true
    → is_explained (conclude u as_of snapshot s ranked) p ≡ true
conclude-explains u as_of snapshot s ranked p h =
    let selected = select u ranked in
    let same = any-map symbol_of (str_eq (symbol_of p)) selected in
    elim (Bool-cases (is_listed (symbol_of p) s.eligible)) [
      | inl listed ↦
          let found =
            cut_off-explains (map symbol_of selected) s.eligible s.exclusions (symbol_of p)
              listed in
          rw same at found
      | inr other ↦
          let kept =
            cut_off-keeps (map symbol_of selected) s.eligible s.exclusions (symbol_of p)
              (ground arith) in
          ground arith
    ]

module _ (u : PointInTimeLiquidityUniverse) (b : MarketDataBundle) (as_of : ℕ)
    (result : UniverseEligibilityResult) where
  evaluate_at-explains :
      (found : Option UniverseSnapshot)
      → evaluate_at u b as_of found ≡ ok result
      → All (λ p. is_explained result p ≡ true) b.pairs
  unfolding evaluate_at
  evaluate_at-explains none h =
      subst (λ r. All (λ p. is_explained r p ≡ true) b.pairs) (same_value h)
        (without_snapshot-explains b.pairs [])
  evaluate_at-explains (some s) h =
      let (known, _, h₁) = >>=-returns (known_at b as_of) _ h in
      let (screened, loop, h₂) =
        >>=-returns (screen u (membership_of [] s.members) known.candles b.pairs unscreened) _ h₁ in
      let (ranked, _, h₃) = >>=-returns (rank screened) _ h₂ in
      subst (λ r. All (λ p. is_explained r p ≡ true) b.pairs) (same_value h₃)
        (All-map _ _ (conclude-explains u as_of s screened ranked) b.pairs (
          screen-accounted u (membership_of [] s.members) known.candles b.pairs unscreened screened
            loop))

-- A result names each pair of the universe: its symbol is that of a selected pair, or has an exclusion.
pub evaluate-explains :
    (u : PointInTimeLiquidityUniverse) (b : MarketDataBundle) (as_of : ℕ)
    (result : UniverseEligibilityResult)
    → evaluate u b as_of ≡ ok result
    → All (λ p. is_explained result p ≡ true) b.pairs
unfolding evaluate
evaluate-explains u b as_of result h =
    evaluate_at-explains u b as_of result (Universe.known_at u.history as_of) h
