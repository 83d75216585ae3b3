-- ===== src/Rebalance/Budget.antt =====
-- `_daily_risk_violations` and `_turnover_budget` of
-- src/investment/crypto/application/dynamic_paper_rebalance.py. A day begins at midnight UTC.
use investment_research_engi.Base.{
  ℕ, ◌-◌, ◌%◌, ◌≡◌, ◌↔◌, ◌⊎◌, inl, inr, String, Bool, true, false, Option, none, some, List, [],
  ◌∷◌, ◌++◌, ◌&&◌, if◌then◌else◌, str_eq, length, keep, leb, arith, is_some, Bool-cases,
}
use investment_research_engi.Base.Result.{Result, ok, err, ◌>>=◌}
use investment_research_engi.Base.Sorting.{sort_by}
use investment_research_engi.Decimal.{Decimal, ◌+d◌, ◌-d◌, ◌*d◌, lt_d, le_d, zero_d, one_d, nonzero}
use investment_research_engi.Ledger.Orders.{OrderSide}
use investment_research_engi.Ledger.Tables.{PaperExecutionRecord}
use investment_research_engi.Ledger.Accounting.{LedgerError, list_executions}
use investment_research_engi.Rebalance.Floats.{Floats, le_f, zero_f}
use investment_research_engi.Rebalance.Policy.{DynamicUniversePolicy}
use investment_research_engi.Rebalance.Candidates.{CandidateAssessment, or_default, most_liquid}
use investment_research_engi.Rebalance.Gates.{RebalanceError}
use investment_research_engi.Rebalance.Decisions.{Books}

abbrev day : ℕ
day = 86_400_000_000

abbrev pub day_start : ℕ → ℕ
day_start as_of = as_of - as_of % day

-- `sum((f(item) for item in executions), Decimal("0"))`
abbrev sum_of : (PaperExecutionRecord → Decimal) → Decimal → List PaperExecutionRecord → Decimal
sum_of f acc [] = acc
sum_of f acc (e ∷ es) = sum_of f (acc +d f e) es

abbrev when : Bool → String → List String
when true reason = reason ∷ []
when false reason = []

module _ (fs : Floats) (policy : DynamicUniversePolicy fs) where
  open fs use {Float, lt_f, quotient}

  abbrev side_weight : OrderSide → Decimal
  side_weight OrderSide.buy = one_d
  side_weight OrderSide.sell = policy.turnover_sell_weight

  abbrev pub today : ℕ → List PaperExecutionRecord → List PaperExecutionRecord
  today as_of executions = keep (λ e. leb (day_start as_of) e.executed_at) executions

  abbrev pub turnover : List PaperExecutionRecord → Decimal
  turnover executions = sum_of (λ e. e.quantity *d e.price *d side_weight e.side) zero_d executions

  abbrev pub fees : List PaperExecutionRecord → Decimal
  fees executions = sum_of (λ e. e.fee) zero_d executions

  abbrev pub realized : List PaperExecutionRecord → Decimal
  realized executions = sum_of (λ e. e.realized_pnl) zero_d executions

  -- `maximum_turnover_fraction or maximum_daily_turnover_fraction`
  abbrev pub turnover_limit : Option Decimal → Decimal
  turnover_limit none = policy.maximum_daily_turnover_fraction
  turnover_limit (some d) = if nonzero d then d else policy.maximum_daily_turnover_fraction

  abbrev pub loss_limit : Decimal → Decimal
  loss_limit equity = zero_d -d equity *d policy.maximum_daily_realized_loss_fraction

  abbrev violations_of : Decimal → Option Decimal → List PaperExecutionRecord → List String
  violations_of equity limit executions =
      when (le_d (equity *d turnover_limit limit) (turnover executions))
        "DAILY_TURNOVER_BUDGET_EXHAUSTED"
      ++ (when (le_d (equity *d policy.maximum_daily_fee_fraction) (fees executions))
            "DAILY_FEE_BUDGET_EXHAUSTED"
          ++ when (le_d (realized executions) (loss_limit equity)) "DAILY_REALIZED_LOSS_LIMIT")

  -- `_daily_risk_violations`
  unfoldable pub daily_risk_violations :
      String → Decimal → ℕ → Option Decimal → Books fs → Result LedgerError (List String)
  unfolding list_executions
  daily_risk_violations portfolio_id equity as_of limit books = do
    executions ← list_executions portfolio_id 1000 books.ledger
    ok (violations_of equity limit (today as_of executions))

  -- A decision is free of violations exactly if the day's turnover, its fees and its loss, over the latest
  -- 1,000 executions, all stay inside their limits.
  pub daily_risk_violations-clear :
      (portfolio_id : String) (equity : Decimal) (as_of : ℕ) (limit : Option Decimal)
      (books : Books fs) (executions : List PaperExecutionRecord) (out : List String)
      → list_executions portfolio_id 1000 books.ledger ≡ ok executions
      → daily_risk_violations portfolio_id equity as_of limit books ≡ ok out
      → (out ≡ []) ↔ (
          (lt_d (turnover (today as_of executions)) (equity *d turnover_limit limit) ≡ true)
          × (lt_d (fees (today as_of executions)) (equity *d policy.maximum_daily_fee_fraction)
              ≡ true)
          × (lt_d (loss_limit equity) (realized (today as_of executions)) ≡ true))
  unfolding daily_risk_violations
  daily_risk_violations-clear portfolio_id equity as_of limit books executions out listed h =
      let one : violations_of equity limit (today as_of executions) ≡ out =
        let h' = rw listed at h in ground arith in
      ((λ clear. ground arith), (λ inside. ground arith))

  abbrev is_liquid : CandidateAssessment fs → Bool
  is_liquid item =
      item.eligible
      && is_some item.average_quote_volume
      && is_some item.momentum_4h
      && is_some item.momentum_24h

  abbrev btc_of : List (CandidateAssessment fs) → Option (CandidateAssessment fs)
  btc_of [] = none
  btc_of (x ∷ xs) = if str_eq x.pair "BTCKRW" then some x else btc_of xs

  abbrev or_zero : Option Float → Float
  or_zero m = or_default m (zero_f fs)

  abbrev rises : CandidateAssessment fs → Bool
  rises item =
      lt_f (zero_f fs) (or_zero item.momentum_4h) && lt_f (zero_f fs) (or_zero item.momentum_24h)

  abbrev breadth : List (CandidateAssessment fs) → Float
  breadth [] = zero_f fs
  breadth (x ∷ xs) = quotient (length (keep rises (x ∷ xs))) (length (x ∷ xs))

  abbrev btc_strong : Option (CandidateAssessment fs) → Bool
  btc_strong none = false
  btc_strong (some btc) =
      le_f fs policy.bullish_btc_minimum_momentum_4h (or_zero btc.momentum_4h)
      && le_f fs policy.bullish_btc_minimum_momentum_24h (or_zero btc.momentum_24h)

  abbrev bullish_among : List (CandidateAssessment fs) → Bool
  bullish_among liquid =
      leb policy.bullish_market_breadth_minimum_candidates (length liquid)
      && btc_strong (btc_of liquid)
      && le_f fs policy.bullish_market_breadth_minimum (breadth liquid)

  unfoldable pub is_bullish : List (CandidateAssessment fs) → Bool
  unfolding sort_by
  is_bullish assessments =
      bullish_among (most_liquid fs policy.maximum_candidates is_liquid assessments)

  abbrev expansion_of :
      Option Decimal → Decimal → List (CandidateAssessment fs) → Decimal × List String
  expansion_of none base assessments = (base, "DYNAMIC_TURNOVER_BASE_REGIME_ACTIVE" ∷ [])
  expansion_of (some expanded) base assessments =
      if le_d expanded base
      then (base, "DYNAMIC_TURNOVER_BASE_REGIME_ACTIVE" ∷ [])
      else if is_bullish assessments
      then (expanded, "DYNAMIC_TURNOVER_BULLISH_REGIME_ACTIVE" ∷ [])
      else (base, "DYNAMIC_TURNOVER_BASE_REGIME_ACTIVE" ∷ [])

  -- `_turnover_budget`, without the reason that only writes the limit out.
  unfoldable pub turnover_budget :
      List (CandidateAssessment fs) → Result RebalanceError (Decimal × List String)
  unfolding is_bullish
  turnover_budget assessments =
      let base = policy.maximum_daily_turnover_fraction in
      if str_eq policy.turnover_budget_mode "FIXED"
      then ok (base, [])
      else if str_eq policy.turnover_budget_mode "BULLISH_REGIME"
      then ok (expansion_of policy.bullish_daily_turnover_fraction base assessments)
      else err RebalanceError.unsupported_turnover_mode

  expansion_lem :
      (expanded : Option Decimal) (assessments : List (CandidateAssessment fs)) (limit : Decimal)
      (reasons : List String)
      → expansion_of expanded policy.maximum_daily_turnover_fraction assessments ≡ (limit, reasons)
      → (limit ≡ policy.maximum_daily_turnover_fraction)
        ⊎ ((lt_d policy.maximum_daily_turnover_fraction limit ≡ true)
            × (is_bullish assessments ≡ true))
  expansion_lem none assessments limit reasons h = inl (ground arith)
  expansion_lem (some expanded) assessments limit reasons h =
      elim (Bool-cases (le_d expanded policy.maximum_daily_turnover_fraction)) [
        | inl small ↦ inl (ground arith)
        | inr large ↦ elim (Bool-cases (is_bullish assessments)) [
          | inl bullish ↦ inr (ground arith)
          | inr calm ↦ inl (ground arith)
        ]
      ]

  -- The budget is the base, or it is larger than the base and the market is bullish.
  pub turnover_budget-expands :
      (assessments : List (CandidateAssessment fs)) (limit : Decimal) (reasons : List String)
      → turnover_budget assessments ≡ ok (limit, reasons)
      → (limit ≡ policy.maximum_daily_turnover_fraction)
        ⊎ ((lt_d policy.maximum_daily_turnover_fraction limit ≡ true)
            × (is_bullish assessments ≡ true))
  unfolding turnover_budget
  turnover_budget-expands assessments limit reasons h =
      elim (Bool-cases (str_eq policy.turnover_budget_mode "FIXED")) [
        | inl fixed ↦ inl (ground arith)
        | inr free ↦ elim (Bool-cases (str_eq policy.turnover_budget_mode "BULLISH_REGIME")) [
          | inr other ↦ absurd (ground arith)
          | inl regime ↦
              expansion_lem policy.bullish_daily_turnover_fraction assessments limit reasons
                (let h' = rw free at h in let h'' = rw regime at h' in ground arith)
        ]
      ]
