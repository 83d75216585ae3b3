-- ===== src/Rebalance/Service.antt =====
-- `DynamicPaperRebalanceService.run` of src/investment/crypto/application/dynamic_paper_rebalance.py: how it
-- comes to a decision. The clock, the market data, the overlay provider and the hashes are parameters.
pub mod Phases
use Prim.Native.String.{◌++◌ as append}
use investment_research_engi.Base.{
  ℕ, suc, ◌+◌, String, Bool, true, false, Option, none, some, List, [], ◌∷◌, ◌++◌, ◌&&◌, not,
  if◌then◌else◌, str_eq, map, any, keep, leb, is_some,
}
use investment_research_engi.Base.Dict.{Dict, lookup, insert}
use investment_research_engi.Base.Result.{Result, ok, err, ◌>>=◌, ◌>>◌, raise_if}
use investment_research_engi.Decimal.{Decimal, ◌+d◌, ◌*d◌, zero_d}
use investment_research_engi.Ledger.Orders.{Position, OrderIntent}
use investment_research_engi.Ledger.Tables.{Database}
use investment_research_engi.Ledger.Accounting.{LedgerError, PaperPortfolioSnapshot, get}
use investment_research_engi.Rebalance.Floats.{Floats, zero_f, eq_f}
use investment_research_engi.Rebalance.Policy.{DynamicUniversePolicy, effective_entry_score_hurdle}
use investment_research_engi.Rebalance.Candidates.{
  CandidateAssessment, SelectedAsset, SelectionVariantResult, is_in, or_default, count_of,
}
use investment_research_engi.Rebalance.Gates.{
  RebalanceError, Overlay, KnownAt, derivatives_overlay, derivatives_entry_block_reason,
  derivatives_cost_penalty, derivatives_overlay_reasons,
}
use investment_research_engi.Rebalance.Universe.{UniverseSnapshot, known_at}
use investment_research_engi.Rebalance.Assess.{Fetch, MarketCandle, assess, last_candle}
use investment_research_engi.Rebalance.Selection.{Situation, is_above}
use investment_research_engi.Rebalance.Selection.Evidence.{Selection, select_detailed, distinct}
use investment_research_engi.Rebalance.Decisions.{
  Decision, StoredAssessment, Books, save_rebalance_decision,
}
use investment_research_engi.Rebalance.History.{
  recent_exits, expired_holdings, rolling_loss_blocked, selection_concentration_blocked,
  previous_scores, prior_counts, scores_high, was_eligible,
}
use investment_research_engi.Rebalance.Budget.{turnover_budget, daily_risk_violations}
use investment_research_engi.Rebalance.Plan.{RebalanceOrderPlan, Identity, Planning, plan, or_raise}
use investment_research_engi.Rebalance.Variants.{
  entry_signal_eligibility, selection_variants, under_reason,
}
use investment_research_engi.Rebalance.Reasons.{decision_reasons}
use investment_research_engi.Rebalance.Execution.{GatewayFactory, execute}

-- The collaborators of the service that do not change.
pub record Ports (fs : Floats) : Type 0 where
  pub history : List UniverseSnapshot
  pub fetch : Fetch
  pub provider : Option (KnownAt fs)
  pub factory : GatewayFactory
  pub identity : Identity
  pub decision_identity : String → ℕ → String → String
  pub now : ℕ → ℕ

abbrev pub of_ledger {ℓ} : {A : Type ℓ} → Result LedgerError A → Result RebalanceError A
of_ledger (ok a) = ok a
of_ledger (err e) = err (RebalanceError.of_ledger e)

abbrev pub held_pairs_of : PaperPortfolioSnapshot → List String
held_pairs_of p = map (λ x. append x.asset p.cash_asset) p.positions

abbrev pub last_closes : Dict (List MarketCandle) → Dict Decimal
last_closes [] = []
last_closes ((pair, candles) ∷ rest) = with_close (last_candle candles) pair (last_closes rest)
  where
    with_close : Option MarketCandle → String → Dict Decimal → Dict Decimal
    with_close none pair prices = prices
    with_close (some c) pair prices = (pair, c.close) ∷ prices

-- The sum of the positions' values, of a portfolio whose positions all have prices.
abbrev value_from : Decimal → String → Dict Decimal → List Position → Result RebalanceError Decimal
value_from acc cash prices [] = ok acc
value_from acc cash prices (p ∷ ps) =
    or_raise (lookup (append p.asset cash) prices) RebalanceError.unvalued_holding >>= λ price.
    value_from (acc +d p.quantity *d price) cash prices ps

module _ (fs : Floats) (policy : DynamicUniversePolicy fs) (ports : Ports fs) where
  open fs use {Float, sub_f}

  -- What a decision reads first.
  pub record Facts : Type 0 where
    pub overlay : Option (Overlay fs)
    pub snapshot : UniverseSnapshot
    pub portfolio : PaperPortfolioSnapshot
    pub candidates : List (CandidateAssessment fs)
    pub prices : Dict Decimal
    pub equity : Decimal

  abbrev less : Float → Option Float → Option Float
  less penalty none = none
  less penalty (some expected) = some (sub_f expected penalty)

  abbrev charged : Float → CandidateAssessment fs → CandidateAssessment fs
  charged penalty item = record item {
    fee_adjusted_expected_return = less penalty item.fee_adjusted_expected_return;
  }

  -- `if penalty:` is false for zero.
  abbrev penalize : Float → List (CandidateAssessment fs) → List (CandidateAssessment fs)
  penalize penalty candidates =
      if eq_f fs penalty (zero_f fs) then candidates else map (charged penalty) candidates

  -- `run`, down to the equity.
  unfoldable pub observe : String → ℕ → Books fs → Result RebalanceError Facts
  unfolding derivatives_overlay known_at get assess derivatives_cost_penalty lookup
  observe portfolio_id as_of books = do
    overlay ← derivatives_overlay fs policy as_of ports.provider
    snapshot ← or_raise (known_at ports.history as_of) RebalanceError.no_universe
    portfolio ← of_ledger (get portfolio_id books.ledger)
    let held = held_pairs_of portfolio
    assessed ← assess fs policy ports.fetch as_of held snapshot
    let prices = last_closes assessed.1
    value ← value_from zero_d portfolio.cash_asset prices portfolio.positions
    ok (record {
      overlay = overlay;
      snapshot = snapshot;
      portfolio = portfolio;
      candidates = penalize (derivatives_cost_penalty fs policy overlay) assessed.0;
      prices = prices;
      equity = portfolio.cash_balance +d value;
    })

  -- The situation that the past puts a selection in.
  unfoldable pub recall : String → ℕ → Books fs → Facts → Result LedgerError (Situation fs)
  unfolding previous_scores prior_counts recent_exits expired_holdings
      selection_concentration_blocked rolling_loss_blocked derivatives_entry_block_reason
  recall portfolio_id as_of books facts = do
    let held = held_pairs_of facts.portfolio
    scores ← previous_scores fs policy portfolio_id books
    counts ← prior_counts fs policy (scores_high fs policy) portfolio_id books
    exits ← recent_exits fs policy portfolio_id as_of books
    expired ← expired_holdings fs policy portfolio_id held as_of books
    concentrated ← selection_concentration_blocked fs policy portfolio_id as_of books
    losers ← rolling_loss_blocked fs policy portfolio_id facts.equity as_of books
    ok (record {
      held_pairs = held;
      previous_scores = scores;
      recent_exits = exits;
      expired = expired;
      confirmation_counts = some counts;
      concentration_blocked = concentrated;
      rolling_loss_blocked = losers;
      entry_block_reason = derivatives_entry_block_reason fs policy facts.overlay;
    })

  abbrev is_listed : List String → Bool
  is_listed [] = false
  is_listed (_ ∷ _) = true

  abbrev target_weights : List (SelectedAsset fs) → Dict Decimal → Dict Decimal
  target_weights [] targets = targets
  target_weights (a ∷ as') targets = target_weights as' (insert a.pair a.target_weight targets)

  -- The arguments of `_plan`.
  abbrev pub planning_of :
      ℕ → Facts → Situation fs → List (SelectedAsset fs) → List String → Planning
  planning_of as_of facts s selected violations = record {
    members = facts.snapshot.members;
    portfolio = facts.portfolio;
    equity = facts.equity;
    prices = facts.prices;
    targets = target_weights selected [];
    as_of = as_of;
    block_buys = is_listed violations;
    blocked_buy_pairs = s.rolling_loss_blocked;
  }

  -- A decision, before anything is executed.
  pub record Decided : Type 0 where
    pub facts : Facts
    pub situation : Situation fs
    pub selection : Selection fs
    pub candidates : List (CandidateAssessment fs)
    pub variants : List (SelectionVariantResult fs)
    pub violations : List String
    pub turnover_reasons : List String
    pub rows : List (RebalanceOrderPlan × OrderIntent)

  -- The candidates with what the decision says of each.
  abbrev explained :
      Selection fs → Dict ℕ → Dict ℕ → List String → CandidateAssessment fs → CandidateAssessment fs
  explained selection counts entry_counts signals item = record item {
    decision_reasons = or_default (lookup item.pair selection.candidate_reasons) [];
    candidate_confirmation_count =
        if is_above fs item.score (effective_entry_score_hurdle fs policy)
        then count_of counts item.pair + 1
        else 0;
    entry_signal_eligible = is_in item.pair signals;
    entry_eligible_confirmation_count =
        if is_in item.pair signals then count_of entry_counts item.pair + 1 else 0;
  }

  unfoldable pub judge :
      String → ℕ → Books fs → Facts → Situation fs → Result RebalanceError Decided
  unfolding select_detailed prior_counts entry_signal_eligibility selection_variants turnover_budget
      daily_risk_violations plan
  judge portfolio_id as_of books facts s = do
    selection ← select_detailed fs policy s facts.candidates
    counts ← of_ledger (prior_counts fs policy (scores_high fs policy) portfolio_id books)
    entry_counts ← of_ledger (prior_counts fs policy (was_eligible fs policy) portfolio_id books)
    variants ← selection_variants fs policy s facts.candidates facts.overlay
    budget ← turnover_budget fs policy facts.candidates
    violations ←
        of_ledger
          (daily_risk_violations fs policy portfolio_id facts.equity as_of (some budget.0) books)
    rows ← plan fs policy ports.identity (planning_of as_of facts s selection.selected violations)
    ok (record {
      facts = facts;
      situation = s;
      selection = selection;
      candidates =
          map
            (explained selection counts entry_counts
              (entry_signal_eligibility fs policy facts.candidates s.entry_block_reason))
            facts.candidates;
      variants = variants;
      violations = violations;
      turnover_reasons = budget.1;
      rows = rows;
    })

  -- `run`, down to the plans.
  unfoldable pub decide : String → ℕ → Books fs → Result RebalanceError Decided
  unfolding observe recall judge
  decide portfolio_id as_of books = do
    facts ← observe portfolio_id as_of books
    s ← of_ledger (recall portfolio_id as_of books facts)
    judge portfolio_id as_of books facts s
