-- ===== src/Rebalance/Run.antt =====
-- `DynamicPaperRebalanceService.run` of src/investment/crypto/application/dynamic_paper_rebalance.py: what a
-- decision executes and saves.
pub mod Safety
use Prim.Native.String.{◌++◌ as append}
use investment_research_engi.Base.{
  ℕ, suc, ◌+◌, String, Bool, true, false, Option, none, some, List, [], ◌∷◌, ◌++◌, ◌&&◌, not,
  if◌then◌else◌, str_eq, map, any, keep, leb, is_some,
}
use investment_research_engi.Base.Dict.{Dict, lookup, insert}
use investment_research_engi.Base.Result.{Result, ok, err, ◌>>=◌, ◌>>◌, raise_if}
use investment_research_engi.Decimal.{Decimal, ◌+d◌, ◌*d◌, zero_d}
use investment_research_engi.Ledger.Orders.{Position, OrderIntent}
use investment_research_engi.Ledger.Tables.{Database}
use investment_research_engi.Ledger.Accounting.{LedgerError, PaperPortfolioSnapshot, get}
use investment_research_engi.Rebalance.Floats.{Floats, zero_f, eq_f}
use investment_research_engi.Rebalance.Policy.{DynamicUniversePolicy, effective_entry_score_hurdle}
use investment_research_engi.Rebalance.Candidates.{
  CandidateAssessment, SelectedAsset, SelectionVariantResult, is_in, or_default, count_of,
}
use investment_research_engi.Rebalance.Gates.{
  RebalanceError, Overlay, KnownAt, derivatives_overlay, derivatives_entry_block_reason,
  derivatives_cost_penalty, derivatives_overlay_reasons,
}
use investment_research_engi.Rebalance.Universe.{UniverseSnapshot, known_at}
use investment_research_engi.Rebalance.Assess.{Fetch, MarketCandle, assess, last_candle}
use investment_research_engi.Rebalance.Selection.{Situation, is_above}
use investment_research_engi.Rebalance.Selection.Evidence.{Selection, select_detailed, distinct}
use investment_research_engi.Rebalance.Decisions.{
  Decision, StoredAssessment, Books, save_rebalance_decision,
}
use investment_research_engi.Rebalance.History.{
  recent_exits, expired_holdings, rolling_loss_blocked, selection_concentration_blocked,
  previous_scores, prior_counts, scores_high, was_eligible,
}
use investment_research_engi.Rebalance.Budget.{turnover_budget, daily_risk_violations}
use investment_research_engi.Rebalance.Plan.{RebalanceOrderPlan, Identity, Planning, plan, or_raise}
use investment_research_engi.Rebalance.Variants.{
  entry_signal_eligibility, selection_variants, under_reason,
}
use investment_research_engi.Rebalance.Reasons.{decision_reasons}
use investment_research_engi.Rebalance.Execution.{GatewayFactory, execute}
use investment_research_engi.Rebalance.Service.{Ports, Facts, Decided, decide}

-- `DynamicPaperRebalanceCommand`
pub record Command : Type 0 where
  pub portfolio_id : String
  pub as_of : ℕ
  pub execute : Bool
  pub persist_decision : Bool
  pub execution_deadline : Option ℕ

module _ (fs : Floats) (policy : DynamicUniversePolicy fs) (ports : Ports fs) where
  abbrev pub has_rows : List (RebalanceOrderPlan × OrderIntent) → Bool
  has_rows [] = false
  has_rows (_ ∷ _) = true

  abbrev stored : CandidateAssessment fs → StoredAssessment fs
  stored item = record {
    pair = item.pair;
    score = item.score;
    entry_signal_eligible = item.entry_signal_eligible;
  }

  abbrev counts_of : Option (Dict ℕ) → Dict ℕ
  counts_of counts = or_default counts []

  -- The reasons of `run`: those of the decision and that of the overlay.
  abbrev reasons_for : Decided fs policy ports → List String
  reasons_for d = distinct (
      decision_reasons fs policy d.situation.held_pairs (counts_of d.situation.confirmation_counts)
        (has_rows d.rows) d.candidates d.selection.selected d.violations d.selection.reasons
        d.turnover_reasons
      ++ derivatives_overlay_reasons fs policy d.facts.overlay)

  abbrev pub decision_of : Command → Decided fs policy ports → Decision fs
  decision_of command d = record {
    decision_id =
        ports.decision_identity command.portfolio_id command.as_of policy.strategy_version;
    portfolio_id = command.portfolio_id;
    strategy_version = policy.strategy_version;
    as_of = command.as_of;
    universe_observed_at = d.facts.snapshot.observed_at;
    execute = command.execute;
    equity = d.facts.equity;
    assessments = map stored d.candidates;
    selected = map (λ a. a.pair) d.selection.selected;
    risk_violations = d.violations;
    decision_reasons = reasons_for d;
  }

  -- `_save_decision`, where the command asks for it.
  abbrev pub persist : Command → Decided fs policy ports → Books fs → Books fs
  persist command d books =
      if command.persist_decision
      then save_rebalance_decision fs (decision_of command d) books
      else books

  -- The plans, which an execution marks as filled.
  abbrev planned : Decided fs policy ports → List RebalanceOrderPlan
  planned d = map (λ row. row.0) d.rows

  abbrev filled : RebalanceOrderPlan → RebalanceOrderPlan
  filled p = record p { status = "PAPER_FILLED" }

  -- What `run` returns: the decision, the plans with their last status, and the final portfolio.
  pub record Outcome : Type 0 where
    pub decided : Decided fs policy ports
    pub dry_run : Bool
    pub orders : List RebalanceOrderPlan
    pub final_portfolio : PaperPortfolioSnapshot

  abbrev pub is_late : Option ℕ → Bool
  is_late none = false
  is_late (some deadline) = leb deadline (ports.now 0)

  abbrev pub finished :
      Command
      → Decided fs policy ports
      → Books fs
      → Result LedgerError PaperPortfolioSnapshot
      → Result RebalanceError Outcome × Books fs
  finished command d books (err e) = (err (RebalanceError.of_ledger e), books)
  finished command d books (ok final) = (
    ok (record {
      decided = d;
      dry_run = false;
      orders = map filled (planned d);
      final_portfolio = final;
    }),
    persist command d books,
  )

  abbrev pub after_execution :
      Command
      → Decided fs policy ports
      → Books fs
      → Result RebalanceError (Unit {0}) × Database
      → Result RebalanceError Outcome × Books fs
  after_execution command d books (err e, ledger) = (err e, record books { ledger = ledger })
  after_execution command d books (ok done, ledger) =
      finished command d (record books { ledger = ledger }) (get command.portfolio_id ledger)

  abbrev pub intents_of : Decided fs policy ports → List OrderIntent
  intents_of d = map (λ row. row.1) d.rows

  -- `if command.execute`
  abbrev pub carry_out :
      Bool → Command → Decided fs policy ports → Books fs → Result RebalanceError Outcome × Books fs
  carry_out false command d books = (
    ok (record {
      decided = d;
      dry_run = true;
      orders = planned d;
      final_portfolio = d.facts.portfolio;
    }),
    persist command d books,
  )
  carry_out true command d books =
      if is_late command.execution_deadline
      then (err RebalanceError.deadline_elapsed, books)
      else after_execution command d books (
          execute fs policy (λ n. ports.now (suc n)) ports.factory (intents_of d) d.facts.prices
            d.facts.equity books.ledger)

  abbrev pub conclude :
      Command
      → Books fs
      → Result RebalanceError (Decided fs policy ports)
      → Result RebalanceError Outcome × Books fs
  conclude command books (err e) = (err e, books)
  conclude command books (ok d) = carry_out command.execute command d books

  -- `run`
  unfoldable pub run : Command → Books fs → Result RebalanceError Outcome × Books fs
  unfolding decide execute decision_reasons save_rebalance_decision get
  run command books =
      conclude command books (decide fs policy ports command.portfolio_id command.as_of books)
