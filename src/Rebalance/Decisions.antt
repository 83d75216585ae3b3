-- ===== src/Rebalance/Decisions.antt =====
-- The decisions that a rebalance stores: `save_rebalance_decision` and `list_rebalance_decisions` of
-- src/investment/crypto/infrastructure/sqlite_accounting.py. A JSON column is the value that it encodes,
-- and of an assessment the fields that are read again.
pub mod Storing
use investment_research_engi.Base.{
  ℕ, String, Bool, Option, List, [], ◌∷◌, ◌==◌, if◌then◌else◌, str_eq, any, keep, take, ltb,
}
use investment_research_engi.Base.Result.{Result, ok, ◌>>=◌, ◌>>◌, raise_if}
use investment_research_engi.Base.Sorting.{sort_by}
use investment_research_engi.Decimal.{Decimal}
use investment_research_engi.Ledger.Tables.{Database}
use investment_research_engi.Ledger.Accounting.{LedgerError, get}
use investment_research_engi.Rebalance.Floats.{Floats}

module _ (fs : Floats) where
  open fs use {Float}

  pub record StoredAssessment : Type 0 where
    pub pair : String
    pub score : Option Float
    pub entry_signal_eligible : Bool

  -- `PaperRebalanceDecisionRecord` of domain/accounting.py, without its orders and its market context,
  -- which nothing reads.
  pub record Decision : Type 0 where
    pub decision_id : String
    pub portfolio_id : String
    pub strategy_version : String
    pub as_of : ℕ
    pub universe_observed_at : ℕ
    pub execute : Bool
    pub equity : Decimal
    pub assessments : List StoredAssessment
    pub selected : List String
    pub risk_violations : List String
    pub decision_reasons : List String

  -- The tables of the accounts, and paper_rebalance_decision.
  pub record Books : Type 0 where
    pub ledger : Database
    pub decisions : List Decision

  -- INSERT OR IGNORE, by decision_id
  unfoldable pub save_rebalance_decision : Decision → Books → Books
  save_rebalance_decision d books =
      if any (λ e. str_eq e.decision_id d.decision_id) books.decisions
      then books
      else record books { decisions = d ∷ books.decisions }

  -- ORDER BY as_of DESC
  abbrev pub later : Decision → Decision → Bool
  later a b = ltb b.as_of a.as_of

  unfoldable pub list_rebalance_decisions : String → ℕ → Books → Result LedgerError (List Decision)
  unfolding get sort_by
  list_rebalance_decisions portfolio_id limit books = do
    raise_if (limit == 0) LedgerError.limit_not_positive
    _ ← get portfolio_id books.ledger
    ok (take limit (sort_by later (keep (λ d. str_eq d.portfolio_id portfolio_id) books.decisions)))
