-- ===== src/Ledger/Tables.antt =====
-- The tables of src/investment/crypto/infrastructure/sqlite_accounting.py.
use investment_research_engi.Base.{
  ℕ, String, ◌≡◌, refl, Bool, Option, none, some, List, [], ◌∷◌, ◌&&◌, ◌||◌, not, if◌then◌else◌,
  str_eq, str_eq_iff, arith, any, keep,
}
use investment_research_engi.Base.Dict.{Dict}
use investment_research_engi.Decimal.{Decimal}
use investment_research_engi.Ledger.Orders.{PortfolioPurpose, OrderSide, TradingPair}

-- paper_portfolio, by portfolio_id
pub record PortfolioRow : Type 0 where
  pub purpose : PortfolioPurpose
  pub cash_asset : String
  pub cash_balance : Decimal
  pub created_at : ℕ
  pub updated_at : ℕ

-- paper_position, by portfolio_id and asset
pub record PositionRow : Type 0 where
  pub portfolio_id : String
  pub asset : String
  pub quantity : Decimal
  pub average_cost : Decimal

-- paper_execution, by order_id; intent_id is unique
pub record PaperExecutionRecord : Type 0 where
  pub order_id : String
  pub intent_id : String
  pub portfolio_id : String
  pub pair : TradingPair
  pub side : OrderSide
  pub quantity : Decimal
  pub price : Decimal
  pub fee : Decimal
  pub realized_pnl : Decimal
  pub executed_at : ℕ
  pub execution_model_version : String
  pub fee_rate : Decimal
  pub slippage_rate : Decimal

pub record Database : Type 0 where
  pub portfolios : Dict PortfolioRow
  pub positions : List PositionRow
  pub executions : List PaperExecutionRecord

abbrev pub is_at : String → String → PositionRow → Bool
is_at p a row = str_eq row.portfolio_id p && str_eq row.asset a

unfoldable pub find_position : String → String → List PositionRow → Option PositionRow
find_position p a [] = none
find_position p a (row ∷ rows) = if is_at p a row then some row else find_position p a rows

-- INSERT … ON CONFLICT(portfolio_id, asset) DO UPDATE
unfoldable pub put_position : PositionRow → List PositionRow → List PositionRow
put_position new [] = new ∷ []
put_position new (row ∷ rows) =
    let rest = put_position new rows in
    if is_at new.portfolio_id new.asset row then new ∷ rows else row ∷ rest

-- DELETE … WHERE portfolio_id = ? AND asset = ?
unfoldable pub delete_position : String → String → List PositionRow → List PositionRow
delete_position p a = keep (λ row. not (is_at p a row))

-- SELECT 1 … WHERE order_id = ? OR intent_id = ?
abbrev pub is_recorded : String → String → List PaperExecutionRecord → Bool
is_recorded order_id intent_id =
    any (λ e. str_eq e.order_id order_id || str_eq e.intent_id intent_id)

pub find-put :
    (new : PositionRow) (p a : String) (rows : List PositionRow)
    → find_position p a (put_position new rows)
      ≡ (if is_at p a new then some new else find_position p a rows)
unfolding find_position put_position
find-put new p a [] = refl
find-put new p a (row ∷ rows) = ground (
  arith,
  str_eq_iff row.portfolio_id new.portfolio_id,
  str_eq_iff row.asset new.asset,
  str_eq_iff row.portfolio_id p,
  str_eq_iff row.asset a,
  str_eq_iff new.portfolio_id p,
  str_eq_iff new.asset a,
  find-put new p a rows,
)

pub find-delete :
    (q b p a : String) (rows : List PositionRow)
    → find_position p a (delete_position q b rows)
      ≡ (if str_eq q p && str_eq b a then none else find_position p a rows)
unfolding find_position delete_position
find-delete q b p a [] = ground arith
find-delete q b p a (row ∷ rows) = ground (
  arith,
  str_eq_iff row.portfolio_id p,
  str_eq_iff row.portfolio_id q,
  str_eq_iff q p,
  str_eq_iff row.asset a,
  str_eq_iff row.asset b,
  str_eq_iff b a,
  find-delete q b p a rows,
)
