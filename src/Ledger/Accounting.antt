-- ===== src/Ledger/Accounting.antt =====
-- `SqlitePaperPortfolioRepository` (src/investment/crypto/infrastructure/sqlite_accounting.py). The
-- connection's context manager rolls a raised error back, so that it leaves the tables alone; a
-- decimal is stored as the text that reads back as the same number.
pub mod Outcome
pub mod Effect
pub mod Soundness
pub mod Refinement
use investment_research_engi.Base.{
  ℕ, String, Bool, true, false, Option, none, some, List, [], ◌∷◌, ◌&&◌, ◌||◌, not, if◌then◌else◌,
  str_eq, keep, take, leb, ltb, ◌==◌, length, map,
}
use investment_research_engi.Base.Dict.{Dict, lookup, insert}
use investment_research_engi.Base.Int.{ℤ, pos, negsuc}
use investment_research_engi.Base.Order.{str_lt}
use investment_research_engi.Base.Result.{Result, ok, err, ◌>>=◌, ◌>>◌, raise_if}
use investment_research_engi.Decimal.{
  Decimal, ◌+d◌, ◌-d◌, ◌*d◌, ◌/d◌, lt_d, le_d, nonzero, abs_d, zero_d,
}
use investment_research_engi.Ledger.Orders.{
  PortfolioPurpose, purpose_eq, OrderSide, side_eq, TradingPortfolio, Position, OrderIntent,
  ApprovedOrder, ExecutionReport,
}
use investment_research_engi.Ledger.Tables.{
  Database, PortfolioRow, PositionRow, PaperExecutionRecord, find_position, put_position,
  delete_position, is_recorded, is_at,
}

pub data LedgerError : Type 0 where
  initial_positions identity_mismatch unknown_portfolio side_mismatch invalid_fill : LedgerError
  purpose_mismatch quote_mismatch insufficient_cash insufficient_position : LedgerError
  division_by_zero limit_not_positive : LedgerError

abbrev pub or_raise {ℓ} : {A : Type ℓ} → Option A → LedgerError → Result LedgerError A
or_raise none e = err e
or_raise (some a) e = ok a

-- What one execution does to the account of its portfolio.
pub record Fill : Type 0 where
  pub new_quantity : Decimal
  pub new_average : Decimal
  pub cash : Decimal
  pub realized_pnl : Decimal

-- The position before; none counts as nothing held.
abbrev pub held_quantity : Option PositionRow → Decimal
held_quantity none = zero_d
held_quantity (some row) = row.quantity

abbrev pub held_average : Option PositionRow → Decimal
held_average none = zero_d
held_average (some row) = row.average_cost

-- `if intent.side is OrderSide.BUY`
unfoldable pub buy_fill : ExecutionReport → Decimal → Decimal → Decimal → Result LedgerError Fill
buy_fill r cash old_quantity old_average = do
  let notional = r.filled_quantity *d r.average_price
  let required_cash = notional +d r.fee
  raise_if (lt_d cash required_cash) LedgerError.insufficient_cash
  let new_quantity = old_quantity +d r.filled_quantity
  new_average ←
      or_raise ((old_quantity *d old_average +d notional +d r.fee) /d new_quantity)
        LedgerError.division_by_zero
  ok (record {
    new_quantity = new_quantity;
    new_average = new_average;
    cash = cash -d required_cash;
    realized_pnl = zero_d;
  })

unfoldable pub sell_fill : ExecutionReport → Decimal → Decimal → Decimal → Result LedgerError Fill
sell_fill r cash old_quantity old_average = do
  let notional = r.filled_quantity *d r.average_price
  raise_if (lt_d old_quantity r.filled_quantity) LedgerError.insufficient_position
  let new_quantity = old_quantity -d r.filled_quantity
  ok (record {
    new_quantity = new_quantity;
    new_average = if nonzero new_quantity then old_average else zero_d;
    cash = cash +d (notional -d r.fee);
    realized_pnl = (r.average_price -d old_average) *d r.filled_quantity -d r.fee;
  })

abbrev pub fill_of :
    OrderSide → ExecutionReport → Decimal → Decimal → Decimal → Result LedgerError Fill
fill_of OrderSide.buy = buy_fill
fill_of OrderSide.sell = sell_fill

-- `Decimal("1e-18")`
abbrev pub dust : Decimal
dust = record { coefficient = pos 1; exponent = negsuc 17 }

-- `_upsert_position`
unfoldable pub upsert_position : PositionRow → List PositionRow → List PositionRow
upsert_position row rows =
    if lt_d (abs_d row.quantity) dust
    then delete_position row.portfolio_id row.asset rows
    else put_position row rows

abbrev pub record_of : OrderIntent → ExecutionReport → Fill → PaperExecutionRecord
record_of i r f = record {
  order_id = r.order_id;
  intent_id = i.intent_id;
  portfolio_id = i.portfolio_id;
  pair = i.pair;
  side = i.side;
  quantity = r.filled_quantity;
  price = r.average_price;
  fee = r.fee;
  realized_pnl = f.realized_pnl;
  executed_at = r.executed_at;
  execution_model_version = r.execution_model_version;
  fee_rate = r.fee_rate;
  slippage_rate = r.slippage_rate;
}

abbrev pub position_of : OrderIntent → Fill → PositionRow
position_of i f = record {
  portfolio_id = i.portfolio_id;
  asset = i.pair.base;
  quantity = f.new_quantity;
  average_cost = f.new_average;
}

-- The three writes of one execution.
abbrev pub write_fill : OrderIntent → ExecutionReport → PortfolioRow → Fill → Database → Database
write_fill i r p f db = record {
  portfolios =
      insert i.portfolio_id (record p { cash_balance = f.cash; updated_at = r.executed_at })
        db.portfolios;
  positions = upsert_position (position_of i f) db.positions;
  executions = record_of i r f ∷ db.executions;
}

-- The transaction of `apply_execution`, after the test for a duplicate.
unfoldable pub book_execution :
    OrderIntent → ExecutionReport → Database → Result LedgerError Database
book_execution i r db = do
  p ← or_raise (lookup i.portfolio_id db.portfolios) LedgerError.unknown_portfolio
  raise_if (not (purpose_eq p.purpose i.purpose)) LedgerError.purpose_mismatch
  raise_if (not (str_eq p.cash_asset i.pair.quote)) LedgerError.quote_mismatch
  let old = find_position i.portfolio_id i.pair.base db.positions
  f ← fill_of i.side r p.cash_balance (held_quantity old) (held_average old)
  ok (write_fill i r p f db)

abbrev committed : Result LedgerError Database → Database → Result LedgerError Bool × Database
committed (ok db') db = (ok true, db')
committed (err e) db = (err e, db)

-- `apply_execution`: true where the execution is booked, false where it is a duplicate.
unfoldable pub apply_execution :
    ApprovedOrder → ExecutionReport → Database → Result LedgerError Bool × Database
apply_execution order r db =
    let i = order.intent in
    if not (side_eq r.side i.side)
    then (err LedgerError.side_mismatch, db)
    else if le_d r.filled_quantity zero_d || lt_d i.quantity r.filled_quantity
    then (err LedgerError.invalid_fill, db)
    else if is_recorded r.order_id i.intent_id db.executions
    then (ok false, db)
    else committed (book_execution i r db) db

-- `PaperPortfolioSnapshot`
pub record PaperPortfolioSnapshot : Type 0 where
  pub portfolio_id : String
  pub purpose : PortfolioPurpose
  pub cash_asset : String
  pub cash_balance : Decimal
  pub positions : List Position
  pub updated_at : ℕ

-- ORDER BY asset
unfoldable pub place_by_asset : PositionRow → List PositionRow → List PositionRow
place_by_asset row [] = row ∷ []
place_by_asset row (x ∷ rows) =
    let rest = place_by_asset row rows in
    if str_lt x.asset row.asset then x ∷ rest else row ∷ x ∷ rows

unfoldable pub sort_by_asset : List PositionRow → List PositionRow
unfolding place_by_asset
sort_by_asset [] = []
sort_by_asset (row ∷ rows) = place_by_asset row (sort_by_asset rows)

abbrev as_position : PositionRow → Position
as_position row = record {
  asset = row.asset;
  quantity = row.quantity;
  average_cost = row.average_cost;
}

-- `get`
unfoldable pub get : String → Database → Result LedgerError PaperPortfolioSnapshot
get portfolio_id db = do
  p ← or_raise (lookup portfolio_id db.portfolios) LedgerError.unknown_portfolio
  ok (record {
    portfolio_id = portfolio_id;
    purpose = p.purpose;
    cash_asset = p.cash_asset;
    cash_balance = p.cash_balance;
    positions =
        map as_position
          (sort_by_asset (keep (λ row. str_eq row.portfolio_id portfolio_id) db.positions));
    updated_at = p.updated_at;
  })

abbrev has_positions : List Position → Bool
has_positions [] = false
has_positions (_ ∷ _) = true

abbrev fresh_row : TradingPortfolio → ℕ → PortfolioRow
fresh_row t now = record {
  purpose = t.purpose;
  cash_asset = t.cash_asset;
  cash_balance = t.cash_balance;
  created_at = now;
  updated_at = now;
}

abbrev create_at :
    TradingPortfolio → ℕ → Option PortfolioRow → Database → Result LedgerError Database
create_at t now none db =
    ok (record db { portfolios = insert t.portfolio_id (fresh_row t now) db.portfolios })
create_at t now (some p) db =
    if purpose_eq p.purpose t.purpose && str_eq p.cash_asset t.cash_asset
    then ok db
    else err LedgerError.identity_mismatch

-- `create`: an existing portfolio of the same identity keeps its balance.
unfoldable pub create : TradingPortfolio → ℕ → Database → Result LedgerError Database
create t now db = do
  raise_if (has_positions t.positions) LedgerError.initial_positions
  create_at t now (lookup t.portfolio_id db.portfolios) db

-- ORDER BY executed_at DESC
unfoldable pub place_latest :
    PaperExecutionRecord → List PaperExecutionRecord → List PaperExecutionRecord
place_latest e [] = e ∷ []
place_latest e (x ∷ es) =
    let rest = place_latest e es in if ltb e.executed_at x.executed_at then x ∷ rest else e ∷ x ∷ es

unfoldable pub sort_latest_executions : List PaperExecutionRecord → List PaperExecutionRecord
unfolding place_latest
sort_latest_executions [] = []
sort_latest_executions (e ∷ es) = place_latest e (sort_latest_executions es)

-- `list_executions`
unfoldable pub list_executions :
    String → ℕ → Database → Result LedgerError (List PaperExecutionRecord)
unfolding get sort_latest_executions
list_executions portfolio_id limit db = do
  raise_if (limit == 0) LedgerError.limit_not_positive
  _ ← get portfolio_id db
  ok (
      take limit
        (sort_latest_executions (keep (λ e. str_eq e.portfolio_id portfolio_id) db.executions)))
