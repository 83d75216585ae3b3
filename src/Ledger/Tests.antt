-- ===== src/Ledger/Tests.antt =====
-- Runs of the ledger on small inputs, and its theorems at inputs that meet their hypotheses.
use investment_research_engi.Base.{
  List, ◌≡◌, refl, Bool, true, false, some, arith, [], ◌∷◌, String, inr, str_eq, ◌↔◌,
}
use investment_research_engi.Base.Chars.{strip, strip_left}
use investment_research_engi.Base.Dict.{lookup, insert}
use investment_research_engi.Base.Int.{◌+ℤ◌, ◌-ℤ◌}
use investment_research_engi.Base.Result.{ok, err}
use investment_research_engi.Decimal.{
  integer, digit_count, round_half_even, excess, fix, align, ◌+d◌, ◌-d◌, ◌*d◌, ◌/d◌, lt_d, abs_d,
}
use investment_research_engi.Decimal.Sign.{IsNonneg}
use investment_research_engi.Ledger.Orders.{
  PortfolioPurpose, OrderSide, TradingPortfolio, OrderIntent, ApprovedOrder, ExecutionReport,
  make_order, validate_report,
}
use investment_research_engi.Ledger.Tables.{
  Database, PortfolioRow, PositionRow, find_position, put_position, delete_position,
}
use investment_research_engi.Ledger.Accounting.{
  LedgerError, apply_execution, book_execution, buy_fill, sell_fill, upsert_position,
}
use investment_research_engi.Ledger.Accounting.Outcome.{apply_execution-once}
use investment_research_engi.Ledger.Accounting.Refinement.{
  Call, apply_calls, booked_calls, post_calls, accounts_of, apply_execution-refines,
}
use investment_research_engi.Ledger.Accounting.Soundness.{IsSolvent, apply_execution-IsSolvent}
use investment_research_engi.Ledger.Risk.{
  RiskPolicy, PortfolioAllocation, evaluate_allocation, approve_order,
}
use investment_research_engi.Ledger.Risk.Limits.{WithinLimits, evaluate_allocation-WithinLimits}
use investment_research_engi.Ledger.Exchange.{Gateway, submit}

-- Names what a run computes with.
abbrev runs : Bool
unfolding apply_execution book_execution buy_fill sell_fill upsert_position find_position
    put_position delete_position lookup insert str_eq digit_count round_half_even excess fix align
    ◌+d◌ ◌-d◌ ◌*d◌ ◌/d◌ lt_d abs_d ◌+ℤ◌ ◌-ℤ◌ validate_report strip strip_left approve_order
    make_order submit
runs = true

abbrev intent : OrderIntent
intent = record {
  portfolio_id = "paper";
  purpose = PortfolioPurpose.paper_trading;
  pair = record { base = "BTC"; quote = "USDT" };
  side = OrderSide.buy;
  quantity = integer 2;
  created_at = 5;
  intent_id = "i1";
}

abbrev order : ApprovedOrder
order = record { intent = intent; risk_policy_version = "risk-v1" }

abbrev report : ExecutionReport
report = record {
  order_id = "paper:i1";
  side = OrderSide.buy;
  filled_quantity = integer 2;
  average_price = integer 100;
  fee = integer 1;
  executed_at = 7;
  execution_model_version = "paper-fill-v2";
  fee_rate = integer 0;
  slippage_rate = integer 0;
}

abbrev paper_row : PortfolioRow
paper_row = record {
  purpose = PortfolioPurpose.paper_trading;
  cash_asset = "USDT";
  cash_balance = integer 1000;
  created_at = 1;
  updated_at = 1;
}

abbrev core_row : PortfolioRow
core_row = record paper_row { purpose = PortfolioPurpose.core_investment }

abbrev books : Database
books = record {
  portfolios = ("paper", paper_row) ∷ ("core", core_row) ∷ [];
  positions = [];
  executions = [];
}

buy_lem : (apply_execution order report books).0 ≡ ok true
unfolding runs
buy_lem = refl

sell_short :
    (apply_execution
      (record order { intent = record intent { side = OrderSide.sell } })
      (record report { side = OrderSide.sell })
      books)
    ≡ (err LedgerError.insufficient_position, books)
unfolding runs
sell_short = refl

abbrev after_buy : Database
after_buy = (apply_execution order report books).1

apply_execution-once_example :
    (apply_execution order (record report { order_id = "paper:i2" }) after_buy).1 ≡ after_buy
unfolding runs
apply_execution-once_example =
    apply_execution-once order report books refl order (record report { order_id = "paper:i2" })
      (inr refl)

abbrev calls : List Call
calls =
    (order, report)
    ∷ (order, record report { order_id = "paper:i2" })
    ∷ (
      record order { intent = record intent { side = OrderSide.sell; intent_id = "i3" } },
      record report { side = OrderSide.sell; order_id = "paper:i3" },
    )
    ∷ []

-- Of the three calls the second repeats an intent.
apply_execution-refines_example :
    accounts_of (apply_calls calls books)
    ≡ post_calls (booked_calls calls books) (accounts_of books)
apply_execution-refines_example = apply_execution-refines calls books

sold_lem : (accounts_of (apply_calls calls books)).cash "paper" ≡ some (integer 998)
unfolding runs
sold_lem = refl

no_cash_lem :
    (p : String) (row : PortfolioRow)
    → lookup p books.portfolios ≡ some row
    → IsNonneg row.cash_balance
unfolding lookup
no_cash_lem p row h = ground arith

no_positions_lem :
    (p a : String) (row : PositionRow)
    → find_position p a books.positions ≡ some row
    → IsNonneg row.quantity × IsNonneg row.average_cost
unfolding find_position
no_positions_lem p a row h = absurd (ground arith)

books-IsSolvent : IsSolvent books
books-IsSolvent = record { cash = no_cash_lem; positions = no_positions_lem }

apply_execution-IsSolvent_example : IsSolvent after_buy
unfolding runs
apply_execution-IsSolvent_example =
    apply_execution-IsSolvent order report books refl tt books-IsSolvent

abbrev policy : RiskPolicy
policy = record {
  version = "risk-v1";
  maximum_invested_fraction = integer 1;
  maximum_asset_fraction = integer 1;
  maximum_positions = 3;
  maximum_single_order_notional = integer 500;
  minimum_order_notional = integer 10;
  kill_switch = false;
}

abbrev allocation : PortfolioAllocation
allocation = record {
  portfolio_id = "paper";
  purpose = PortfolioPurpose.paper_trading;
  allocations = record { asset = "BTC"; weight = integer 1 } ∷ [];
  cash_weight = integer 0;
}

abbrev portfolio : TradingPortfolio
portfolio = record {
  portfolio_id = "paper";
  purpose = PortfolioPurpose.paper_trading;
  cash_asset = "USDT";
  cash_balance = integer 1000;
  positions = [];
}

evaluate_allocation-WithinLimits_example :
    ((evaluate_allocation policy allocation portfolio).approved ≡ true)
    ↔ WithinLimits policy allocation portfolio
evaluate_allocation-WithinLimits_example =
    evaluate_allocation-WithinLimits policy allocation portfolio

abbrev gateway : Gateway
gateway = record {
  prices = ("BTCUSDT", integer 100) ∷ [];
  fee_rate = integer 0;
  slippage_rate = integer 0;
  execution_model_version = "paper-fill-v2";
  reports = [];
}

abbrev filled : ExecutionReport
filled = record report { fee = integer 0 }
