-- ===== src/Ledger/Exchange.antt =====
-- `PaperExchangeGateway` of src/investment/crypto/infrastructure/paper_exchange.py: the deterministic
-- full fill, and its memory of the reports.
pub mod Fills
use Prim.Native.String.{◌++◌ as append}
use investment_research_engi.Base.{
  ℕ, String, Bool, true, false, Option, none, some, ◌||◌, ◌&&◌, not, if◌then◌else◌, str_eq, [],
}
use investment_research_engi.Base.Dict.{Dict, lookup, insert}
use investment_research_engi.Base.Result.{Result, ok, err, ◌>>=◌, ◌>>◌, raise_if}
use investment_research_engi.Decimal.{Decimal, ◌+d◌, ◌-d◌, ◌*d◌, lt_d, eq_d, zero_d, one_d}
use investment_research_engi.Ledger.Orders.{
  OrderSide, TradingPair, ApprovedOrder, ExecutionReport, DomainError, validate_report,
}

pub record Gateway : Type 0 where
  pub prices : Dict Decimal
  pub fee_rate : Decimal
  pub slippage_rate : Decimal
  pub execution_model_version : String
  pub reports : Dict ExecutionReport

pub data GatewayError : Type 0 where
  unsupported_model negative_rates slippage_in_v1 price_unavailable : GatewayError
  of_report : DomainError → GatewayError

-- `PaperExchangeGateway.__init__`, for a version with no white space around it.
unfoldable pub make_gateway :
    Dict Decimal → Decimal → Decimal → String → Result GatewayError Gateway
make_gateway prices fee_rate slippage_rate version = do
  raise_if (not (str_eq version "paper-fill-v1") && not (str_eq version "paper-fill-v2"))
      GatewayError.unsupported_model
  raise_if (lt_d fee_rate zero_d || lt_d slippage_rate zero_d) GatewayError.negative_rates
  raise_if (str_eq version "paper-fill-v1" && not (eq_d slippage_rate zero_d))
      GatewayError.slippage_in_v1
  ok (record {
    prices = prices;
    fee_rate = fee_rate;
    slippage_rate = slippage_rate;
    execution_model_version = version;
    reports = [];
  })

-- `TradingPair.symbol`
abbrev pub symbol_of : TradingPair → String
symbol_of p = append p.base p.quote

-- `Decimal("1") + direction * slippage_rate`
abbrev slipped : OrderSide → Decimal → Decimal
slipped OrderSide.buy rate = one_d +d one_d *d rate
slipped OrderSide.sell rate = one_d +d (zero_d -d one_d) *d rate

abbrev pub fill_price : Gateway → OrderSide → Decimal → Decimal
fill_price g side reference =
    if str_eq g.execution_model_version "paper-fill-v2"
    then reference *d slipped side g.slippage_rate
    else reference

abbrev pub report_at : Gateway → ApprovedOrder → Decimal → ℕ → ExecutionReport
report_at g o price now = record {
  order_id = append "paper:" o.intent.intent_id;
  side = o.intent.side;
  filled_quantity = o.intent.quantity;
  average_price = price;
  fee = price *d o.intent.quantity *d g.fee_rate;
  executed_at = now;
  execution_model_version = g.execution_model_version;
  fee_rate = g.fee_rate;
  slippage_rate = g.slippage_rate;
}

abbrev remember :
    String
    → Gateway
    → Result DomainError ExecutionReport
    → Result GatewayError ExecutionReport × Gateway
remember intent_id g (ok r) = (ok r, record g { reports = insert intent_id r g.reports })
remember intent_id g (err e) = (err (GatewayError.of_report e), g)

abbrev price_and_fill :
    Gateway → ApprovedOrder → ℕ → Option Decimal → Result GatewayError ExecutionReport × Gateway
price_and_fill g o now none = (err GatewayError.price_unavailable, g)
price_and_fill g o now (some reference) =
    remember o.intent.intent_id g
      (validate_report (report_at g o (fill_price g o.intent.side reference) now))

abbrev submit_new :
    Gateway
    → ApprovedOrder
    → ℕ
    → Option ExecutionReport
    → Result GatewayError ExecutionReport × Gateway
submit_new g o now (some r) = (ok r, g)
submit_new g o now none = price_and_fill g o now (lookup (symbol_of o.intent.pair) g.prices)

-- `submit`, at the reading of the clock that it makes.
unfoldable pub submit : Gateway → ApprovedOrder → ℕ → Result GatewayError ExecutionReport × Gateway
submit g o now = submit_new g o now (lookup o.intent.intent_id g.reports)
