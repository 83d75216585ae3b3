-- ===== src/Ledger/Orders.antt =====
-- src/investment/crypto/domain/{portfolio,order,accounting}.py and ports/exchange.py: the values that
-- the ledger exchanges, with the checks of their constructors. An asset is its symbol.
use investment_research_engi.Base.{ℕ, String, Bool, true, false, ◌||◌, List, [], ◌∷◌}
use investment_research_engi.Base.Chars.{codes, strip}
use investment_research_engi.Base.Result.{Result, ok, ◌>>◌, raise_if}
use investment_research_engi.Decimal.{Decimal, lt_d, le_d, zero_d}

pub data PortfolioPurpose : Type 0 where
  core_investment systematic_trading paper_trading : PortfolioPurpose

abbrev pub purpose_eq : PortfolioPurpose → PortfolioPurpose → Bool
purpose_eq PortfolioPurpose.core_investment PortfolioPurpose.core_investment = true
purpose_eq PortfolioPurpose.systematic_trading PortfolioPurpose.systematic_trading = true
purpose_eq PortfolioPurpose.paper_trading PortfolioPurpose.paper_trading = true
purpose_eq _ _ = false

abbrev pub is_core : PortfolioPurpose → Bool
is_core p = purpose_eq p PortfolioPurpose.core_investment

pub data OrderSide : Type 0 where
  buy sell : OrderSide

abbrev pub side_eq : OrderSide → OrderSide → Bool
side_eq OrderSide.buy OrderSide.buy = true
side_eq OrderSide.sell OrderSide.sell = true
side_eq _ _ = false

pub record TradingPair : Type 0 where
  pub base : String
  pub quote : String

pub record Position : Type 0 where
  pub asset : String
  pub quantity : Decimal
  pub average_cost : Decimal

pub record TradingPortfolio : Type 0 where
  pub portfolio_id : String
  pub purpose : PortfolioPurpose
  pub cash_asset : String
  pub cash_balance : Decimal
  pub positions : List Position

pub record OrderIntent : Type 0 where
  pub portfolio_id : String
  pub purpose : PortfolioPurpose
  pub pair : TradingPair
  pub side : OrderSide
  pub quantity : Decimal
  pub created_at : ℕ
  pub intent_id : String

pub record ApprovedOrder : Type 0 where
  pub intent : OrderIntent
  pub risk_policy_version : String

pub record ExecutionReport : Type 0 where
  pub order_id : String
  pub side : OrderSide
  pub filled_quantity : Decimal
  pub average_price : Decimal
  pub fee : Decimal
  pub executed_at : ℕ
  pub execution_model_version : String
  pub fee_rate : Decimal
  pub slippage_rate : Decimal

-- The `ValueError`s of the constructors.
pub data DomainError : Type 0 where
  core_forbidden negative_cash quantity_not_positive intent_id_missing : DomainError
  negative_position execution_not_positive model_version_missing negative_rate : DomainError

abbrev is_nil : List ℕ → Bool
is_nil [] = true
is_nil (_ ∷ _) = false

-- `not s.strip()`
abbrev pub is_blank : String → Bool
is_blank s = is_nil (strip (codes s))

-- `TradingPortfolio.__post_init__`
unfoldable pub validate_portfolio : TradingPortfolio → Result DomainError TradingPortfolio
validate_portfolio p = do
  raise_if (is_core p.purpose) DomainError.core_forbidden
  raise_if (lt_d p.cash_balance zero_d) DomainError.negative_cash
  ok p

-- `OrderIntent.__post_init__`
unfoldable pub validate_intent : OrderIntent → Result DomainError OrderIntent
validate_intent i = do
  raise_if (le_d i.quantity zero_d) DomainError.quantity_not_positive
  raise_if (is_blank i.intent_id) DomainError.intent_id_missing
  ok i

-- `ApprovedOrder.__post_init__`
unfoldable pub make_order : OrderIntent → String → Result DomainError ApprovedOrder
make_order i version = do
  raise_if (is_core i.purpose) DomainError.core_forbidden
  ok (record { intent = i; risk_policy_version = version })

-- `ExecutionReport.__post_init__`
unfoldable pub validate_report : ExecutionReport → Result DomainError ExecutionReport
validate_report r = do
  raise_if (le_d r.filled_quantity zero_d || le_d r.average_price zero_d || lt_d r.fee zero_d)
      DomainError.execution_not_positive
  raise_if (is_blank r.execution_model_version) DomainError.model_version_missing
  raise_if (lt_d r.fee_rate zero_d || lt_d r.slippage_rate zero_d) DomainError.negative_rate
  ok r
