-- ===== src/Rebalance/Execution.antt =====
-- `_execute` of src/investment/crypto/application/dynamic_paper_rebalance.py: each intent is approved, filled
-- and booked, one after the other. What was booked before a raise stays booked.
pub mod Safety
use investment_research_engi.Base.{
  ℕ, suc, ◌+◌, String, Bool, false, Option, none, some, List, [], ◌∷◌,
}
use investment_research_engi.Base.Dict.{Dict, lookup}
use investment_research_engi.Base.Result.{Result, ok, err}
use investment_research_engi.Decimal.{Decimal, one_d}
use investment_research_engi.Ledger.Orders.{OrderIntent, ApprovedOrder, ExecutionReport}
use investment_research_engi.Ledger.Tables.{Database}
use investment_research_engi.Ledger.Risk.{
  RiskPolicy, PolicyError, ApprovalError, validate_policy, approve_order,
}
use investment_research_engi.Ledger.Accounting.{LedgerError, apply_execution}
use investment_research_engi.Ledger.Exchange.{
  Gateway, GatewayError, make_gateway, submit, symbol_of,
}
use investment_research_engi.Rebalance.Floats.{Floats}
use investment_research_engi.Rebalance.Policy.{DynamicUniversePolicy}
use investment_research_engi.Rebalance.Gates.{RebalanceError}

-- `PaperExchangeGatewayFactory` of infrastructure/paper_exchange.py; its `create` is `make_gateway`.
pub record GatewayFactory : Type 0 where
  pub fee_rate : Decimal
  pub slippage_rate : Decimal
  pub execution_model_version : String

-- What the loop changes: the gateway, the tables and the readings of the clock that were made.
pub record Desk : Type 0 where
  pub gateway : Gateway
  pub ledger : Database
  pub readings : ℕ

abbrev pub settle_booking :
    Gateway → ℕ → Result LedgerError Bool × Database → Result RebalanceError (Unit {0}) × Desk
settle_booking g n (ok booked, ledger) =
    (ok tt, record { gateway = g; ledger = ledger; readings = n })
settle_booking g n (err e, ledger) =
    (err (RebalanceError.of_ledger e), record { gateway = g; ledger = ledger; readings = n })

abbrev pub book_fill :
    ApprovedOrder
    → ℕ
    → Database
    → Result GatewayError ExecutionReport × Gateway
    → Result RebalanceError (Unit {0}) × Desk
book_fill o n ledger (ok report, g) = settle_booking g n (apply_execution o report ledger)
book_fill o n ledger (err e, g) =
    (err (RebalanceError.of_gateway e), record { gateway = g; ledger = ledger; readings = n })

module _ (clock : ℕ → ℕ) where
  abbrev pub fill_order :
      Result ApprovalError ApprovedOrder → Desk → Result RebalanceError (Unit {0}) × Desk
  fill_order (err e) desk = (err (RebalanceError.of_approval e), desk)
  fill_order (ok o) desk =
      book_fill o (suc desk.readings) desk.ledger (submit desk.gateway o (clock desk.readings))

  abbrev pub order_at :
      RiskPolicy → OrderIntent → Option Decimal → Desk → Result RebalanceError (Unit {0}) × Desk
  order_at risk i none desk = (err RebalanceError.no_price, desk)
  order_at risk i (some price) desk = fill_order (approve_order risk i price) desk

  -- One pass of the loop.
  unfoldable pub execute_one :
      RiskPolicy → Dict Decimal → OrderIntent → Desk → Result RebalanceError (Unit {0}) × Desk
  unfolding lookup approve_order submit apply_execution
  execute_one risk prices i desk = order_at risk i (lookup (symbol_of i.pair) prices) desk

  abbrev pub go_on :
      (Desk → Result RebalanceError (Unit {0}) × Desk)
      → Result RebalanceError (Unit {0}) × Desk
      → Result RebalanceError (Unit {0}) × Desk
  go_on next (ok done, after) = next after
  go_on next (err e, after) = (err e, after)

  unfoldable pub execute_all :
      RiskPolicy → Dict Decimal → List OrderIntent → Desk → Result RebalanceError (Unit {0}) × Desk
  unfolding execute_one
  execute_all risk prices [] desk = (ok tt, desk)
  execute_all risk prices (i ∷ is) desk =
      go_on (λ after. execute_all risk prices is after) (execute_one risk prices i desk)

abbrev pub risk_policy_of : (fs : Floats) → DynamicUniversePolicy fs → Decimal → RiskPolicy
risk_policy_of fs policy equity = record {
  version = "v1";
  maximum_invested_fraction = one_d;
  maximum_asset_fraction = policy.maximum_asset_weight;
  maximum_positions = policy.maximum_positions;
  maximum_single_order_notional = equity;
  minimum_order_notional = policy.minimum_order_notional;
  kill_switch = false;
}

abbrev desk_outcome :
    Result RebalanceError (Unit {0}) × Desk → Result RebalanceError (Unit {0}) × Database
desk_outcome (r, desk) = (r, desk.ledger)

abbrev pub open_desk : Gateway → Database → Desk
open_desk g ledger = record { gateway = g; ledger = ledger; readings = 0 }

module _ (fs : Floats) (policy : DynamicUniversePolicy fs) (clock : ℕ → ℕ) where
  abbrev pub execute_under :
      Result PolicyError RiskPolicy
      → Gateway
      → Dict Decimal
      → List OrderIntent
      → Database
      → Result RebalanceError (Unit {0}) × Database
  execute_under (err e) g prices intents ledger = (err (RebalanceError.of_policy e), ledger)
  execute_under (ok risk) g prices intents ledger =
      desk_outcome (execute_all clock risk prices intents (open_desk g ledger))

  abbrev pub execute_with :
      Result GatewayError Gateway
      → List OrderIntent
      → Dict Decimal
      → Decimal
      → Database
      → Result RebalanceError (Unit {0}) × Database
  execute_with (err e) intents prices equity ledger = (err (RebalanceError.of_gateway e), ledger)
  execute_with (ok g) intents prices equity ledger =
      execute_under (validate_policy (risk_policy_of fs policy equity)) g prices intents ledger

  -- `_execute`
  unfoldable pub execute :
      GatewayFactory
      → List OrderIntent
      → Dict Decimal
      → Decimal
      → Database
      → Result RebalanceError (Unit {0}) × Database
  unfolding make_gateway validate_policy execute_all
  execute factory intents prices equity ledger =
      execute_with
        (make_gateway prices factory.fee_rate factory.slippage_rate factory.execution_model_version)
        intents prices equity ledger
