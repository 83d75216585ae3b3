-- ===== src/Rebalance/Execution/Safety.antt =====
-- `_execute` and the ledger: what a cycle of orders leaves alone.
use investment_research_engi.Base.{
  ℕ, suc, ◌≡◌, ◌≢◌, refl, Bool, sym, ◌∙◌, subst, String, true, Option, none, some, List, [], ◌∷◌,
  arith, any, All, str_eq,
}
use investment_research_engi.Base.Dict.{Dict, lookup}
use investment_research_engi.Base.Result.{Result, ok, err}
use investment_research_engi.Decimal.{Decimal, lt_d}
use investment_research_engi.Ledger.Orders.{is_core, OrderIntent, ApprovedOrder, ExecutionReport}
use investment_research_engi.Ledger.Tables.{
  Database, PortfolioRow, PaperExecutionRecord, find_position, is_recorded,
}
use investment_research_engi.Ledger.Risk.{
  RiskPolicy, ApprovalError, PolicyError, approve_order, validate_policy,
}
use investment_research_engi.Ledger.Risk.Limits.{approve_order-limits}
use investment_research_engi.Ledger.Accounting.{LedgerError, apply_execution}
use investment_research_engi.Ledger.Boundary.{core_untouched}
use investment_research_engi.Ledger.Exchange.{
  Gateway, GatewayError, submit, make_gateway, symbol_of,
}
use investment_research_engi.Rebalance.Floats.{Floats}
use investment_research_engi.Rebalance.Policy.{DynamicUniversePolicy}
use investment_research_engi.Rebalance.Gates.{RebalanceError}
use investment_research_engi.Rebalance.Execution.{
  GatewayFactory, Desk, execute_all, execute, risk_policy_of, execute_under, execute_with, order_at,
  fill_order, book_fill, settle_booking, open_desk, go_on,
}

settle-ledger :
    (g : Gateway) (n : ℕ) (out : Result LedgerError Bool × Database)
    → (settle_booking g n out).1.ledger ≡ out.1
settle-ledger g n (ok booked, ledger) = refl
settle-ledger g n (err e, ledger) = refl

-- A property of the tables that no booking of the given intents breaks survives the whole loop, however
-- it ends.
module _ {κ μ} (P : Database → Type κ) (Q : OrderIntent → Type μ) (risk : RiskPolicy)
    (keeps : (i : OrderIntent) (price : Decimal) (o : ApprovedOrder) (r : ExecutionReport)
        (db : Database)
      → Q i
      → approve_order risk i price ≡ ok o
      → P db
      → P (apply_execution o r db).1)
    (clock : ℕ → ℕ) (prices : Dict Decimal) where
  book_fill-keeps :
      (o : ApprovedOrder) (n : ℕ) (ledger : Database)
      (out : Result GatewayError ExecutionReport × Gateway)
      → ((report : ExecutionReport) → P (apply_execution o report ledger).1)
      → P ledger
      → P (book_fill o n ledger out).1.ledger
  book_fill-keeps o n ledger (err e, g) booked kept = kept
  book_fill-keeps o n ledger (ok report, g) booked kept =
      subst P (sym (settle-ledger g n (apply_execution o report ledger))) (booked report)

  fill_order-keeps :
      (i : OrderIntent) (price : Decimal) (desk : Desk)
      (approval : Result ApprovalError ApprovedOrder)
      → approve_order risk i price ≡ approval
      → Q i
      → P desk.ledger
      → P (fill_order clock approval desk).1.ledger
  fill_order-keeps i price desk (err e) same q kept = kept
  fill_order-keeps i price desk (ok o) same q kept =
      book_fill-keeps o (suc desk.readings) desk.ledger
        (submit desk.gateway o (clock desk.readings))
        (λ report. keeps i price o report desk.ledger q same kept) kept

  order_at-keeps :
      (i : OrderIntent) (price : Option Decimal) (desk : Desk)
      → Q i
      → P desk.ledger
      → P (order_at clock risk i price desk).1.ledger
  order_at-keeps i none desk q kept = kept
  order_at-keeps i (some price) desk q kept =
      fill_order-keeps i price desk (approve_order risk i price) refl q kept

  go_on-keeps :
      (next : Desk → Result RebalanceError (Unit {0}) × Desk)
      → ((after : Desk) → P after.ledger → P (next after).1.ledger)
      → (out : Result RebalanceError (Unit {0}) × Desk) → P out.1.ledger
      → P (go_on clock next out).1.ledger
  go_on-keeps next fine (ok done, after) kept = fine after kept
  go_on-keeps next fine (err e, after) kept = kept

  execute_all-keeps :
      (is : List OrderIntent) (desk : Desk)
      → All Q is
      → P desk.ledger
      → P (execute_all clock risk prices is desk).1.ledger
  unfolding execute_all
  execute_all-keeps [] desk all kept = kept
  execute_all-keeps (i ∷ is) desk all kept =
      let price = lookup (symbol_of i.pair) prices in
      go_on-keeps (λ after. execute_all clock risk prices is after)
        (λ after kept'. execute_all-keeps is after all.1 kept') (order_at clock risk i price desk)
        (order_at-keeps i price desk all.0 kept)

  execute_under-keeps :
      (fs : Floats) (policy : DynamicUniversePolicy fs) (g : Gateway) (is : List OrderIntent)
      (ledger : Database)
      → All Q is
      → P ledger
      → P (execute_under fs policy clock (ok risk) g prices is ledger).1
  execute_under-keeps fs policy g is ledger all kept =
      execute_all-keeps is (open_desk g ledger) all kept

module _ {κ μ} (P : Database → Type κ) (Q : OrderIntent → Type μ)
    (keeps : (risk : RiskPolicy) (i : OrderIntent) (price : Decimal) (o : ApprovedOrder)
        (r : ExecutionReport) (db : Database)
      → Q i
      → approve_order risk i price ≡ ok o
      → P db
      → P (apply_execution o r db).1)
    (fs : Floats) (policy : DynamicUniversePolicy fs) (clock : ℕ → ℕ) where
  under-keeps :
      (checked : Result PolicyError RiskPolicy) (g : Gateway) (is : List OrderIntent)
      (prices : Dict Decimal) (ledger : Database)
      → All Q is
      → P ledger
      → P (execute_under fs policy clock checked g prices is ledger).1
  under-keeps (err e) g is prices ledger all kept = kept
  under-keeps (ok risk) g is prices ledger all kept =
      execute_under-keeps P Q risk (keeps risk) clock prices fs policy g is ledger all kept

  with-keeps :
      (made : Result GatewayError Gateway) (is : List OrderIntent) (prices : Dict Decimal)
      (equity : Decimal) (ledger : Database)
      → All Q is
      → P ledger
      → P (execute_with fs policy clock made is prices equity ledger).1
  with-keeps (err e) is prices equity ledger all kept = kept
  with-keeps (ok g) is prices equity ledger all kept =
      under-keeps (validate_policy (risk_policy_of fs policy equity)) g is prices ledger all kept

  execute-keeps :
      (factory : GatewayFactory) (is : List OrderIntent) (prices : Dict Decimal) (equity : Decimal)
      (ledger : Database)
      → All Q is
      → P ledger
      → P (execute fs policy clock factory is prices equity ledger).1
  unfolding execute
  execute-keeps factory is prices equity ledger all kept =
      with-keeps
        (make_gateway prices factory.fee_rate factory.slippage_rate factory.execution_model_version)
        is prices equity ledger all kept

module _ (fs : Floats) (policy : DynamicUniversePolicy fs) (clock : ℕ → ℕ) where
  trivial-All : (is : List OrderIntent) → All (λ i. Unit {0}) is
  trivial-All [] = tt
  trivial-All (i ∷ is) = (tt, trivial-All is)

  -- However a cycle of orders ends, a portfolio that is recorded as core investment keeps its row and all
  -- its positions.
  pub execute-core_untouched :
      (factory : GatewayFactory) (intents : List OrderIntent) (prices : Dict Decimal)
      (equity : Decimal) (ledger : Database) (p a : String) (row : PortfolioRow)
      → lookup p ledger.portfolios ≡ some row
      → is_core row.purpose ≡ true
      → let after = (execute fs policy clock factory intents prices equity ledger).1 in
        (lookup p after.portfolios ≡ some row)
        × (find_position p a after.positions ≡ find_position p a ledger.positions)
  execute-core_untouched factory intents prices equity ledger p a row found core =
      execute-keeps
        (λ db.
          (lookup p db.portfolios ≡ some row)
          × (find_position p a db.positions ≡ find_position p a ledger.positions))
        (λ i. Unit {0})
        (λ risk i price o r db u approved kept.
          let (row', positions) = core_untouched risk i price o r db p a row approved kept.0 core in
          (row', positions ∙ kept.1))
        fs policy clock factory intents prices equity ledger (trivial-All intents) (found, refl)

  -- The intent has been booked.
  abbrev pub is_booked : Database → OrderIntent → Bool
  is_booked db i = any (λ e. str_eq e.intent_id i.intent_id) db.executions

  recorded_lem :
      (order_id intent_id : String) (es : List PaperExecutionRecord)
      → any (λ e. str_eq e.intent_id intent_id) es ≡ true
      → is_recorded order_id intent_id es ≡ true
  recorded_lem order_id intent_id [] h = absurd (ground arith)
  recorded_lem order_id intent_id (e ∷ es) h = ground (arith, recorded_lem order_id intent_id es)

  repeated_lem :
      (risk : RiskPolicy) (i : OrderIntent) (price : Decimal) (o : ApprovedOrder)
      (r : ExecutionReport) (db : Database)
      → is_booked db i ≡ true
      → approve_order risk i price ≡ ok o
      → (apply_execution o r db).1 ≡ db
  unfolding apply_execution
  repeated_lem risk i price o r db booked approved =
      let one = (approve_order-limits risk i price o approved).0 in
      let same : is_booked db o.intent ≡ true = rw one booked in
      ground (arith, recorded_lem r.order_id o.intent.intent_id db.executions same)

  -- A cycle whose orders are all booked already books nothing again: running a decision twice leaves the
  -- tables as they are.
  pub execute-once :
      (factory : GatewayFactory) (intents : List OrderIntent) (prices : Dict Decimal)
      (equity : Decimal) (ledger : Database)
      → All (λ i. is_booked ledger i ≡ true) intents
      → (execute fs policy clock factory intents prices equity ledger).1 ≡ ledger
  execute-once factory intents prices equity ledger booked =
      execute-keeps (λ db. db ≡ ledger) (λ i. is_booked ledger i ≡ true)
        (λ risk i price o r db known approved same.
          repeated_lem risk i price o r db (rw same known) approved ∙ same)
        fs policy clock factory intents prices equity ledger booked refl

  unbounded_lem :
      (risk checked : RiskPolicy)
      → lt_d risk.maximum_single_order_notional risk.minimum_order_notional ≡ true
      → validate_policy risk ≢ ok checked
  unfolding validate_policy
  unbounded_lem risk checked poor returned = ground arith

  poor-under :
      (checked : Result PolicyError RiskPolicy) (g : Gateway) (is : List OrderIntent)
      (prices : Dict Decimal) (ledger : Database)
      → ((risk : RiskPolicy) → checked ≢ ok risk)
      → (e : RebalanceError) × (execute_under fs policy clock checked g prices is ledger
          ≡ (err e, ledger))
  poor-under (err e) g is prices ledger never = (RebalanceError.of_policy e, refl)
  poor-under (ok risk) g is prices ledger never = absurd (never risk refl)

  poor-with :
      (made : Result GatewayError Gateway) (is : List OrderIntent) (prices : Dict Decimal)
      (equity : Decimal) (ledger : Database)
      → lt_d equity policy.minimum_order_notional ≡ true
      → (e : RebalanceError) × (execute_with fs policy clock made is prices equity ledger
          ≡ (err e, ledger))
  poor-with (err e) is prices equity ledger poor = (RebalanceError.of_gateway e, refl)
  poor-with (ok g) is prices equity ledger poor =
      let risk = risk_policy_of fs policy equity in
      poor-under (validate_policy risk) g is prices ledger
        (λ checked returned. unbounded_lem risk checked poor returned)

  -- Where the equity is below the least order, a cycle raises, even with no order to execute.
  pub execute-poor :
      (factory : GatewayFactory) (intents : List OrderIntent) (prices : Dict Decimal)
      (equity : Decimal) (ledger : Database)
      → lt_d equity policy.minimum_order_notional ≡ true
      → (e : RebalanceError) × (execute fs policy clock factory intents prices equity ledger
          ≡ (err e, ledger))
  unfolding execute
  execute-poor factory intents prices equity ledger poor =
      poor-with
        (make_gateway prices factory.fee_rate factory.slippage_rate factory.execution_model_version)
        intents prices equity ledger poor
