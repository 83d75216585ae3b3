-- ===== src/Ledger/Boundary.antt =====
-- From the intent to the ledger: the core investment is out of reach of every order.
use investment_research_engi.Base.{
  String, ◌≡◌, refl, true, false, Option, some, arith, str_eq, str_eq_iff, inl, inr, Bool-cases,
  ◌∙◌,
}
use investment_research_engi.Base.Dict.{lookup}
use investment_research_engi.Base.Result.{ok}
use investment_research_engi.Decimal.{Decimal}
use investment_research_engi.Ledger.Orders.{
  PortfolioPurpose, purpose_eq, is_core, OrderIntent, ApprovedOrder, ExecutionReport,
}
use investment_research_engi.Ledger.Tables.{Database, PortfolioRow, find_position}
use investment_research_engi.Ledger.Risk.{RiskPolicy, approve_order}
use investment_research_engi.Ledger.Risk.Limits.{approve_order-limits}
use investment_research_engi.Ledger.Accounting.{apply_execution}
use investment_research_engi.Ledger.Accounting.Outcome.{
  apply_execution-atomic, apply_execution-Booked,
}
use investment_research_engi.Ledger.Accounting.Effect.{apply_execution-others}

some_lem : {o : Option PortfolioRow} {x y : PortfolioRow} → o ≡ some x → o ≡ some y → x ≡ y
some_lem h k = cc

core_eq : (p q : PortfolioPurpose) → purpose_eq p q ≡ true → is_core p ≡ is_core q
core_eq p q h = ground arith

tactical_lem :
    (o : ApprovedOrder) (i : OrderIntent) (version : String)
    → o ≡ record { intent = i; risk_policy_version = version }
    → is_core i.purpose ≡ false
    → is_core o.intent.purpose ≡ false
tactical_lem o i version same tactical = rw same tactical

-- The order's portfolio and a core one are two.
apart_lem :
    (o : ApprovedOrder) (p : String) (booked row : PortfolioRow) (db : Database)
    → purpose_eq booked.purpose o.intent.purpose ≡ true
    → lookup o.intent.portfolio_id db.portfolios ≡ some booked
    → lookup p db.portfolios ≡ some row
    → is_core o.intent.purpose ≡ false
    → is_core row.purpose ≡ true
    → str_eq o.intent.portfolio_id p ≡ false
apart_lem o p booked row db agree found other tactical core =
    elim (Bool-cases (str_eq o.intent.portfolio_id p)) [
      | inr apart ↦ apart
      | inl together ↦
          let same = (str_eq_iff o.intent.portfolio_id p).0 together in
          let one : lookup p db.portfolios ≡ some booked = rw same at found in
          let row-eq = some_lem one other in
          let purposes = core_eq booked.purpose o.intent.purpose agree in
          let core' : is_core booked.purpose ≡ true = rw row-eq core in absurd (ground arith)
    ]

-- Whatever report comes back for an order that the risk engine approved, a portfolio that is recorded
-- as core investment keeps its row and all its positions.
pub core_untouched :
    (policy : RiskPolicy) (i : OrderIntent) (price : Decimal) (o : ApprovedOrder)
    (r : ExecutionReport) (db : Database) (p a : String) (row : PortfolioRow)
    → approve_order policy i price ≡ ok o
    → lookup p db.portfolios ≡ some row
    → is_core row.purpose ≡ true
    → let db' = (apply_execution o r db).1 in
      (lookup p db'.portfolios ≡ some row)
      × (find_position p a db'.positions ≡ find_position p a db.positions)
core_untouched policy i price o r db p a row approved found core =
    elim (apply_execution-atomic o r db) [
      | inr kept ↦ rw kept (found, refl)
      | inl booked ↦
          let b = apply_execution-Booked o r db booked in
          let limits = approve_order-limits policy i price o approved in
          let tactical = tactical_lem o i policy.version limits.0 limits.1 in
          let others = apply_execution-others o r db p a in
          let apart = apart_lem o p b.row row db b.same_purpose b.found found tactical core in
          (rw apart at others.0 ∙ found, rw apart at others.1)
    ]
