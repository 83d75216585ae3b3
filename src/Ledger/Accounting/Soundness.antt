-- ===== src/Ledger/Accounting/Soundness.antt =====
-- No account is overdrawn, and nothing is sold short.
use investment_research_engi.Base.{String, ◌≡◌, refl, true, some, arith, Option-cases, inl, inr}
use investment_research_engi.Base.Dict.{lookup, lookup-insert}
use investment_research_engi.Base.Result.{ok}
use investment_research_engi.Decimal.{Decimal, ◌+d◌, ◌-d◌, ◌*d◌, ◌/d◌, le_d}
use investment_research_engi.Decimal.Sign.{
  IsNonneg, nonneg-lt, nonneg-not_lt, +d-IsNonneg, -d-IsNonneg, *d-IsNonneg, /d-IsNonneg,
}
use investment_research_engi.Ledger.Orders.{
  OrderSide, OrderIntent, ApprovedOrder, ExecutionReport, validate_report,
}
use investment_research_engi.Ledger.Tables.{Database, PortfolioRow, PositionRow, find_position}
use investment_research_engi.Ledger.Accounting.{
  Fill, apply_execution, write_fill, fill_of, buy_fill, sell_fill, held_quantity, held_average,
  position_of,
}
use investment_research_engi.Ledger.Accounting.Effect.{notional, find-upsert}
use investment_research_engi.Ledger.Accounting.Outcome.{
  apply_execution-Booked, apply_execution-atomic,
}

-- Every balance, quantity and average cost is zero or more.
pub record IsSolvent (db : Database) : Type 0 where
  pub cash :
      (p : String) (row : PortfolioRow)
      → lookup p db.portfolios ≡ some row
      → IsNonneg row.cash_balance
  pub positions :
      (p a : String) (row : PositionRow)
      → find_position p a db.positions ≡ some row
      → IsNonneg row.quantity × IsNonneg row.average_cost

-- The numbers of a report that its constructor has let through.
record IsSensible (r : ExecutionReport) : Type 0 where
  filled : IsNonneg r.filled_quantity
  price : IsNonneg r.average_price
  fee : IsNonneg r.fee

validate_report-IsSensible :
    (r : ExecutionReport) {r' : ExecutionReport} → validate_report r ≡ ok r' → IsSensible r
unfolding validate_report
validate_report-IsSensible r h = record {
  filled = nonneg-lt r.filled_quantity (ground arith);
  price = nonneg-lt r.average_price (ground arith);
  fee = nonneg-not_lt r.fee (ground arith);
}

-- A sale whose fee is no more than its notional.
abbrev pub IsFair : OrderSide → ExecutionReport → Type 0
IsFair OrderSide.buy r = Unit
IsFair OrderSide.sell r = le_d r.fee (notional r) ≡ true

module _ (r : ExecutionReport) (cash held average : Decimal) (f : Fill) (sensible : IsSensible r)
    (rich : IsNonneg cash) (long : IsNonneg held) (costly : IsNonneg average) where
  buy_fill-nonneg :
      buy_fill r cash held average ≡ ok f
      → IsNonneg f.cash × IsNonneg f.new_quantity × IsNonneg f.new_average
  unfolding buy_fill
  buy_fill-nonneg h =
      let paid = notional r in
      let paid-nonneg =
        *d-IsNonneg r.filled_quantity r.average_price sensible.filled sensible.price in
      let basis = *d-IsNonneg held average long costly in
      let spent =
        +d-IsNonneg (held *d average +d paid) r.fee
          (+d-IsNonneg (held *d average) paid basis paid-nonneg) sensible.fee in
      let quantity = held +d r.filled_quantity in
      let quantity-nonneg = +d-IsNonneg held r.filled_quantity long sensible.filled in
      elim (Option-cases ((held *d average +d paid +d r.fee) /d quantity)) [
        | inl undefined ↦ ground arith
        | inr (c, divided) ↦ ground (
          arith,
          -d-IsNonneg cash (paid +d r.fee),
          /d-IsNonneg (held *d average +d paid +d r.fee) quantity {c = c} spent quantity-nonneg
              divided,
        )
      ]

  sell_fill-nonneg :
      IsFair OrderSide.sell r
      → sell_fill r cash held average ≡ ok f
      → IsNonneg f.cash × IsNonneg f.new_quantity × IsNonneg f.new_average
  unfolding sell_fill
  sell_fill-nonneg fair h = ground (
    arith,
    -d-IsNonneg held r.filled_quantity,
    -d-IsNonneg (notional r) r.fee,
    +d-IsNonneg cash (notional r -d r.fee),
  )

fill_of-nonneg :
    (side : OrderSide) (r : ExecutionReport) (cash held average : Decimal) (f : Fill)
    → IsSensible r
    → IsNonneg cash
    → IsNonneg held
    → IsNonneg average
    → IsFair side r
    → fill_of side r cash held average ≡ ok f
    → IsNonneg f.cash × IsNonneg f.new_quantity × IsNonneg f.new_average
fill_of-nonneg OrderSide.buy r cash held average f sensible rich long costly fair h =
    buy_fill-nonneg r cash held average f sensible rich long costly h
fill_of-nonneg OrderSide.sell r cash held average f sensible rich long costly fair h =
    sell_fill-nonneg r cash held average f sensible rich long costly fair h

held-nonneg :
    (db : Database) (p a : String)
    → IsSolvent db
    → let old = find_position p a db.positions in
      IsNonneg (held_quantity old) × IsNonneg (held_average old)
held-nonneg db p a solvent = elim (Option-cases (find_position p a db.positions)) [
  | inl nothing ↦ rw nothing (refl, refl)
  | inr (row, found) ↦ rw found (solvent.positions p a row found)
]

write_fill-IsSolvent :
    (i : OrderIntent) (r : ExecutionReport) (p : PortfolioRow) (f : Fill) (db : Database)
    → IsSolvent db
    → IsNonneg f.cash × IsNonneg f.new_quantity × IsNonneg f.new_average
    → IsSolvent (write_fill i r p f db)
write_fill-IsSolvent i r p f db solvent fine = record {
  cash = λ q row h. ground (
    arith,
    solvent.cash q row,
    lookup-insert i.portfolio_id q (record p { cash_balance = f.cash; updated_at = r.executed_at })
        db.portfolios,
  );
  positions = λ q a row h.
      ground (arith, solvent.positions q a row, find-upsert (position_of i f) q a db.positions);
}

-- A ledger with no debt and nothing sold short stays so: every cash balance, quantity and average cost
-- is zero or more after any call of `apply_execution` with a validated report, as long as the fee of a
-- sale is at most its notional.
pub apply_execution-IsSolvent :
    (o : ApprovedOrder) (r : ExecutionReport) (db : Database)
    → validate_report r ≡ ok r
    → IsFair o.intent.side r
    → IsSolvent db
    → IsSolvent (apply_execution o r db).1
apply_execution-IsSolvent o r db valid fair solvent = elim (apply_execution-atomic o r db) [
  | inr kept ↦ rw kept solvent
  | inl booked ↦
      let b = apply_execution-Booked o r db booked in
      let (long, costly) = held-nonneg db o.intent.portfolio_id o.intent.pair.base solvent in
      rw b.written (
        write_fill-IsSolvent o.intent r b.row b.fill db solvent (
          fill_of-nonneg o.intent.side r _ _ _ b.fill (validate_report-IsSensible r valid)
            (solvent.cash o.intent.portfolio_id b.row b.found) long costly fair b.filled))
]
