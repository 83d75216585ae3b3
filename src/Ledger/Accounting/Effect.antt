-- ===== src/Ledger/Accounting/Effect.antt =====
-- What a booked execution changes: its own account and position, by the amounts of the fill.
use investment_research_engi.Base.{
  String, ◌≡◌, refl, Bool, true, false, Option, none, some, List, ◌&&◌, if◌then◌else◌, str_eq,
  str_eq_refl, arith, inl, inr,
}
use investment_research_engi.Base.Dict.{lookup, lookup-insert}
use investment_research_engi.Base.Result.{ok}
use investment_research_engi.Decimal.{Decimal, ◌+d◌, ◌-d◌, ◌*d◌, lt_d, le_d, abs_d}
use investment_research_engi.Ledger.Orders.{OrderSide, ApprovedOrder, ExecutionReport}
use investment_research_engi.Ledger.Tables.{
  Database, PortfolioRow, PositionRow, find_position, is_at, find-put, find-delete,
}
use investment_research_engi.Ledger.Accounting.{
  Fill, apply_execution, fill_of, buy_fill, sell_fill, held_quantity, position_of, upsert_position,
  dust,
}
use investment_research_engi.Ledger.Accounting.Outcome.{
  apply_execution-Booked, apply_execution-atomic,
}

abbrev pub notional : ExecutionReport → Decimal
notional r = r.filled_quantity *d r.average_price

abbrev pub cash_after : OrderSide → ExecutionReport → Decimal → Decimal
cash_after OrderSide.buy r cash = cash -d (notional r +d r.fee)
cash_after OrderSide.sell r cash = cash +d (notional r -d r.fee)

abbrev pub quantity_after : OrderSide → ExecutionReport → Decimal → Decimal
quantity_after OrderSide.buy r held = held +d r.filled_quantity
quantity_after OrderSide.sell r held = held -d r.filled_quantity

-- A purchase is paid from the cash, and a sale from the position.
abbrev pub is_covered : OrderSide → ExecutionReport → Decimal → Decimal → Bool
is_covered OrderSide.buy r cash held = le_d (notional r +d r.fee) cash
is_covered OrderSide.sell r cash held = le_d r.filled_quantity held

pub record Filled (side : OrderSide) (r : ExecutionReport) (cash held average : Decimal) (f : Fill)
    : Type 0 where
  pub cash_lem : f.cash ≡ cash_after side r cash
  pub quantity_lem : f.new_quantity ≡ quantity_after side r held
  pub covered : is_covered side r cash held ≡ true

pub fill_of-Filled :
    (side : OrderSide) (r : ExecutionReport) (cash held average : Decimal) (f : Fill)
    → fill_of side r cash held average ≡ ok f
    → Filled side r cash held average f
unfolding buy_fill sell_fill
fill_of-Filled OrderSide.buy r cash held average f h = ground arith
fill_of-Filled OrderSide.sell r cash held average f h = ground arith

pub find-upsert :
    (new : PositionRow) (p a : String) (rows : List PositionRow)
    → find_position p a (upsert_position new rows) ≡ (
        if is_at p a new
        then (if lt_d (abs_d new.quantity) dust then none else some new)
        else find_position p a rows)
unfolding upsert_position
find-upsert new p a rows =
    ground (arith, find-put new p a rows, find-delete new.portfolio_id new.asset p a rows)

abbrev pub quantity_of : Option PositionRow → Option Decimal
quantity_of none = none
quantity_of (some row) = some row.quantity

if-same {ℓ} : {A : Type ℓ} (t : Bool) (x : A) → x ≡ (if t then x else x)
if-same true x = refl
if-same false x = refl

row_lem :
    {p q : PortfolioRow} {found : Option PortfolioRow} → found ≡ some p → found ≡ some q → p ≡ q
row_lem h k = cc

quantity_of-if :
    (small : Bool) (row : PositionRow)
    → quantity_of (if small then none else some row) ≡ (if small then none else some row.quantity)
quantity_of-if true row = refl
quantity_of-if false row = refl

module _ (o : ApprovedOrder) (r : ExecutionReport) (db : Database)
    (booked : (apply_execution o r db).0 ≡ ok true) where
  abbrev pid : String
  pid = o.intent.portfolio_id

  abbrev base : String
  base = o.intent.pair.base

  abbrev after : Database
  after = (apply_execution o r db).1

  abbrev held : Decimal
  held = held_quantity (find_position pid base db.positions)

  -- A booked execution was covered. It sets the cash of its portfolio to the old cash less notional and
  -- fee, or plus notional less fee; it raises or lowers the position by the filled quantity, and drops
  -- it where less than 1e-18 is left.
  pub apply_execution-moves :
      (p : PortfolioRow)
      → lookup pid db.portfolios ≡ some p
      → let left = quantity_after o.intent.side r held in
        (is_covered o.intent.side r p.cash_balance held ≡ true)
        × (lookup pid after.portfolios
            ≡ some (record p {
              cash_balance = cash_after o.intent.side r p.cash_balance;
              updated_at = r.executed_at;
            }))
        × (quantity_of (find_position pid base after.positions)
            ≡ (if lt_d (abs_d left) dust then none else some left))
  apply_execution-moves p found =
      let b = apply_execution-Booked o r db booked in
      let f = fill_of-Filled o.intent.side r b.row.cash_balance held _ b.fill b.filled in
      let same : b.row ≡ p = row_lem b.found found in
      let new_row = record b.row { cash_balance = b.fill.cash; updated_at = r.executed_at } in
      (
        rw same at f.covered,
        rw (b.written, lookup-insert pid pid new_row db.portfolios, str_eq_refl pid)
            (rw (f.cash_lem, same)),
        rw
            (
              b.written,
              find-upsert (position_of o.intent b.fill) pid base db.positions,
              str_eq_refl pid,
              str_eq_refl base,
            )
            (rw f.quantity_lem (quantity_of-if _ _)),
      )

-- Every other portfolio, and every other position, stays as it was, however the call ends.
pub apply_execution-others :
    (o : ApprovedOrder) (r : ExecutionReport) (db : Database) (p a : String)
    → let db' = (apply_execution o r db).1 in
      (lookup p db'.portfolios ≡ (
        if str_eq o.intent.portfolio_id p then lookup p db'.portfolios else lookup p db.portfolios))
      × (find_position p a db'.positions ≡ (
          if str_eq o.intent.portfolio_id p && str_eq o.intent.pair.base a
          then find_position p a db'.positions
          else find_position p a db.positions))
apply_execution-others o r db p a = elim (apply_execution-atomic o r db) [
  | inr kept ↦ rw kept (if-same _ _, if-same _ _)
  | inl booked ↦
      let b = apply_execution-Booked o r db booked in
      let i = o.intent in
      let new_row = record b.row { cash_balance = b.fill.cash; updated_at = r.executed_at } in
      rw
        (
          b.written,
          lookup-insert i.portfolio_id p new_row db.portfolios,
          find-upsert (position_of i b.fill) p a db.positions,
        )
        (ground arith)
]
