-- ===== src/Ledger/Accounting/Outcome.antt =====
-- How `apply_execution` ends: booked once and whole, or not at all.
use investment_research_engi.Base.{
  ◌≡◌, ◌⊎◌, Bool, true, false, some, not, str_eq, str_eq_iff, arith, subst, sym, inl, inr,
}
use investment_research_engi.Base.Dict.{lookup}
use investment_research_engi.Base.Result.{
  ok, err, >>=-returns, raise_if, raise_if-passed, Result-cases,
}
use investment_research_engi.Decimal.{lt_d, le_d, zero_d}
use investment_research_engi.Ledger.Orders.{purpose_eq, OrderIntent, ApprovedOrder, ExecutionReport}
use investment_research_engi.Ledger.Tables.{Database, PortfolioRow, find_position, is_recorded}
use investment_research_engi.Ledger.Accounting.{
  LedgerError, Fill, apply_execution, book_execution, write_fill, fill_of, held_quantity,
  held_average, or_raise,
}

-- Either the execution is booked, or the tables are left alone.
pub apply_execution-atomic :
    (o : ApprovedOrder) (r : ExecutionReport) (db : Database)
    → ((apply_execution o r db).0 ≡ ok true) ⊎ ((apply_execution o r db).1 ≡ db)
unfolding apply_execution
apply_execution-atomic o r db = ground arith

-- A booked execution: the row and the fill that it was booked with.
pub record Booked (o : ApprovedOrder) (r : ExecutionReport) (db db' : Database) : Type 0 where
  pub row : PortfolioRow
  pub fill : Fill
  pub same_purpose : purpose_eq row.purpose o.intent.purpose ≡ true
  pub found : lookup o.intent.portfolio_id db.portfolios ≡ some row
  pub filled :
      fill_of o.intent.side r row.cash_balance
        (held_quantity (find_position o.intent.portfolio_id o.intent.pair.base db.positions))
        (held_average (find_position o.intent.portfolio_id o.intent.pair.base db.positions))
      ≡ ok fill
  pub written : db' ≡ write_fill o.intent r row fill db
  pub new_order : is_recorded r.order_id o.intent.intent_id db.executions ≡ false
  pub within : lt_d o.intent.quantity r.filled_quantity ≡ false
  pub positive : le_d r.filled_quantity zero_d ≡ false

book_execution-Booked :
    (o : ApprovedOrder) (r : ExecutionReport) (db : Database) {db' : Database}
    → is_recorded r.order_id o.intent.intent_id db.executions ≡ false
    → lt_d o.intent.quantity r.filled_quantity ≡ false
    → le_d r.filled_quantity zero_d ≡ false
    → book_execution o.intent r db ≡ ok db'
    → Booked o r db db'
unfolding book_execution
book_execution-Booked o r db new within positive h =
    let i = o.intent in
    let (p, found, h₁) =
      >>=-returns (or_raise (lookup i.portfolio_id db.portfolios) LedgerError.unknown_portfolio) _
        h in
    let (_, agreed, h₂) =
      >>=-returns (raise_if (not (purpose_eq p.purpose i.purpose)) LedgerError.purpose_mismatch) _
        h₁ in
    let (_, _, h₃) =
      >>=-returns (raise_if (not (str_eq p.cash_asset i.pair.quote)) LedgerError.quote_mismatch) _
        h₂ in
    let (f, filled, h₄) = >>=-returns _ _ h₃ in
    record {
      row = p;
      fill = f;
      same_purpose =
          let same =
            raise_if-passed (not (purpose_eq p.purpose i.purpose)) LedgerError.purpose_mismatch
              agreed in
          ground arith;
      found = ground arith;
      filled = filled;
      written = cc;
      new_order = new;
      within = within;
      positive = positive;
    }

-- The guards that a booked execution has passed.
record Accepted (o : ApprovedOrder) (r : ExecutionReport) (db db' : Database) : Type 0 where
  new_order : is_recorded r.order_id o.intent.intent_id db.executions ≡ false
  within : lt_d o.intent.quantity r.filled_quantity ≡ false
  positive : le_d r.filled_quantity zero_d ≡ false
  result : (apply_execution o r db).1 ≡ db'

accepted :
    (o : ApprovedOrder) (r : ExecutionReport) (db db' : Database)
    → (apply_execution o r db).0 ≡ ok true
    → book_execution o.intent r db ≡ ok db'
    → Accepted o r db db'
unfolding apply_execution
accepted o r db db' h booked = ground arith

not_booked :
    (o : ApprovedOrder) (r : ExecutionReport) (db : Database) (e : LedgerError)
    → (apply_execution o r db).0 ≡ ok true
    → book_execution o.intent r db ≡ err e
    → ⊥
unfolding apply_execution
not_booked o r db e h failed = ground arith

-- An `apply_execution` that returns true has booked the execution.
pub apply_execution-Booked :
    (o : ApprovedOrder) (r : ExecutionReport) (db : Database)
    → (apply_execution o r db).0 ≡ ok true
    → Booked o r db (apply_execution o r db).1
apply_execution-Booked o r db h = elim (Result-cases (book_execution o.intent r db)) [
  | inl (db', booked) ↦
      let a = accepted o r db db' h booked in
      subst (Booked o r db) (sym a.result)
        (book_execution-Booked o r db a.new_order a.within a.positive booked)
  | inr (e, failed) ↦ absurd (not_booked o r db e h failed)
]

clash : {b : Bool} → b ≡ true → b ≡ false → ⊥
clash t f = cc

recorded :
    (i i' : OrderIntent) (r r' : ExecutionReport) (row : PortfolioRow) (f : Fill) (db : Database)
    → (r'.order_id ≡ r.order_id) ⊎ (i'.intent_id ≡ i.intent_id)
    → is_recorded r'.order_id i'.intent_id (write_fill i r row f db).executions ≡ true
recorded i i' r r' row f db same =
    ground (arith, str_eq_iff r.order_id r'.order_id, str_eq_iff i.intent_id i'.intent_id)

-- Exactly once: after an execution is booked, whatever arrives under its order id, or for its intent,
-- changes nothing.
pub apply_execution-once :
    (o : ApprovedOrder) (r : ExecutionReport) (db : Database)
    → (apply_execution o r db).0 ≡ ok true
    → (o' : ApprovedOrder) (r' : ExecutionReport)
    → (r'.order_id ≡ r.order_id) ⊎ (o'.intent.intent_id ≡ o.intent.intent_id)
    → let db' = (apply_execution o r db).1 in (apply_execution o' r' db').1 ≡ db'
apply_execution-once o r db h o' r' same =
    let b = apply_execution-Booked o r db h in
    elim (apply_execution-atomic o' r' (apply_execution o r db).1) [
      | inr kept ↦ kept
      | inl booked ↦
          let b' = apply_execution-Booked o' r' (apply_execution o r db).1 booked in
          absurd (
            clash (rw b.written (recorded o.intent o'.intent r r' b.row b.fill db same))
              b'.new_order)
    ]
