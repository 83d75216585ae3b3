-- ===== src/Ledger/Accounting/Refinement.antt =====
-- The tables of src/investment/crypto/infrastructure/sqlite_accounting.py against a plain account book:
-- how much cash each portfolio has, and how much of each asset it holds.
use mathlib.Core.Path.{ap₂, fun_ext}
use investment_research_engi.Base.{
  String, ◌≡◌, refl, ◌∙◌, subst, Bool, true, false, Option, none, some, List, [], ◌∷◌, ◌&&◌,
  if◌then◌else◌, str_eq, str_eq_iff, arith, inl, inr, Bool-cases,
}
use investment_research_engi.Base.Dict.{lookup, lookup-insert}
use investment_research_engi.Base.Result.{Result, ok, err}
use investment_research_engi.Decimal.{Decimal, lt_d, abs_d, zero_d}
use investment_research_engi.Ledger.Orders.{ApprovedOrder, ExecutionReport}
use investment_research_engi.Ledger.Tables.{Database, PortfolioRow, find_position}
use investment_research_engi.Ledger.Accounting.{
  LedgerError, apply_execution, held_quantity, position_of, dust,
}
use investment_research_engi.Ledger.Accounting.Outcome.{
  apply_execution-Booked, apply_execution-atomic, Booked,
}
use investment_research_engi.Ledger.Accounting.Effect.{
  cash_after, quantity_after, fill_of-Filled, find-upsert,
}

pub record Accounts : Type 0 where
  pub cash : String → Option Decimal
  pub held : String → String → Decimal

abbrev cash_of : Option PortfolioRow → Option Decimal
cash_of none = none
cash_of (some row) = some row.cash_balance

-- What the tables say, without the order of rows, the costs, the times and the executions.
abbrev pub accounts_of : Database → Accounts
accounts_of db = record {
  cash = λ p. cash_of (lookup p db.portfolios);
  held = λ p a. held_quantity (find_position p a db.positions);
}

abbrev pay : ApprovedOrder → ExecutionReport → Option Decimal → Option Decimal
pay o r none = none
pay o r (some cash) = some (cash_after o.intent.side r cash)

-- Less than 1e-18 of an asset counts as nothing.
abbrev settled : Decimal → Decimal
settled q = if lt_d (abs_d q) dust then zero_d else q

-- The entry that one report makes in the account book.
abbrev pub post : ApprovedOrder → ExecutionReport → Accounts → Accounts
post o r books = record {
  cash = λ p. if str_eq o.intent.portfolio_id p then pay o r (books.cash p) else books.cash p;
  held = λ p a.
      if str_eq o.intent.portfolio_id p && str_eq o.intent.pair.base a
      then settled (quantity_after o.intent.side r (books.held p a))
      else books.held p a;
}

abbrev pub is_booked : Result LedgerError Bool → Bool
is_booked (ok b) = b
is_booked (err e) = false

is_booked_lem : (outcome : Result LedgerError Bool) → is_booked outcome ≡ true → outcome ≡ ok true
is_booked_lem outcome h = ground arith

accounts_lem :
    {a b : Accounts}
    → ((p : String) → a.cash p ≡ b.cash p)
    → ((p x : String) → a.held p x ≡ b.held p x)
    → a ≡ b
accounts_lem cash held =
    ap₂ (λ c h. record { cash = c; held = h }) (fun_ext cash) (fun_ext (λ p. fun_ext (held p)))

module _ (o : ApprovedOrder) (r : ExecutionReport) (db db' : Database) (b : Booked o r db db') where
  cash-post : (p : String) → (accounts_of db').cash p ≡ (post o r (accounts_of db)).cash p
  cash-post p =
      let i = o.intent in
      let row = record b.row { cash_balance = b.fill.cash; updated_at = r.executed_at } in
      let f = fill_of-Filled i.side r b.row.cash_balance _ _ b.fill b.filled in
      let here = str_eq_iff i.portfolio_id p in
      rw (b.written, lookup-insert i.portfolio_id p row db.portfolios)
        (ground (arith, here, b.found, f.cash_lem))

  held-post : (p a : String) → (accounts_of db').held p a ≡ (post o r (accounts_of db)).held p a
  held-post p a =
      let i = o.intent in
      let f = fill_of-Filled i.side r b.row.cash_balance _ _ b.fill b.filled in
      let here = str_eq_iff i.portfolio_id p in
      let asset = str_eq_iff i.pair.base a in
      rw (b.written, find-upsert (position_of i b.fill) p a db.positions)
        (ground (arith, here, asset, f.quantity_lem))

apply_execution-post :
    (o : ApprovedOrder) (r : ExecutionReport) (db : Database)
    → accounts_of (apply_execution o r db).1
      ≡ (if is_booked (apply_execution o r db).0 then post o r (accounts_of db) else accounts_of db)
apply_execution-post o r db = elim (Bool-cases (is_booked (apply_execution o r db).0)) [
  | inl done ↦
      let b = apply_execution-Booked o r db (is_booked_lem _ done) in
      rw done (accounts_lem (cash-post o r db _ b) (held-post o r db _ b))
  | inr refused ↦ elim (apply_execution-atomic o r db) [
    | inl booked ↦ absurd (ground arith)
    | inr kept ↦ rw (refused, kept) refl
  ]
]

abbrev pub Call : Type 0
Call = ApprovedOrder × ExecutionReport

abbrev pub apply_calls : List Call → Database → Database
apply_calls [] db = db
apply_calls ((o, r) ∷ calls) db = apply_calls calls (apply_execution o r db).1

-- The calls that returned true, in their order.
abbrev pub booked_calls : List Call → Database → List Call
booked_calls [] db = []
booked_calls ((o, r) ∷ calls) db =
    let rest = booked_calls calls (apply_execution o r db).1 in
    if is_booked (apply_execution o r db).0 then (o, r) ∷ rest else rest

abbrev pub post_calls : List Call → Accounts → Accounts
post_calls [] books = books
post_calls ((o, r) ∷ calls) books = post_calls calls (post o r books)

post_calls-if :
    (booked : Bool) (o : ApprovedOrder) (r : ExecutionReport) (rest : List Call) (books : Accounts)
    → post_calls rest (if booked then post o r books else books)
      ≡ post_calls (if booked then (o, r) ∷ rest else rest) books
post_calls-if true o r rest books = refl
post_calls-if false o r rest books = refl

-- The tables after any sequence of `apply_execution` calls, refused ones included, show the cash and the
-- holdings that a plain account book shows once it has posted the calls that returned true, in order.
pub apply_execution-refines :
    (calls : List Call) (db : Database)
    → accounts_of (apply_calls calls db) ≡ post_calls (booked_calls calls db) (accounts_of db)
apply_execution-refines [] db = refl
apply_execution-refines ((o, r) ∷ calls) db =
    let rest = apply_execution-refines calls (apply_execution o r db).1 in
    let first = apply_execution-post o r db in
    subst
      (λ books.
        accounts_of (apply_calls calls (apply_execution o r db).1)
        ≡ post_calls (booked_calls calls (apply_execution o r db).1) books)
      first rest
    ∙ post_calls-if (is_booked (apply_execution o r db).0) o r _ (accounts_of db)
