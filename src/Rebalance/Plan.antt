-- ===== src/Rebalance/Plan.antt =====
-- `_plan` of src/investment/crypto/application/dynamic_paper_rebalance.py: the orders that move a portfolio
-- to its target weights. The hash in an intent's identity is a parameter.
pub mod Rows
pub mod Ordering
use Prim.Native.String.{◌++◌ as append}
use investment_research_engi.Base.{
  ℕ, String, Bool, true, false, Option, none, some, List, [], ◌∷◌, ◌++◌, ◌&&◌, ◌||◌, not,
  if◌then◌else◌, str_eq, any, keep, map,
}
use investment_research_engi.Base.Dict.{Dict, lookup, insert}
use investment_research_engi.Base.Order.{str_lt}
use investment_research_engi.Base.Result.{Result, ok, err, ◌>>=◌}
use investment_research_engi.Base.Sorting.{sort_by}
use investment_research_engi.Decimal.{Decimal, ◌-d◌, ◌*d◌, ◌/d◌, lt_d, eq_d, abs_d, zero_d}
use investment_research_engi.Ledger.Orders.{
  OrderSide, side_eq, Position, OrderIntent, TradingPair, validate_intent, DomainError,
}
use investment_research_engi.Ledger.Accounting.{PaperPortfolioSnapshot}
use investment_research_engi.Ledger.Exchange.{symbol_of}
use investment_research_engi.Rebalance.Floats.{Floats}
use investment_research_engi.Rebalance.Policy.{DynamicUniversePolicy}
use investment_research_engi.Rebalance.Candidates.{is_in, or_default}
use investment_research_engi.Rebalance.Gates.{RebalanceError}
use investment_research_engi.Rebalance.Universe.{UniverseMember, UniverseSnapshot}

pub record RebalanceOrderPlan : Type 0 where
  pub intent_id : String
  pub pair : String
  pub side : OrderSide
  pub quantity : Decimal
  pub reference_price : Decimal
  pub notional : Decimal
  pub current_weight : Decimal
  pub target_weight : Decimal
  pub status : String

-- `sha256(f"{portfolio_id}:{as_of.isoformat()}:{symbol}:{side.value}").hexdigest()[:20]`
abbrev pub Identity : Type 0
Identity = (portfolio_id : String) → (as_of : ℕ) → (symbol : String) → OrderSide → String

abbrev pub quantities_of : String → List Position → Dict Decimal → Dict Decimal
quantities_of cash [] quantities = quantities
quantities_of cash (p ∷ ps) quantities =
    quantities_of cash ps (insert (append p.asset cash) p.quantity quantities)

abbrev keys {ℓ} : {A : Type ℓ} → Dict A → List String
keys d = map (λ e. e.0) d

abbrev pub member_pair : String → List UniverseMember → Option TradingPair
member_pair symbol [] = none
member_pair symbol (m ∷ ms) =
    if str_eq (symbol_of m.pair) symbol then some m.pair else member_pair symbol ms

abbrev pub is_buy : OrderIntent → Bool
is_buy i = side_eq i.side OrderSide.buy

abbrev pub or_raise {ℓ} : {A : Type ℓ} → Option A → RebalanceError → Result RebalanceError A
or_raise none e = err e
or_raise (some a) e = ok a

abbrev pub as_intent : Result DomainError OrderIntent → Result RebalanceError OrderIntent
as_intent (ok i) = ok i
as_intent (err e) = err (RebalanceError.of_intent e)

abbrev pub side_of : Decimal → OrderSide
side_of difference = if lt_d zero_d difference then OrderSide.buy else OrderSide.sell

abbrev lesser : Decimal → Decimal → Decimal
lesser a b = if lt_d b a then b else a

abbrev greater : Decimal → Decimal → Decimal
greater a b = if lt_d a b then b else a

-- The quantity of a row; a sale to nothing is of the whole position.
abbrev pub row_quantity :
    OrderSide → Decimal → Decimal → Decimal → Decimal → Result RebalanceError Decimal
row_quantity OrderSide.buy difference price target current =
    or_raise (abs_d difference /d price) RebalanceError.division_by_zero
row_quantity OrderSide.sell difference price target current =
    if eq_d target zero_d
    then ok current
    else or_raise (abs_d difference /d price) RebalanceError.division_by_zero >>= λ quantity.
        ok (lesser quantity current)

-- The arguments of `_plan` that all rows share.
pub record Planning : Type 0 where
  pub members : List UniverseMember
  pub portfolio : PaperPortfolioSnapshot
  pub equity : Decimal
  pub prices : Dict Decimal
  pub targets : Dict Decimal
  pub as_of : ℕ
  pub block_buys : Bool
  pub blocked_buy_pairs : List String

module _ (fs : Floats) (policy : DynamicUniversePolicy fs) (identity : Identity)
    (p : Planning) where
  abbrev pub current_quantities : Dict Decimal
  current_quantities = quantities_of p.portfolio.cash_asset p.portfolio.positions []

  abbrev pub held : String → Decimal
  held symbol = or_default (lookup symbol current_quantities) zero_d

  abbrev pub target : String → Decimal
  target symbol = or_default (lookup symbol p.targets) zero_d

  -- The least difference that is worth an order.
  abbrev pub threshold : Decimal
  threshold = greater policy.minimum_order_notional (p.equity *d policy.minimum_rebalance_fraction)

  abbrev pub intent_of : String → TradingPair → OrderSide → Decimal → OrderIntent
  intent_of symbol pair side quantity = record {
    portfolio_id = p.portfolio.portfolio_id;
    purpose = p.portfolio.purpose;
    pair = pair;
    side = side;
    quantity = quantity;
    created_at = p.as_of;
    intent_id = append "dynamic-rebalance-" (identity p.portfolio.portfolio_id p.as_of symbol side);
  }

  abbrev pub plan_of : String → Decimal → Decimal → Decimal → OrderIntent → RebalanceOrderPlan
  plan_of symbol price notional weight i = record {
    intent_id = i.intent_id;
    pair = symbol;
    side = i.side;
    quantity = i.quantity;
    reference_price = price;
    notional = notional;
    current_weight = weight;
    target_weight = target symbol;
    status = "DRY_RUN";
  }

  -- The order of a row that is large enough.
  unfoldable pub order_row :
      String
      → Decimal
      → OrderSide
      → Decimal
      → TradingPair
      → Result RebalanceError (RebalanceOrderPlan × OrderIntent)
  order_row symbol price side difference pair = do
    quantity ← row_quantity side difference price (p.equity *d target symbol) (held symbol)
    i ← as_intent (validate_intent (intent_of symbol pair side quantity))
    weight ← or_raise (held symbol *d price /d p.equity) RebalanceError.division_by_zero
    ok (plan_of symbol price (abs_d difference) weight i, i)

  abbrev pub is_refused : String → OrderSide → Bool
  is_refused symbol side =
      side_eq side OrderSide.buy && (p.block_buys || is_in symbol p.blocked_buy_pairs)

  abbrev pub sized_row :
      String → Decimal → Decimal → Result RebalanceError (List (RebalanceOrderPlan × OrderIntent))
  sized_row symbol price difference =
      if lt_d (abs_d difference) threshold
      then ok []
      else or_raise (member_pair symbol p.members) RebalanceError.pair_not_in_universe >>= λ pair.
          if is_refused symbol (side_of difference)
          then ok []
          else order_row symbol price (side_of difference) difference pair >>= λ row. ok (row ∷ [])

  abbrev pub priced_row :
      String → Option Decimal → Result RebalanceError (List (RebalanceOrderPlan × OrderIntent))
  priced_row symbol none = ok []
  priced_row symbol (some price) =
      sized_row symbol price (p.equity *d target symbol -d held symbol *d price)

  -- The loop over the symbols.
  unfoldable pub rows_of :
      List String → Result RebalanceError (List (RebalanceOrderPlan × OrderIntent))
  unfolding lookup order_row
  rows_of [] = ok []
  rows_of (symbol ∷ symbols) = do
    row ← priced_row symbol (lookup symbol p.prices)
    rest ← rows_of symbols
    ok (row ++ rest)

  -- `set(current_quantities) | set(targets)`
  abbrev pub symbols : List String
  symbols =
      keys current_quantities
      ++ keep (λ symbol. not (is_in symbol (keys current_quantities))) (keys p.targets)

  -- `key=lambda item: (item[1].side is OrderSide.BUY, item[1].pair.symbol)`
  abbrev pub row_before : RebalanceOrderPlan × OrderIntent → RebalanceOrderPlan × OrderIntent → Bool
  row_before a b =
      (not (is_buy a.1) && is_buy b.1)
      || ((is_buy a.1 || not (is_buy b.1))
          && (not (is_buy a.1) || is_buy b.1)
          && str_lt (symbol_of a.1.pair) (symbol_of b.1.pair))

  -- `_plan`: the plans with their intents, in the order of their execution.
  unfoldable pub plan : Result RebalanceError (List (RebalanceOrderPlan × OrderIntent))
  unfolding rows_of sort_by
  plan = do rows ← rows_of symbols; ok (sort_by row_before rows)
