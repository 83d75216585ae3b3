-- ===== src/Rebalance/Plan/Ordering.antt =====
-- `_plan`: sales come first.
use investment_research_engi.Base.{
  ◌≡◌, refl, subst, Bool, true, ◌&&◌, List, [], ◌∷◌, arith, all, if◌then◌else◌,
}
use investment_research_engi.Base.Result.{ok, >>=-returns}
use investment_research_engi.Base.Sorting.{place, sort_by}
use investment_research_engi.Ledger.Orders.{OrderIntent}
use investment_research_engi.Rebalance.Floats.{Floats}
use investment_research_engi.Rebalance.Policy.{DynamicUniversePolicy}
use investment_research_engi.Rebalance.Plan.{
  RebalanceOrderPlan, Identity, Planning, is_buy, row_before, rows_of, symbols, plan,
}

abbrev pub Row : Type 0
Row = RebalanceOrderPlan × OrderIntent

abbrev buys : Row → Bool
buys row = is_buy row.1

-- After a purchase come only purchases.
abbrev pub is_sales_first : List (RebalanceOrderPlan × OrderIntent) → Bool
is_sales_first [] = true
is_sales_first (x ∷ xs) =
    let rest = is_sales_first xs in if is_buy x.1 then all (λ row. is_buy row.1) xs else rest

module _ (fs : Floats) (policy : DynamicUniversePolicy fs) (identity : Identity)
    (p : Planning) where
  abbrev before : Row → Row → Bool
  before = row_before fs policy identity p

  all-place : (e : Row) (xs : List Row) → all buys (place before e xs) ≡ (buys e && all buys xs)
  unfolding place
  all-place e [] = refl
  all-place e (x ∷ xs) = ground (arith, all-place e xs)

  place-sales_first :
      (e : Row) (xs : List Row)
      → is_sales_first xs ≡ true
      → is_sales_first (place before e xs) ≡ true
  unfolding place
  place-sales_first e [] h = ground arith
  place-sales_first e (x ∷ xs) h = ground (arith, all-place e xs, place-sales_first e xs)

  sort-sales_first : (xs : List Row) → is_sales_first (sort_by before xs) ≡ true
  unfolding sort_by
  sort-sales_first [] = refl
  sort-sales_first (x ∷ xs) = place-sales_first x (sort_by before xs) (sort-sales_first xs)

  -- Every sale of a plan stands before every purchase, so that the cash of the sales is there for the
  -- purchases.
  pub plan-sales_first :
      (rows : List (RebalanceOrderPlan × OrderIntent))
      → plan fs policy identity p ≡ ok rows
      → is_sales_first rows ≡ true
  unfolding plan
  plan-sales_first rows h =
      let (found, _, one) =
        >>=-returns (rows_of fs policy identity p (symbols fs policy identity p)) _ h in
      let same : sort_by before found ≡ rows = ground arith in
      subst (λ r. is_sales_first r ≡ true) same (sort-sales_first found)
