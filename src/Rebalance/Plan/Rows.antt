-- ===== src/Rebalance/Plan/Rows.antt =====
-- `_plan`: what each order is.
use investment_research_engi.Base.{
  ◌≡◌, refl, subst, String, true, false, ◌||◌, ◌&&◌, not, Option, none, some, List, [], ◌∷◌, ◌++◌,
  arith, All, All-append, Bool-cases, inl, inr, str_eq_iff,
}
use investment_research_engi.Base.Int.{ltb_ℤ, ℤ, pos, negsuc}
use investment_research_engi.Base.Dict.{lookup}
use investment_research_engi.Base.Result.{ok, >>=-returns}
use investment_research_engi.Base.Sorting.{sort_by, All-sort_by}
use investment_research_engi.Decimal.{
  Decimal, lt_d, le_d, zero_d, align, common, abs_d, ◌*d◌, ◌/d◌, eq_d,
}
use investment_research_engi.Ledger.Orders.{
  OrderSide, side_eq, OrderIntent, TradingPair, validate_intent,
}
use investment_research_engi.Ledger.Exchange.{symbol_of}
use investment_research_engi.Rebalance.Floats.{Floats}
use investment_research_engi.Rebalance.Policy.{DynamicUniversePolicy}
use investment_research_engi.Rebalance.Candidates.{is_in}
use investment_research_engi.Rebalance.Gates.{RebalanceError}
use investment_research_engi.Rebalance.Plan.{
  RebalanceOrderPlan, Identity, Planning, is_buy, row_before, rows_of, symbols, plan, held, target,
  threshold, order_row, row_quantity, as_intent, intent_of, plan_of, or_raise, priced_row,
  sized_row, member_pair, is_refused, side_of,
}
use investment_research_engi.Rebalance.Universe.{UniverseMember}

ltb-irreflexive : (n : ℤ) → ltb_ℤ n n ≡ false
ltb-irreflexive (pos n) = ground arith
ltb-irreflexive (negsuc n) = ground arith

le_refl : (d : Decimal) → le_d d d ≡ true
unfolding lt_d
le_refl d = ground (arith, ltb-irreflexive (align d (common d d)))

module _ (fs : Floats) (policy : DynamicUniversePolicy fs) (identity : Identity)
    (p : Planning) where
  -- An order is of this portfolio and has a quantity; a sale is covered by the position and a purchase is
  -- not blocked; it is large enough, and of a market of the universe.
  pub record IsSound (row : RebalanceOrderPlan × OrderIntent) : Type 0 where
    pub same_portfolio : row.1.portfolio_id ≡ p.portfolio.portfolio_id
    pub same_purpose : row.1.purpose ≡ p.portfolio.purpose
    pub positive : le_d row.1.quantity zero_d ≡ false
    pub covered :
        (is_buy row.1 || le_d row.1.quantity (held fs policy identity p row.0.pair)) ≡ true
    pub allowed :
        (not (is_buy row.1) || (not p.block_buys && not (is_in row.0.pair p.blocked_buy_pairs)))
        ≡ true
    pub worthwhile : lt_d row.0.notional (threshold fs policy identity p) ≡ false
    pub listed : symbol_of row.1.pair ≡ row.0.pair

  covered-quantity :
      (side : OrderSide) (difference price goal current quantity : Decimal)
      → row_quantity side difference price goal current ≡ ok quantity
      → (side_eq side OrderSide.buy || le_d quantity current) ≡ true
  covered-quantity OrderSide.buy difference price goal current quantity h = refl
  covered-quantity OrderSide.sell difference price goal current quantity h =
      elim (Bool-cases (eq_d goal zero_d)) [
        | inl whole ↦
            let one : current ≡ quantity = let h' = rw whole at h in ground arith in
            subst (λ q. le_d q current ≡ true) one (le_refl current)
        | inr part ↦ ground (arith, le_refl current)
      ]

  member-symbol :
      (symbol : String) (members : List UniverseMember) (pair : TradingPair)
      → member_pair symbol members ≡ some pair
      → symbol_of pair ≡ symbol
  member-symbol symbol [] pair h = absurd (ground arith)
  member-symbol symbol (m ∷ ms) pair h =
      ground (arith, str_eq_iff (symbol_of m.pair) symbol, member-symbol symbol ms pair)

  valid-intent :
      (i j : OrderIntent)
      → as_intent (validate_intent i) ≡ ok j
      → (j ≡ i) × (le_d i.quantity zero_d ≡ false)
  unfolding validate_intent
  valid-intent i j h = ground arith

  order_row-IsSound :
      (symbol : String) (price : Decimal) (side : OrderSide) (difference : Decimal)
      (pair : TradingPair) (row : RebalanceOrderPlan × OrderIntent)
      → order_row fs policy identity p symbol price side difference pair ≡ ok row
      → lt_d (abs_d difference) (threshold fs policy identity p) ≡ false
      → symbol_of pair ≡ symbol
      → is_refused fs policy identity p symbol side ≡ false
      → IsSound row
  unfolding order_row
  order_row-IsSound symbol price side difference pair row h large same free =
      let now = held fs policy identity p symbol in
      let (quantity, sized, h₁) =
        >>=-returns
          (row_quantity side difference price (p.equity *d target fs policy identity p symbol) now)
          _ h in
      let i = intent_of fs policy identity p symbol pair side quantity in
      let (j, valid, h₂) = >>=-returns (as_intent (validate_intent i)) _ h₁ in
      let (weight, _, h₃) =
        >>=-returns (or_raise (now *d price /d p.equity) RebalanceError.division_by_zero) _ h₂ in
      let (made, positive) = valid-intent i j valid in
      let enough = covered-quantity side difference price _ now quantity sized in
      let one : (plan_of fs policy identity p symbol price (abs_d difference) weight i, i) ≡ row =
        let h₄ = rw made at h₃ in ground arith in
      subst IsSound one (record {
        same_portfolio = refl;
        same_purpose = refl;
        positive = positive;
        covered = enough;
        allowed = ground arith;
        worthwhile = large;
        listed = same;
      })

  sized_row-IsSound :
      (symbol : String) (price difference : Decimal)
      (rows : List (RebalanceOrderPlan × OrderIntent))
      → sized_row fs policy identity p symbol price difference ≡ ok rows
      → All IsSound rows
  sized_row-IsSound symbol price difference rows h =
      elim (Bool-cases (lt_d (abs_d difference) (threshold fs policy identity p))) [
        | inl small ↦
            let one : [] ≡ rows = let h' = rw small at h in ground arith in
            subst (All IsSound) one tt
        | inr large ↦
            let h₀ = rw large at h in
            let (pair, found, h₁) =
              >>=-returns
                (or_raise (member_pair symbol p.members) RebalanceError.pair_not_in_universe) _
                h₀ in
            elim (Bool-cases (is_refused fs policy identity p symbol (side_of difference))) [
              | inl refused ↦
                  let one : [] ≡ rows = let h' = rw refused at h₁ in ground arith in
                  subst (All IsSound) one tt
              | inr free ↦
                  let h₂ = rw free at h₁ in
                  let (row, made, h₃) =
                    >>=-returns
                      (order_row fs policy identity p symbol price (side_of difference) difference
                        pair)
                      _ h₂ in
                  let one : row ∷ [] ≡ rows = ground arith in
                  subst (All IsSound) one (
                    order_row-IsSound symbol price (side_of difference) difference pair row made
                        large (member-symbol symbol p.members pair (ground arith)) free,
                    tt,
                  )
            ]
      ]

  priced_row-IsSound :
      (symbol : String) (price : Option Decimal) (rows : List (RebalanceOrderPlan × OrderIntent))
      → priced_row fs policy identity p symbol price ≡ ok rows
      → All IsSound rows
  priced_row-IsSound symbol none rows h =
      let one : [] ≡ rows = ground arith in subst (All IsSound) one tt
  priced_row-IsSound symbol (some price) rows h = sized_row-IsSound symbol price _ rows h

  rows_of-IsSound :
      (names : List String) (rows : List (RebalanceOrderPlan × OrderIntent))
      → rows_of fs policy identity p names ≡ ok rows
      → All IsSound rows
  unfolding rows_of
  rows_of-IsSound [] rows h = let one : [] ≡ rows = ground arith in subst (All IsSound) one tt
  rows_of-IsSound (symbol ∷ names) rows h =
      let price = lookup symbol p.prices in
      let (row, first, h₁) = >>=-returns (priced_row fs policy identity p symbol price) _ h in
      let (rest, later, h₂) = >>=-returns (rows_of fs policy identity p names) _ h₁ in
      let one : row ++ rest ≡ rows = ground arith in
      subst (All IsSound) one (
        All-append IsSound row rest (priced_row-IsSound symbol price row first)
          (rows_of-IsSound names rest later))

  -- Every order of a plan is sound: it is for the portfolio and has a positive quantity, a sale sells no
  -- more than the position, there is no purchase where purchases are blocked, the difference is no
  -- smaller than the threshold, and the pair has the symbol of the row.
  pub plan-IsSound :
      (rows : List (RebalanceOrderPlan × OrderIntent))
      → plan fs policy identity p ≡ ok rows
      → All IsSound rows
  unfolding plan
  plan-IsSound rows h =
      let names = symbols fs policy identity p in
      let (found, made, one) = >>=-returns (rows_of fs policy identity p names) _ h in
      let same : sort_by (row_before fs policy identity p) found ≡ rows = ground arith in
      subst (All IsSound) same (
        All-sort_by (row_before fs policy identity p) IsSound found
          (rows_of-IsSound names found made))
