-- ===== src/Ledger/Risk/Limits.antt =====
-- What the risk engine lets through.
use investment_research_engi.Base.{◌≤◌, ◌≡◌, true, false, arith, str_eq, length, any, ◌↔◌}
use investment_research_engi.Base.Result.{ok}
use investment_research_engi.Decimal.{Decimal, ◌-d◌, ◌*d◌, lt_d, le_d, one_d}
use investment_research_engi.Ledger.Orders.{
  purpose_eq, is_core, TradingPortfolio, OrderIntent, ApprovedOrder,
}
use investment_research_engi.Ledger.Risk.{
  RiskPolicy, PortfolioAllocation, evaluate_allocation, approve_order,
}

-- What an approved allocation keeps to.
pub record WithinLimits (p : RiskPolicy) (a : PortfolioAllocation) (t : TradingPortfolio)
    : Type 0 where
  pub running : p.kill_switch ≡ false
  pub same_portfolio : str_eq a.portfolio_id t.portfolio_id ≡ true
  pub same_purpose : purpose_eq a.purpose t.purpose ≡ true
  pub tactical : is_core t.purpose ≡ false
  pub few : length a.allocations ≤ p.maximum_positions
  pub invested : le_d (one_d -d a.cash_weight) p.maximum_invested_fraction ≡ true
  pub spread : any (λ x. lt_d p.maximum_asset_fraction x.weight) a.allocations ≡ false

-- An allocation is approved exactly if it keeps to every limit of the policy.
pub evaluate_allocation-WithinLimits :
    (p : RiskPolicy) (a : PortfolioAllocation) (t : TradingPortfolio)
    → ((evaluate_allocation p a t).approved ≡ true) ↔ WithinLimits p a t
unfolding evaluate_allocation
evaluate_allocation-WithinLimits p a t = ((λ h. ground arith), (λ w. ground arith))

-- An approved order carries the intent unchanged and the policy's version; it is no core investment,
-- no kill switch is on, and its notional at the reference price is within both limits.
pub approve_order-limits :
    (p : RiskPolicy) (i : OrderIntent) (price : Decimal) (o : ApprovedOrder)
    → approve_order p i price ≡ ok o
    → (o ≡ record { intent = i; risk_policy_version = p.version })
      × (is_core i.purpose ≡ false)
      × (p.kill_switch ≡ false)
      × (le_d p.minimum_order_notional (i.quantity *d price) ≡ true)
      × (le_d (i.quantity *d price) p.maximum_single_order_notional ≡ true)
unfolding approve_order
approve_order-limits p i price o h = ground arith
