-- ===== src/Ledger/Risk.antt =====
-- `RiskPolicy` and `DeterministicRiskEngine` of src/investment/crypto/risk/engine.py, and the
-- allocations of src/investment/crypto/domain/portfolio.py that they judge.
pub mod Limits
use investment_research_engi.Base.{
  ℕ, String, Bool, true, false, Option, none, some, ◌||◌, ◌&&◌, not, if◌then◌else◌, List, [], ◌∷◌,
  ◌++◌, str_eq, length, any, ltb, ◌==◌, map,
}
use investment_research_engi.Base.Result.{Result, ok, err, ◌>>=◌, ◌>>◌, raise_if}
use investment_research_engi.Decimal.{Decimal, ◌+d◌, ◌-d◌, ◌*d◌, lt_d, le_d, eq_d, zero_d, one_d}
use investment_research_engi.Ledger.Orders.{
  PortfolioPurpose, purpose_eq, is_core, TradingPortfolio, OrderIntent, ApprovedOrder, make_order,
  DomainError,
}

pub record RiskPolicy : Type 0 where
  pub version : String
  pub maximum_invested_fraction : Decimal
  pub maximum_asset_fraction : Decimal
  pub maximum_positions : ℕ
  pub maximum_single_order_notional : Decimal
  pub minimum_order_notional : Decimal
  pub kill_switch : Bool

pub data PolicyError : Type 0 where
  positions_not_positive invested_fraction_out_of_range asset_fraction_out_of_range : PolicyError
  negative_notional minimum_above_maximum : PolicyError

-- `Decimal("0") <= value <= Decimal("1")`
abbrev pub in_unit : Decimal → Bool
in_unit d = le_d zero_d d && le_d d one_d

-- `RiskPolicy.__post_init__`
unfoldable pub validate_policy : RiskPolicy → Result PolicyError RiskPolicy
validate_policy p = do
  raise_if (p.maximum_positions == 0) PolicyError.positions_not_positive
  raise_if (not (in_unit p.maximum_invested_fraction)) PolicyError.invested_fraction_out_of_range
  raise_if (not (in_unit p.maximum_asset_fraction)) PolicyError.asset_fraction_out_of_range
  raise_if (lt_d p.maximum_single_order_notional zero_d || lt_d p.minimum_order_notional zero_d)
      PolicyError.negative_notional
  raise_if (lt_d p.maximum_single_order_notional p.minimum_order_notional)
      PolicyError.minimum_above_maximum
  ok p

pub record AssetAllocation : Type 0 where
  pub asset : String
  pub weight : Decimal

pub record PortfolioAllocation : Type 0 where
  pub portfolio_id : String
  pub purpose : PortfolioPurpose
  pub allocations : List AssetAllocation
  pub cash_weight : Decimal

pub data AllocationError : Type 0 where
  core_forbidden cash_weight_out_of_range weight_out_of_range duplicate_assets : AllocationError
  weights_not_one : AllocationError

abbrev has_duplicates : List String → Bool
has_duplicates [] = false
has_duplicates (x ∷ xs) = any (λ y. str_eq y x) xs || has_duplicates xs

-- `sum(weights, cash_weight)` adds from the left.
unfoldable pub total_weight : Decimal → List AssetAllocation → Decimal
total_weight acc [] = acc
total_weight acc (a ∷ as') = total_weight (acc +d a.weight) as'

-- The checks of `AssetAllocation` and `PortfolioAllocation.__post_init__`.
unfoldable pub validate_allocation :
    PortfolioAllocation → Result AllocationError PortfolioAllocation
unfolding total_weight
validate_allocation a = do
  raise_if (any (λ x. not (in_unit x.weight)) a.allocations) AllocationError.weight_out_of_range
  raise_if (is_core a.purpose) AllocationError.core_forbidden
  raise_if (not (in_unit a.cash_weight)) AllocationError.cash_weight_out_of_range
  raise_if (has_duplicates (map (λ x. x.asset) a.allocations)) AllocationError.duplicate_assets
  raise_if (not (eq_d (total_weight a.cash_weight a.allocations) one_d))
      AllocationError.weights_not_one
  ok a

pub data Violation : Type 0 where
  kill_switch_active portfolio_id_mismatch portfolio_purpose_mismatch : Violation
  core_investment_forbidden maximum_positions_exceeded : Violation
  maximum_portfolio_allocation_exceeded maximum_asset_allocation_exceeded : Violation

pub record RiskDecision : Type 0 where
  pub approved : Bool
  pub policy_version : String
  pub violations : List Violation

abbrev when : Bool → Violation → List Violation
when true v = v ∷ []
when false v = []

abbrev violations_of : RiskPolicy → PortfolioAllocation → TradingPortfolio → List Violation
violations_of p a t =
    when p.kill_switch Violation.kill_switch_active
    ++ (when (not (str_eq a.portfolio_id t.portfolio_id)) Violation.portfolio_id_mismatch
        ++ (when (not (purpose_eq a.purpose t.purpose)) Violation.portfolio_purpose_mismatch
            ++ (when (is_core t.purpose) Violation.core_investment_forbidden
                ++ (when (ltb p.maximum_positions (length a.allocations))
                      Violation.maximum_positions_exceeded
                    ++ (when (lt_d p.maximum_invested_fraction (one_d -d a.cash_weight))
                          Violation.maximum_portfolio_allocation_exceeded
                        ++ when (any (λ x. lt_d p.maximum_asset_fraction x.weight) a.allocations)
                            Violation.maximum_asset_allocation_exceeded)))))

abbrev is_clear : List Violation → Bool
is_clear [] = true
is_clear (_ ∷ _) = false

-- `DeterministicRiskEngine.evaluate_allocation`
unfoldable pub evaluate_allocation :
    RiskPolicy → PortfolioAllocation → TradingPortfolio → RiskDecision
evaluate_allocation p a t = record {
  approved = is_clear (violations_of p a t);
  policy_version = p.version;
  violations = violations_of p a t;
}

pub data ApprovalError : Type 0 where
  kill_switch_active core_forbidden below_minimum above_maximum : ApprovalError
  of_order : DomainError → ApprovalError

abbrev as_approval : Result DomainError ApprovedOrder → Result ApprovalError ApprovedOrder
as_approval (ok o) = ok o
as_approval (err e) = err (ApprovalError.of_order e)

-- `DeterministicRiskEngine.approve_order`
unfoldable pub approve_order :
    RiskPolicy → OrderIntent → Decimal → Result ApprovalError ApprovedOrder
unfolding make_order
approve_order p i reference_price = do
  raise_if p.kill_switch ApprovalError.kill_switch_active
  raise_if (is_core i.purpose) ApprovalError.core_forbidden
  let notional = i.quantity *d reference_price
  raise_if (lt_d notional p.minimum_order_notional) ApprovalError.below_minimum
  raise_if (lt_d p.maximum_single_order_notional notional) ApprovalError.above_maximum
  as_approval (make_order i p.version)
