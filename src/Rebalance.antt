-- ===== src/Rebalance.antt =====
-- The rebalance cycle of the Paper portfolios (src/investment/crypto/application/dynamic_paper_rebalance.py).
pub mod Floats
pub mod Policy
pub mod Candidates
pub mod Guards
pub mod Gates
pub mod Selection
pub mod Decisions
pub mod History
pub mod Universe
pub mod Plan
pub mod Budget
pub mod Execution
pub mod Scoring
pub mod Assess
pub mod Variants
pub mod Reasons
pub mod Service
pub mod Run
mod Tests
