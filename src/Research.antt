-- ===== src/Research.antt =====
-- The crypto research lifecycle of src/investment/crypto: experiments and strategy versions, their
-- repository, the candidate policy, the service that moves them, and walk-forward splits.
pub mod Domain
pub mod Policy
pub mod Repository
pub mod Service
pub mod Run
pub mod Splits
mod Tests
