-- ===== src/Derivatives.antt =====
-- The derivatives context of a decision, src/investment/crypto/derivatives: stored snapshots and
-- signals, and the overlay that is built from what was known at a time.
pub mod Store
pub mod Context
pub mod Overlay
mod Tests
