-- ===== src/Runtime.antt =====
-- The autonomous runtime of src/investment/runtime: job executions, leases, the service that runs
-- a job, its configuration and its event delivery.
pub mod Domain
pub mod Lease
pub mod Errors
pub mod Config
pub mod State
pub mod RunJob
pub mod Publisher
pub mod Scheduler
mod Tests
