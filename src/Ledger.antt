-- ===== src/Ledger.antt =====
-- The Paper ledger of src/investment/crypto: portfolios and orders, the risk engine, the Paper
-- exchange, and `SqlitePaperPortfolioRepository`, which keeps the accounts.
pub mod Orders
pub mod Tables
pub mod Accounting
pub mod Risk
pub mod Exchange
pub mod Boundary
mod Tests
