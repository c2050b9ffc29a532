-- ===== src/Dashboard.antt =====
-- internal/dashboard: the portfolio summary computed from holdings and quotes.
pub mod Compute
pub mod Service
pub mod Reconcile
pub mod Sectors
pub mod Shares
pub mod Totals
pub mod Fetch
