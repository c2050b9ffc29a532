-- ===== src/Projection.antt =====
-- internal/projection: income and net worth under three scenarios.
pub mod Compute
pub mod NetWorth
pub mod Income
