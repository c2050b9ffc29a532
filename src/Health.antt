-- ===== src/Health.antt =====
-- internal/health: the health score of a portfolio.
pub mod Compute
pub mod Inputs
pub mod Score
pub mod Target
