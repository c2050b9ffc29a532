-- ===== src/Portfolio.antt =====
-- internal/portfolio: holdings, their validation and the effective rate.
pub mod Holding
pub mod Build
pub mod Validity
pub mod Described
pub mod Service
pub mod Rates
pub mod Ownership
pub mod Postgres
