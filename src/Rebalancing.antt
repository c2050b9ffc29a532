-- ===== src/Rebalancing.antt =====
-- internal/rebalancing: how a contribution is split over the asset classes.
pub mod Split
pub mod Illustrative
pub mod Whole
pub mod Candidates
pub mod Grounded
