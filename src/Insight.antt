-- ===== src/Insight.antt =====
-- internal/insight: the guard round the generated texts.
pub mod Gate
pub mod Cache
pub mod Capacity
pub mod SameRequest
pub mod Provenance
