-- ===== src/Profile.antt =====
-- internal/profile: the investor's profile.
pub mod Values
pub mod Service
pub mod Postgres
pub mod Objectives
pub mod Saved
