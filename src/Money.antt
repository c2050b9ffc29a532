-- ===== src/Money.antt =====
-- internal/platform/money: decimal text and ratios over int64 centavos and basis points.
pub mod HalfUp
pub mod Ratio
pub mod Allocate
pub mod Decimal
