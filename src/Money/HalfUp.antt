-- ===== src/Money/HalfUp.antt =====
-- Rounding half-up, described by what a rounded quotient satisfies.
use native.Mathlib.Decide.{dec_lt}
use native.Mathlib.Nat.{le_refl}
use yield_forge.Base.{ℕ, ◌+◌, ◌*◌, ◌/◌, ◌≤◌, ◌<◌, ◌≡◌, arith}

-- `q` is `num / den` rounded to the nearest whole number, ties upwards.
pub record IsHalfUp (num den q : ℕ) : Type 0 where
  pub lower : 2 * den * q ≤ 2 * num + den
  pub upper : 2 * num + den < 2 * den * q + 2 * den

pub div-IsHalfUp : (num den : ℕ) → 0 < den → IsHalfUp num den ((2 * num + den) / (2 * den))
div-IsHalfUp num den h = record { lower = grind arith; upper = grind arith }

-- Rounding keeps the order of the numerators.
pub IsHalfUp-mono : (m n den q r : ℕ) → m ≤ n → IsHalfUp m den q → IsHalfUp n den r → q ≤ r
IsHalfUp-mono m n den q r le h k = elim (dec_lt r q) [
  | yes lt ↦
      let bigger : 2 * den * (r + 1) ≤ 2 * den * q = grind arith in
      absurd (omega (arith, bigger, h.lower, k.upper))
  | no ge ↦ omega arith
]

-- No two numbers are the rounding of one quotient.
pub IsHalfUp-unique : (num den q r : ℕ) → IsHalfUp num den q → IsHalfUp num den r → q ≡ r
IsHalfUp-unique num den q r h k = omega (
  arith,
  IsHalfUp-mono num num den q r (le_refl num) h k,
  IsHalfUp-mono num num den r q (le_refl num) k h,
)

-- A whole number of denominators rounds to itself.
pub IsHalfUp-exact : (den k : ℕ) → 0 < den → IsHalfUp (den * k) den k
IsHalfUp-exact den k p = record { lower = omega arith; upper = omega arith }

pub IsHalfUp-le : (num den q k : ℕ) → 0 < den → num ≤ den * k → IsHalfUp num den q → q ≤ k
IsHalfUp-le num den q k p le h = IsHalfUp-mono num (den * k) den q k le h (IsHalfUp-exact den k p)
