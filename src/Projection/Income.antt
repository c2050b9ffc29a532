-- ===== src/Projection/Income.antt =====
-- The income of the three scenarios.
use yield_forge.Base.{ℕ, ◌+◌, ◌-◌, ◌*◌, ◌/◌, ◌^◌, ◌<◌, ◌≡◌, arith}
use yield_forge.Base.Int.{pos, negsuc}
use yield_forge.Base.Int64.{add64, mul64, quo64, add64-pos, mul64-pos, quo64-pos}
use yield_forge.Money.HalfUp.{IsHalfUp, div-IsHalfUp}
use yield_forge.Projection.Compute.{
  pessimistic, base, optimistic, scenario_annual, monthly_from_annual, at_least_zero,
}

-- The products of the delta by the adjustments, divided back.
delta_down :
    (b d : ℕ)
    → b < 2 ^ 62
    → d * 200 < 2 ^ 63
    → at_least_zero (add64 (pos b) (quo64 (mul64 (pos d) (negsuc 199)) (pos 200))) ≡ pos (b - d)
unfolding quo64 mul64 add64
delta_down b d h k = ground arith

delta_up :
    (b d : ℕ)
    → b < 2 ^ 62
    → d * 200 < 2 ^ 62
    → at_least_zero (add64 (pos b) (quo64 (mul64 (pos d) (pos 200)) (pos 200))) ≡ pos (b + d)
unfolding quo64 mul64 add64
delta_up b d h k = ground arith

delta_none :
    (b d : ℕ)
    → b < 2 ^ 62
    → at_least_zero (add64 (pos b) (quo64 (mul64 (pos d) (pos 0)) (pos 200))) ≡ pos b
unfolding quo64 mul64 add64
delta_none b d h = ground arith

-- For a base income b and a delta d, not negative, with b and 200 * d below 2^62, the annual incomes of the three
-- scenarios are b - d (zero where d is larger), b and b + d.
scenario_annual_spread :
    (b d : ℕ)
    → b < 2 ^ 62
    → d * 200 < 2 ^ 62
    → (scenario_annual (pos b) (pos d) pessimistic ≡ pos (b - d))
      × (scenario_annual (pos b) (pos d) base ≡ pos b)
      × (scenario_annual (pos b) (pos d) optimistic ≡ pos (b + d))
unfolding scenario_annual
scenario_annual_spread b d h k =
    (delta_down b d h (omega arith), delta_none b d h, delta_up b d h k)

-- The monthly income of an annual income that is not negative and below 2^61 is its twelfth rounded
-- half-up.
monthly_from_annual-IsHalfUp :
    (a : ℕ) → a < 2 ^ 61 → (q : ℕ) × (monthly_from_annual (pos a) ≡ pos q) × IsHalfUp a 12 q
unfolding monthly_from_annual
monthly_from_annual-IsHalfUp a h = (
  (2 * a + 12) / 24,
  ground (arith, mul64-pos a 2, add64-pos (a * 2) 12, quo64-pos (a * 2 + 12) 24),
  div-IsHalfUp a 12 (omega arith),
)
