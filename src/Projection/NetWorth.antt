-- ===== src/Projection/NetWorth.antt =====
-- internal/projection/compute.go, projectNetWorth: the years of its points.
use native.Mathlib.Decide.{ℕ_discrete}
use yield_forge.Base.{
  ℕ, zero, suc, ◌+◌, ◌*◌, ◌/◌, ◌%◌, ◌^◌, ◌<◌, ◌≡◌, ◌≢◌, ◌-◌, ◌==◌, false, List, [], ◌∷◌, arith, ◌∙◌,
  ap,
}
use yield_forge.Base.Int.{ℤ, pos, pos_part}
use yield_forge.Base.Int64.{mul64-pos, mul64, quo64}
use yield_forge.Projection.Compute.{Inputs, NetWorthPoint, grow, grow_month, project_net_worth}

abbrev pub years : List NetWorthPoint → List ℕ
years [] = []
years (p ∷ ps) = p.year ∷ years ps

-- The n years after y.
abbrev pub years_from : ℕ → ℕ → List ℕ
years_from y zero = []
years_from y (suc n) = y ∷ years_from (suc y) n

not_zero : (n : ℕ) → n ≢ 0 → (n == 0) ≡ false
not_zero n h = ground arith

-- From month m on, with k rounds left: the first year not before m, and how many years end.
first_year : ℕ → ℕ
first_year m = (m + 11) / 12

year_count : ℕ → ℕ → ℕ
year_count m k = (m + k - 1) / 12 - (m - 1) / 12

grow-years :
    (k m : ℕ) (rate contribution value : ℤ)
    → 0 < m
    → years (grow k m rate contribution value) ≡ years_from (first_year m) (year_count m k)
unfolding grow first_year year_count
grow-years zero m rate contribution value p =
    let none_left : (m + 0 - 1) / 12 - (m - 1) / 12 ≡ 0 = omega arith in rw none_left
grow-years (suc k) m rate contribution value p = elim (ℕ_discrete (m % 12) 0) [
  | yes ends ↦
      let more : (m + suc k - 1) / 12 - (m - 1) / 12
          ≡ suc ((suc m + k - 1) / 12 - (suc m - 1) / 12) =
        omega arith in
      let here : (m + 11) / 12 ≡ m / 12 = omega arith in
      let later : (suc m + 11) / 12 ≡ suc (m / 12) = omega arith in
      rw (ends, more, here)
        (ap (λ (ys : List ℕ). m / 12 ∷ ys)
          (grow-years k (suc m) rate contribution (grow_month rate contribution value) (omega arith)
            ∙ ap (λ (y : ℕ). years_from y ((suc m + k - 1) / 12 - (suc m - 1) / 12)) later))
  | no goes_on ↦
      let same : (m + suc k - 1) / 12 - (m - 1) / 12 ≡ (suc m + k - 1) / 12 - (suc m - 1) / 12 =
        omega arith in
      let first : (m + 11) / 12 ≡ (suc m + 11) / 12 = omega arith in
      rw (not_zero (m % 12) goes_on, same, first)
        (grow-years k (suc m) rate contribution (grow_month rate contribution value) (omega arith))
]

-- For a horizon of n years, whose months are below 2^63, the series has exactly one point for each of the
-- years 0 to n, in order, whatever the yield.
pub project_net_worth-years :
    (input : Inputs) (n : ℕ) (yield_bps : ℤ)
    → input.horizon_years ≡ pos n
    → n * 12 < 2 ^ 63
    → years (project_net_worth input yield_bps) ≡ years_from 0 (suc n)
unfolding project_net_worth first_year year_count
project_net_worth-years input n yield_bps h fits =
    let rounds : pos_part (mul64 input.horizon_years (pos 12)) ≡ n * 12 =
      ap (λ (z : ℤ). pos_part (mul64 z (pos 12))) h ∙ ap pos_part (mul64-pos n 12 fits) in
    let count : (1 + n * 12 - 1) / 12 - (1 - 1) / 12 ≡ n = omega arith in
    rw rounds (
      ap (λ (ys : List ℕ). 0 ∷ ys)
        (grow-years (n * 12) 1 (quo64 yield_bps (pos 12)) input.monthly_contribution_centavos
            input.current_value_centavos (omega arith)
          ∙ ap (years_from 1) count))
