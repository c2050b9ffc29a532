-- ===== src/Tests/Money.antt =====
-- internal/platform/money at concrete inputs.
use yield_forge.Base.{
  ℕ, ◌+◌, ◌*◌, ◌≤◌, ◌≡◌, ◌≢◌, refl, true, false, some, none, List, [], ◌∷◌, map, arith, get_or,
}
use yield_forge.Base.Int.{ℤ, pos, negsuc}
use yield_forge.Base.Int64.{add64, neg64}
use yield_forge.Base.Text.{codes, trim_space, parse_int64}
use yield_forge.Base.Result.{ok}
use yield_forge.Money.HalfUp.{IsHalfUp}
use yield_forge.Money.Ratio.{
  share_bps, share_bps_fuel, accrue_simple_interest, apply_bps, weighted_mean_bps,
}
use yield_forge.Money.Ratio.Rounding.{
  FitsShare, min_int64, share_bps-IsHalfUp, share_bps_fuel-total, share_bps_fuel-min_int64,
  accrue_simple_interest-IsHalfUp,
}
use yield_forge.Money.Ratio.Mean.{weighted_mean_bps-IsHalfUp, apply_bps-share_bps}
use yield_forge.Money.Allocate.{allocate_bps}
use yield_forge.Money.Allocate.Reference.{largest_remainder}
use yield_forge.Money.Allocate.Refine.{allocate_bps_refines}
use yield_forge.Money.Allocate.Shares.{sum_ℤ, IsNear, sum-allocate_bps, allocate_bps-IsNear}
use yield_forge.Money.Decimal.{decimal_to_minor, combine}
use yield_forge.Money.Decimal.Forms.{signed_minor}
use yield_forge.Money.Decimal.Parse.{decimal_to_minor-point, decimal_to_minor-comma}

-- A negative weight among positive ones.
abbrev weights : List ℤ
weights = pos 1 ∷ negsuc 4 ∷ pos 2 ∷ []

sum-allocate_bps_example : sum_ℤ (allocate_bps weights) ≡ pos 10000
sum-allocate_bps_example = sum-allocate_bps weights (omega arith) (omega arith) (omega arith)

allocate_bps-IsNear_example :
    (s : ℕ) × (get_or (allocate_bps weights) 2 (pos 0) ≡ pos s) × IsNear 2 3 s
allocate_bps-IsNear_example =
    allocate_bps-IsNear weights 2 (omega arith) (omega arith) (omega arith)

allocate_bps_refines_example : allocate_bps weights ≡ map pos (largest_remainder (1 ∷ 0 ∷ 2 ∷ []))
allocate_bps_refines_example =
    allocate_bps_refines weights (omega arith) (omega arith) (omega arith)

abbrev one_of_three : FitsShare 1 3
one_of_three = record { whole_pos = omega arith; sum_fits = omega arith; double_fits = omega arith }

share_bps-IsHalfUp_example :
    (q : ℕ) × (share_bps (pos 1) (pos 3) ≡ pos q)
    × IsHalfUp 10000 3 q
    × (share_bps (neg64 (pos 1)) (pos 3) ≡ neg64 (pos q))
share_bps-IsHalfUp_example = share_bps-IsHalfUp 1 3 one_of_three

not_min : negsuc 6 ≢ min_int64
not_min = λ e. ground (arith, e)

share_bps_fuel-total_example :
    share_bps_fuel 5 (negsuc 6) (pos 9) ≡ some (share_bps (negsuc 6) (pos 9))
share_bps_fuel-total_example =
    share_bps_fuel-total 3 (negsuc 6) (pos 9) (omega arith, omega arith) not_min

share_bps_fuel-min_int64_example : share_bps_fuel 1000 min_int64 (pos 7) ≡ none
share_bps_fuel-min_int64_example = share_bps_fuel-min_int64 1000 7 (omega arith)

accrue_simple_interest-IsHalfUp_example :
    (q : ℕ) × (accrue_simple_interest (pos 1000000) (pos 1050) (pos 30) ≡ pos q)
    × IsHalfUp (1000000 * 1050 * 30) 3650000 q
accrue_simple_interest-IsHalfUp_example =
    accrue_simple_interest-IsHalfUp 1000000 1050 30 (omega arith)

weighted_mean_bps-IsHalfUp_example :
    (q : ℕ) × (weighted_mean_bps (pos 80 ∷ pos 35 ∷ []) (pos 7000 ∷ pos 3000 ∷ []) ≡ pos q)
    × IsHalfUp 665000 10000 q
    × (q ≤ 100)
weighted_mean_bps-IsHalfUp_example =
    weighted_mean_bps-IsHalfUp 100 (80 ∷ 35 ∷ []) (7000 ∷ 3000 ∷ []) (omega arith)
      (omega arith, (omega arith, tt)) refl

apply_bps-share_bps_example :
    (n : ℕ) × (apply_bps (pos 3) (share_bps (pos 1) (pos 3)) ≡ pos n)
    × (20000 * n ≤ 20000 * 1 + 3 + 10000)
    × (20000 * 1 ≤ 20000 * n + 3 + 10000)
apply_bps-share_bps_example = apply_bps-share_bps 1 3 one_of_three (omega arith)

decimal_to_minor-point_example :
    (q : ℕ) × (decimal_to_minor (codes "-12.345") (pos 2) ≡ signed_minor true q)
    × IsHalfUp (12345 * 100) 1000 q
decimal_to_minor-point_example =
    decimal_to_minor-point 2 true b'1' (codes "2") (codes "345") refl refl

decimal_to_minor-comma_example :
    decimal_to_minor (codes "1.234,565") (pos 2) ≡ decimal_to_minor (codes "1234.565") (pos 2)
decimal_to_minor-comma_example =
    decimal_to_minor-comma 2 false b'1' (codes ".234") (codes "565") refl refl refl

decimal_comma : decimal_to_minor (codes "1.234,565") (pos 2) ≡ ok (pos 123457)
unfolding decimal_to_minor combine trim_space parse_int64 add64
decimal_comma = refl
