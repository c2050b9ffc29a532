-- ===== src/Rebalancing/Whole.antt =====
-- internal/rebalancing/split.go: the shares of the areas.
use yield_forge.Base.{
  ℕ, zero, suc, ◌+◌, ◌*◌, ◌-◌, ◌^◌, ◌≤◌, ◌<◌, ◌≡◌, refl, sym, List, [], ◌∷◌, map, sum, length,
  arith, ◌∙◌, ap, inl, inr, Bool-cases, ltb,
}
use yield_forge.Base.Int.{ℤ, pos, negsuc, ◌+ℤ◌, int_laws}
use yield_forge.Base.Int64.{add64-pos, sub64-pos, sub64-pos_lt}
use yield_forge.Money.HalfUp.{IsHalfUp-le}
use yield_forge.Money.Ratio.Rounding.{apply_bps-IsHalfUp}
use yield_forge.Money.Allocate.{allocate_bps}
use yield_forge.Money.Allocate.Shares.{sum_ℤ, sum-allocate_bps, length-allocate_bps}
use yield_forge.Dashboard.Compute.{AssetClass, fii, fixed_income}
use yield_forge.Profile.Values.{RiskProfile, conservative, moderate, aggressive, unset}
use yield_forge.Rebalancing.Split.{
  Allocation, AreaShare, target_shares, gap_weight, gap_weights, any_gap, target_weights,
  split_weights, area_shares, split, split_classes,
}

-- A target share, as a number that is positive and at most 10000.
target_number :
    (r : RiskProfile)
    → (a : ℕ) × (b : ℕ) × (target_shares r fii ≡ pos a)
      × (target_shares r fixed_income ≡ pos b)
      × (0 < a)
      × (0 < b)
      × (a + b ≡ 10000)
target_number conservative = (3000, 7000, refl, refl, omega arith, omega arith, refl)
target_number moderate = (5000, 5000, refl, refl, omega arith, omega arith, refl)
target_number aggressive = (7000, 3000, refl, refl, omega arith, omega arith, refl)
target_number unset = (5000, 5000, refl, refl, omega arith, omega arith, refl)

-- A class's weight is its gap, a number no larger than the total that is steered for.
gap_weight-pos :
    (t k x : ℕ) (r : RiskProfile) (current : Allocation) (c : AssetClass)
    → t < 2 ^ 48
    → k ≤ 10000
    → x < 2 ^ 62
    → target_shares r c ≡ pos k
    → current.by_class c ≡ pos x
    → (w : ℕ) × (gap_weight (pos t) r current c ≡ pos w) × (w ≤ t)
unfolding gap_weight
gap_weight-pos t k x r current c h l u ek ex =
    let product : t * k ≤ t * 10000 = grind (arith, l) in
    let q = apply_bps-IsHalfUp t k (omega arith) in
    let q_le : q.0 ≤ t = IsHalfUp-le (t * k) 10000 q.0 t (omega arith) (omega arith) q.2 in
    (q.0 - x, rw (ek, q.1, ex) (ground (arith, sub64-pos q.0 x, sub64-pos_lt q.0 x)), omega arith)

-- Two weights, not both zero.
abbrev pub holding : ℕ → (AssetClass → ℤ) → Allocation
holding t by_class = record { total_centavos = pos t; by_class = by_class }

split_weights-pos :
    (t m x y : ℕ) (r : RiskProfile) (by_class : AssetClass → ℤ)
    → t + m < 2 ^ 48
    → x < 2 ^ 62
    → y < 2 ^ 62
    → by_class fii ≡ pos x
    → by_class fixed_income ≡ pos y
    → (a : ℕ) × (b : ℕ) × (split_weights (holding t by_class) r (record { centavos = pos m })
        ≡ pos a ∷ pos b ∷ [])
      × (0 < a + b)
      × (a + b ≤ 2 * (t + m) + 10000)
unfolding split_weights gap_weights any_gap target_weights
split_weights-pos t m x y r c h u v ex ey =
    let k = target_number r in
    let p =
      gap_weight-pos (t + m) k.0 x r (holding t c) fii h (omega (arith, k.4, k.5, k.6)) u k.2 ex in
    let q =
      gap_weight-pos (t + m) k.1 y r (holding t c) fixed_income h (omega (arith, k.4, k.5, k.6)) v
        k.3 ey in
    elim (Bool-cases (ltb 0 (p.0 + q.0))) [
      | inl gap ↦ (
        p.0,
        q.0,
        rw (add64-pos t m (omega arith), p.1, q.1) (ground (arith, gap)),
        ground (arith, gap),
        omega (arith, p.2, q.2),
      )
      | inr none ↦ (
        k.0,
        k.1,
        rw (add64-pos t m (omega arith), p.1, q.1, k.2, k.3) (ground (arith, none)),
        omega (arith, k.4),
        omega (arith, k.6),
      )
    ]

abbrev pub suggested_share : AreaShare → ℤ
suggested_share a = a.suggested_share_bps

-- Leaving out the areas without a share changes no sum.
sum-area_shares :
    (m : ℤ) (cs : List AssetClass) (ss : List ℤ)
    → length cs ≡ length ss
    → sum_ℤ (map suggested_share (area_shares m cs ss)) ≡ sum_ℤ ss
unfolding area_shares
sum-area_shares m [] [] e = refl
sum-area_shares m [] (s ∷ ss) e = absurd (omega (arith, e))
sum-area_shares m (c ∷ cs) [] e = absurd (omega (arith, e))
sum-area_shares m (c ∷ cs) (pos zero ∷ ss) e =
    sum-area_shares m cs ss (omega (arith, e)) ∙ omega int_laws
sum-area_shares m (c ∷ cs) (pos (suc n) ∷ ss) e =
    let rest = sum-area_shares m cs ss (omega (arith, e)) in
    ground (arith, ap (λ (z : ℤ). pos (suc n) +ℤ z) rest)
sum-area_shares m (c ∷ cs) (negsuc n ∷ ss) e =
    let rest = sum-area_shares m cs ss (omega (arith, e)) in
    ground (arith, ap (λ (z : ℤ). negsuc n +ℤ z) rest)

-- For a portfolio of t centavos and a contribution of m, whose sum is below 2^48, with values of
-- the two classes below 2^62, the shares of the suggested areas sum to exactly 10000 basis points.
pub sum-split :
    (t m x y : ℕ) (r : RiskProfile) (by_class : AssetClass → ℤ)
    → t + m < 2 ^ 48
    → x < 2 ^ 62
    → y < 2 ^ 62
    → by_class fii ≡ pos x
    → by_class fixed_income ≡ pos y
    → sum_ℤ (map suggested_share (split (holding t by_class) r (record { centavos = pos m })))
      ≡ pos 10000
unfolding split
sum-split t m x y r c h u v ex ey =
    let w = split_weights-pos t m x y r c h u v ex ey in
    let fits : sum (w.0 ∷ w.1 ∷ []) * 10000 < 2 ^ 63 = omega (arith, w.4) in
    let there : 0 < sum (w.0 ∷ w.1 ∷ []) = omega (arith, w.3) in
    let weights = pos w.0 ∷ pos w.1 ∷ [] in
    let two = length-allocate_bps weights there fits (omega arith) in
    rw w.2 (
      sum-area_shares (pos m) split_classes (allocate_bps weights) (sym two)
      ∙ sum-allocate_bps weights there fits (omega arith))
