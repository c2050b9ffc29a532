-- ===== src/Money/Ratio/Mean.antt =====
-- internal/platform/money/ratio.go: WeightedMeanBps, and ApplyBps after ShareBps.
use yield_forge.Base.{
  ℕ, ◌+◌, ◌*◌, ◌/◌, ◌^◌, ◌≤◌, ◌<◌, ◌≡◌, List, [], ◌∷◌, map, sum, All, arith, ◌∙◌, ap,
}
use yield_forge.Base.Int.{pos}
use yield_forge.Base.Int64.{mul64-pos, add64-pos, quo64-pos}
use yield_forge.Money.HalfUp.{IsHalfUp, div-IsHalfUp, IsHalfUp-le}
use yield_forge.Money.Ratio.{weighted_sum, weighted_mean_bps, share_bps, apply_bps}
use yield_forge.Money.Ratio.Rounding.{FitsShare, share_bps-IsHalfUp, apply_bps-IsHalfUp}

-- The exact sum of products, as far as the shorter list goes.
abbrev pub dot : List ℕ → List ℕ → ℕ
dot [] ws = 0
dot (v ∷ vs) [] = 0
dot (v ∷ vs) (w ∷ ws) = v * w + dot vs ws

weighted_sum_lem :
    (n : ℕ) (vs ws : List ℕ)
    → n + dot vs ws < 2 ^ 63
    → weighted_sum (pos n) (map pos vs) (map pos ws) ≡ pos (n + dot vs ws)
unfolding weighted_sum
weighted_sum_lem n [] ws h = ground arith
weighted_sum_lem n (v ∷ vs) [] h = ground arith
weighted_sum_lem n (v ∷ vs) (w ∷ ws) h =
    ground (arith, mul64-pos v w, add64-pos n (v * w), weighted_sum_lem (n + v * w) vs ws)

pub weighted_mean_bps-pos :
    (vs ws : List ℕ)
    → 2 * dot vs ws + 10000 < 2 ^ 63
    → weighted_mean_bps (map pos vs) (map pos ws) ≡ pos ((2 * dot vs ws + 10000) / 20000)
unfolding weighted_mean_bps
weighted_mean_bps-pos vs ws h =
    let total : weighted_sum (pos 0) (map pos vs) (map pos ws) ≡ pos (dot vs ws) =
      weighted_sum_lem 0 vs ws (omega arith) ∙ ap pos (omega arith) in
    rw total (
      ground (
        arith,
        mul64-pos 2 (dot vs ws),
        add64-pos (2 * dot vs ws) 10000,
        quo64-pos (2 * dot vs ws + 10000) 20000,
      ))

pub AtMost-dot : (m : ℕ) (vs ws : List ℕ) → All (λ v. v ≤ m) vs → dot vs ws ≤ sum ws * m
AtMost-dot m [] ws a = omega arith
AtMost-dot m (v ∷ vs) [] a = omega arith
AtMost-dot m (v ∷ vs) (w ∷ ws) a =
    let one : v * w ≤ m * w = grind (arith, a.0) in omega (arith, one, AtMost-dot m vs ws a.1)

-- For values that are at most m and weights that sum to 10000, none negative, with twice the sum of
-- products plus 10000 below 2^63, the mean is that sum over 10000 rounded half-up and at most m.
pub weighted_mean_bps-IsHalfUp :
    (m : ℕ) (vs ws : List ℕ)
    → 2 * dot vs ws + 10000 < 2 ^ 63
    → All (λ v. v ≤ m) vs
    → sum ws ≡ 10000
    → (q : ℕ) × (weighted_mean_bps (map pos vs) (map pos ws) ≡ pos q)
      × IsHalfUp (dot vs ws) 10000 q
      × (q ≤ m)
weighted_mean_bps-IsHalfUp m vs ws h a e =
    let rounds = div-IsHalfUp (dot vs ws) 10000 (omega arith) in
    let below : dot vs ws ≤ 10000 * m =
      omega (arith, AtMost-dot m vs ws a, ap (λ (x : ℕ). x * m) e) in
    (
      (2 * dot vs ws + 10000) / 20000,
      weighted_mean_bps-pos vs ws h,
      rounds,
      IsHalfUp-le (dot vs ws) 10000 _ m (omega arith) below rounds,
    )

-- For a part p of a positive whole w, with 20000 * p + w and 2 * w below 2^63, turning the part into
-- its share and the share back into an amount misses the part by half a basis point of the whole and
-- half a unit at most.
pub apply_bps-share_bps :
    (p w : ℕ)
    → FitsShare p w
    → p ≤ w
    → (n : ℕ) × (apply_bps (pos w) (share_bps (pos p) (pos w)) ≡ pos n)
      × (20000 * n ≤ 20000 * p + w + 10000)
      × (20000 * p ≤ 20000 * n + w + 10000)
apply_bps-share_bps p w f le =
    let s = share_bps-IsHalfUp p w f in
    let share_le : s.0 ≤ 10000 =
      IsHalfUp-le (p * 10000) w s.0 10000 f.whole_pos (omega arith) s.2 in
    let product : w * s.0 ≤ w * 10000 = grind (arith, share_le) in
    let a = apply_bps-IsHalfUp w s.0 (omega (arith, product, f.double_fits, f.sum_fits)) in
    (
      a.0,
      ap (apply_bps (pos w)) s.1 ∙ a.1,
      omega (arith, a.2.lower, s.2.lower),
      omega (arith, a.2.upper, s.2.upper),
    )
