-- ===== src/Money/Allocate/Shares.antt =====
-- internal/platform/money/ratio.go, AllocateBps: the sum of the shares, and each share.
use yield_forge.Base.{
  ℕ, zero, suc, ◌+◌, ◌*◌, ◌^◌, ◌<◌, ◌≡◌, refl, List, [], ◌∷◌, length, sum, replicate, arith, ◌∙◌,
  ap, get_or, map,
}
use yield_forge.Base.Int.{ℤ, pos, negsuc, ◌+ℤ◌, int_laws}
use yield_forge.Money.Allocate.Reference.{
  largest_remainder, length-largest_remainder, sum-largest_remainder,
}
use yield_forge.Money.Allocate.Quota.{quota_rule}
use yield_forge.Money.Allocate.Refine.{positives, length-positives, allocate_bps_refines}
use yield_forge.Money.Allocate.{positive_total, allocate_bps}

-- The exact sum of a list of integers.
abbrev pub sum_ℤ : List ℤ → ℤ
sum_ℤ [] = pos 0
sum_ℤ (x ∷ xs) = x +ℤ sum_ℤ xs

pub sum_ℤ-map_pos : (ns : List ℕ) → sum_ℤ (map pos ns) ≡ pos (sum ns)
sum_ℤ-map_pos [] = refl
sum_ℤ-map_pos (n ∷ ns) = rw (sum_ℤ-map_pos ns) (omega int_laws)

get_or-map_pos : (ns : List ℕ) (i : ℕ) → get_or (map pos ns) i (pos 0) ≡ pos (get_or ns i 0)
get_or-map_pos [] i = refl
get_or-map_pos (n ∷ ns) zero = refl
get_or-map_pos (n ∷ ns) (suc i) = get_or-map_pos ns i

-- For fewer than 2^62 weights, whose positive ones have a positive sum below 2^63 / 10000, the shares
-- add up to exactly 10000.
pub sum-allocate_bps :
    (ws : List ℤ)
    → 0 < sum (positives ws)
    → sum (positives ws) * 10000 < 2 ^ 63
    → length ws < 2 ^ 62
    → sum_ℤ (allocate_bps ws) ≡ pos 10000
sum-allocate_bps ws p h l =
    ap sum_ℤ (allocate_bps_refines ws p h l)
    ∙ sum_ℤ-map_pos (largest_remainder (positives ws))
    ∙ ap pos (sum-largest_remainder (positives ws) p)

length-map_pos : (ns : List ℕ) → length (map pos ns) ≡ length ns
length-map_pos [] = refl
length-map_pos (n ∷ ns) = omega (arith, length-map_pos ns)

-- There is a share for every weight.
pub length-allocate_bps :
    (ws : List ℤ)
    → 0 < sum (positives ws)
    → sum (positives ws) * 10000 < 2 ^ 63
    → length ws < 2 ^ 62
    → length (allocate_bps ws) ≡ length ws
length-allocate_bps ws p h l =
    ap length (allocate_bps_refines ws p h l)
    ∙ length-map_pos (largest_remainder (positives ws))
    ∙ length-largest_remainder (positives ws)
    ∙ length-positives ws

-- The share `s` differs from `w * 10000 / t` by less than one point.
pub record IsNear (w t s : ℕ) : Type 0 where
  pub below : s * t < w * 10000 + t
  pub above : w * 10000 < s * t + t

-- For fewer than 2^62 weights, whose positive ones have a positive sum below 2^63 / 10000, the share
-- of every weight is a number less than one basis point away from its exact proportion of that sum,
-- a negative weight counting as zero.
pub allocate_bps-IsNear :
    (ws : List ℤ) (i : ℕ)
    → 0 < sum (positives ws)
    → sum (positives ws) * 10000 < 2 ^ 63
    → length ws < 2 ^ 62
    → (s : ℕ) × (get_or (allocate_bps ws) i (pos 0) ≡ pos s)
      × IsNear (get_or (positives ws) i 0) (sum (positives ws)) s
allocate_bps-IsNear ws i p h l =
    let ns = positives ws in
    let near = quota_rule i ns p in
    (
      get_or (largest_remainder ns) i 0,
      ap (λ (xs : List ℤ). get_or xs i (pos 0)) (allocate_bps_refines ws p h l)
          ∙ get_or-map_pos (largest_remainder ns) i,
      record { below = near.0; above = near.1 },
    )

-- A total of zero leaves the zero shares.
positive_total-none : (ws : List ℤ) → sum (positives ws) ≡ 0 → positive_total (pos 0) ws ≡ pos 0
unfolding positive_total
positive_total-none [] h = refl
positive_total-none (pos zero ∷ ws) h = positive_total-none ws (omega arith)
positive_total-none (pos (suc n) ∷ ws) h = absurd (omega arith)
positive_total-none (negsuc n ∷ ws) h = ground (arith, positive_total-none ws)

-- Without a positive weight every share is zero.
pub allocate_bps-none :
    (ws : List ℤ) → sum (positives ws) ≡ 0 → allocate_bps ws ≡ replicate (length ws) (pos 0)
unfolding allocate_bps
allocate_bps-none ws h = rw (positive_total-none ws h)
