-- ===== src/Money/Ratio/Rounding.antt =====
-- internal/platform/money/ratio.go: the rounding of ShareBps, AccrueSimpleInterest and ApplyBps.
use native.Mathlib.Numerals.{add-one}
use yield_forge.Base.{
  ℕ, zero, suc, ◌+◌, ◌-◌, ◌*◌, ◌/◌, ◌^◌, ◌<◌, ◌≡◌, ◌≢◌, refl, arith, some, none, ◌∙◌, ap,
}
use yield_forge.Base.Int.{ℤ, pos, negsuc, ◌*ℤ◌, ◌+ℤ◌, quo_ℤ}
use yield_forge.Base.Int64.{
  mul64-pos, add64-pos, quo64-pos, neg64-pos, neg64-negsuc, wrap64, InInt64, neg64,
}
use yield_forge.Money.HalfUp.{IsHalfUp, div-IsHalfUp}
use yield_forge.Money.Ratio.{share_bps_fuel, share_bps, accrue_simple_interest, apply_bps}

-- The range in which ShareBps stays within an int64.
pub record FitsShare (p w : ℕ) : Type 0 where
  pub whole_pos : 0 < w
  pub sum_fits : 20000 * p + w < 2 ^ 63
  pub double_fits : 2 * w < 2 ^ 63

pub share_bps-pos :
    (p w : ℕ) → FitsShare p w → share_bps (pos p) (pos w) ≡ pos ((2 * (p * 10000) + w) / (2 * w))
unfolding share_bps
share_bps-pos p w f = ground (
  arith,
  f.whole_pos,
  f.sum_fits,
  f.double_fits,
  mul64-pos 2 p,
  mul64-pos (2 * p) 10000,
  add64-pos (2 * p * 10000) w,
  mul64-pos 2 w,
  quo64-pos (2 * p * 10000 + w) (2 * w),
)

neg64_zero : neg64 (pos 0) ≡ pos 0
unfolding neg64
neg64_zero = refl

suc-sub-one : (n : ℕ) → suc n - 1 ≡ n
suc-sub-one n = omega arith

share_bps-negsuc :
    (n w : ℕ)
    → n + 1 < 2 ^ 63
    → 0 < w
    → share_bps (negsuc n) (pos w) ≡ neg64 (share_bps (pos (suc n)) (pos w))
unfolding share_bps
share_bps-negsuc n w h k = rw (neg64-negsuc n h, add-one) (ground arith)

share_bps-neg64 :
    (p w : ℕ)
    → FitsShare p w
    → share_bps (neg64 (pos p)) (pos w) ≡ neg64 (share_bps (pos p) (pos w))
share_bps-neg64 zero w f =
    let nothing : (2 * (0 * 10000) + w) / (2 * w) ≡ 0 = grind (arith, f.whole_pos) in
    rw (neg64_zero, share_bps-pos 0 w f, nothing, neg64_zero)
share_bps-neg64 (suc n) w f =
    rw (neg64-pos (suc n) (omega arith) (omega (arith, f.sum_fits)), suc-sub-one)
      (share_bps-negsuc n w (omega (arith, f.sum_fits)) f.whole_pos)

-- For a positive whole w with 20000 * p + w and 2 * w below 2^63, the share of p in w in basis
-- points is p * 10000 / w rounded half-up, and the share of -p is its negation.
pub share_bps-IsHalfUp :
    (p w : ℕ)
    → FitsShare p w
    → (q : ℕ) × (share_bps (pos p) (pos w) ≡ pos q)
      × IsHalfUp (p * 10000) w q
      × (share_bps (neg64 (pos p)) (pos w) ≡ neg64 (pos q))
share_bps-IsHalfUp p w f = (
  (2 * (p * 10000) + w) / (2 * w),
  share_bps-pos p w f,
  div-IsHalfUp (p * 10000) w f.whole_pos,
  share_bps-neg64 p w f ∙ ap neg64 (share_bps-pos p w f),
)

-- The one int64 whose negation is itself.
abbrev pub min_int64 : ℤ
min_int64 = negsuc (2 ^ 63 - 1)

neg64-min_int64 : neg64 min_int64 ≡ min_int64
unfolding neg64
neg64-min_int64 = refl

-- On every int64 but the least, with any whole, two calls are enough: with that much fuel or more
-- the code returns its share.
pub share_bps_fuel-total :
    (f : ℕ) (part whole : ℤ)
    → InInt64 part
    → part ≢ min_int64
    → share_bps_fuel (suc (suc f)) part whole ≡ some (share_bps part whole)
unfolding share_bps
share_bps_fuel-total f (pos n) whole h ne = ground arith
share_bps_fuel-total f (negsuc n) whole h ne =
    let inside : n ≢ 2 ^ 63 - 1 = λ e. ne (ap negsuc e) in
    rw (neg64-negsuc n (omega arith), add-one) (ground arith)

-- On the least int64 and a positive whole no amount of fuel is enough.
pub share_bps_fuel-min_int64 : (f w : ℕ) → 0 < w → share_bps_fuel f min_int64 (pos w) ≡ none
unfolding share_bps_fuel
share_bps_fuel-min_int64 zero w h = refl
share_bps_fuel-min_int64 (suc f) w h = ground (arith, share_bps_fuel-min_int64 f w, neg64-min_int64)

pub apply_bps-pos :
    (a b : ℕ)
    → (2 * (a * b) + 10000) / 20000 < 2 ^ 63
    → apply_bps (pos a) (pos b) ≡ pos ((2 * (a * b) + 10000) / 20000)
unfolding apply_bps wrap64 quo_ℤ ◌*ℤ◌ ◌+ℤ◌
apply_bps-pos a b h = ground arith

-- For an amount and basis points that are not negative, amount * bps / 10000 rounded half-up, where
-- the result is below 2^63.
pub apply_bps-IsHalfUp :
    (a b : ℕ)
    → (2 * (a * b) + 10000) / 20000 < 2 ^ 63
    → (q : ℕ) × (apply_bps (pos a) (pos b) ≡ pos q) × IsHalfUp (a * b) 10000 q
apply_bps-IsHalfUp a b h =
    ((2 * (a * b) + 10000) / 20000, apply_bps-pos a b h, div-IsHalfUp (a * b) 10000 (omega arith))

pub accrue_simple_interest-pos :
    (p r d : ℕ)
    → (2 * (p * r * d) + 3650000) / 7300000 < 2 ^ 63
    → accrue_simple_interest (pos p) (pos r) (pos d) ≡ pos ((2 * (p * r * d) + 3650000) / 7300000)
unfolding accrue_simple_interest wrap64 quo_ℤ ◌*ℤ◌ ◌+ℤ◌
accrue_simple_interest-pos p r d h = ground arith

-- For a principal, a rate and days that are not negative the interest is principal * rate * days /
-- 3650000 rounded half-up, where the result is below 2^63.
pub accrue_simple_interest-IsHalfUp :
    (p r d : ℕ)
    → (2 * (p * r * d) + 3650000) / 7300000 < 2 ^ 63
    → (q : ℕ) × (accrue_simple_interest (pos p) (pos r) (pos d) ≡ pos q)
      × IsHalfUp (p * r * d) 3650000 q
accrue_simple_interest-IsHalfUp p r d h = (
  (2 * (p * r * d) + 3650000) / 7300000,
  accrue_simple_interest-pos p r d h,
  div-IsHalfUp (p * r * d) 3650000 (omega arith),
)
