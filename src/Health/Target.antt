-- ===== src/Health/Target.antt =====
-- compute.go: the market-aware target share of the real-estate funds.
use yield_forge.Base.{ℕ, ◌+◌, ◌/◌, ◌-◌, ◌^◌, ◌≤◌, ◌<◌, ◌≡◌, true, ◌&&◌, arith, ltb, if◌then◌else◌}
use yield_forge.Base.Int.{pos, ltb_ℤ}
use yield_forge.Base.Int64.{sub64, quo64, sub64-pos, quo64-pos}
use yield_forge.Profile.Values.{RiskProfile, conservative, moderate, aggressive, unset}
use yield_forge.Health.Compute.{clamp, max_int, target_fii_share_bps}

-- The profile's share, as a number.
abbrev pub profile_share : RiskProfile → ℕ
profile_share conservative = 3000
profile_share moderate = 5000
profile_share aggressive = 7000
profile_share unset = 5000

-- By how much a policy rate of n basis points shifts the target.
abbrev pub tilt : ℕ → ℕ
tilt n = if ltb 3000 n then 1000 else (n - 1000) / 2

-- The shift as the code computes it.
above_neutral :
    (n : ℕ)
    → n < 2 ^ 63
    → (if true && ltb_ℤ (pos 1000) (pos n)
        then clamp (quo64 (sub64 (pos n) (pos 1000)) (pos 2)) (pos 0) (pos 1000)
        else pos 0)
      ≡ pos (tilt n)
unfolding clamp
above_neutral n h = ground (arith, sub64-pos n 1000, quo64-pos (n - 1000) 2)

shifted : (b t : ℕ) → t ≤ b → b < 2 ^ 63 → max_int (pos 0) (sub64 (pos b) (pos t)) ≡ pos (b - t)
unfolding max_int
shifted b t h l = ground (arith, sub64-pos b t)

target_lem :
    (r : RiskProfile) (n : ℕ)
    → n < 2 ^ 63
    → target_fii_share_bps r (pos n) true ≡ pos (profile_share r - tilt n)
unfolding target_fii_share_bps
target_lem conservative n h =
    rw (above_neutral n h) (shifted 3000 (tilt n) (ground arith) (omega arith))
target_lem moderate n h =
    rw (above_neutral n h) (shifted 5000 (tilt n) (ground arith) (omega arith))
target_lem aggressive n h =
    rw (above_neutral n h) (shifted 7000 (tilt n) (ground arith) (omega arith))
target_lem unset n h = rw (above_neutral n h) (shifted 5000 (tilt n) (ground arith) (omega arith))

-- A policy rate that is present, not negative and below 2^63 never raises the target above the profile's share, lowers it by at most 1000
-- basis points, and a higher rate never gives a higher target.
pub target_fii_share_bps-band :
    (r : RiskProfile) (m n : ℕ)
    → m ≤ n
    → n < 2 ^ 63
    → (a : ℕ) × (b : ℕ) × (target_fii_share_bps r (pos m) true ≡ pos a)
      × (target_fii_share_bps r (pos n) true ≡ pos b)
      × (b ≤ a)
      × (a ≤ profile_share r)
      × (profile_share r ≤ b + 1000)
target_fii_share_bps-band r m n le h = (
  profile_share r - tilt m,
  profile_share r - tilt n,
  target_lem r m (omega arith),
  target_lem r n h,
  ground arith,
  omega arith,
  ground arith,
)
