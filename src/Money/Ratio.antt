-- ===== src/Money/Ratio.antt =====
-- internal/platform/money/ratio.go: shares in basis points, interest, weighted means.
pub mod Rounding
pub mod Mean
use mathlib.Core.Option
use yield_forge.Base.{ℕ, zero, suc, ◌*◌, ◌||◌, Option, none, some, List, [], ◌∷◌, if◌then◌else◌}
use yield_forge.Base.Int.{ℤ, pos, ◌+ℤ◌, ◌*ℤ◌, quo_ℤ, ltb_ℤ, leb_ℤ}
use yield_forge.Base.Int64.{add64, mul64, neg64, quo64, wrap64}

-- `ShareBps` calls itself on `-part`. On the least int64, whose negation wraps to itself, that
-- never ends: `none` is a call that has not returned within the fuel.
unfoldable pub share_bps_fuel : ℕ → ℤ → ℤ → Option ℤ
share_bps_fuel zero part whole = none
share_bps_fuel (suc f) part whole =
    let rest = share_bps_fuel f (neg64 part) whole in
    if leb_ℤ whole (pos 0)
    then some (pos 0)
    else if ltb_ℤ part (pos 0)
    then Option.map neg64 rest
    else some (quo64 (add64 (mul64 (mul64 (pos 2) part) (pos 10000)) whole) (mul64 (pos 2) whole))

-- Two calls are enough for every other part.
unfoldable pub share_bps : ℤ → ℤ → ℤ
unfolding share_bps_fuel
share_bps part whole = Option.get_or (share_bps_fuel 2 part whole) (pos 0)

-- The products of `big.Int` are exact; `Int64` keeps the low 64 bits.
unfoldable pub accrue_simple_interest : ℤ → ℤ → ℤ → ℤ
accrue_simple_interest principal_centavos rate_bps elapsed_days =
    if leb_ℤ principal_centavos (pos 0) || leb_ℤ rate_bps (pos 0) || leb_ℤ elapsed_days (pos 0)
    then pos 0
    else let num = principal_centavos *ℤ rate_bps *ℤ elapsed_days in
      let den = pos (10000 * 365) in wrap64 (quo_ℤ (pos 2 *ℤ num +ℤ den) (pos 2 *ℤ den))

-- The loop of `WeightedMeanBps`: it ends with the shorter list.
unfoldable pub weighted_sum : ℤ → List ℤ → List ℤ → ℤ
weighted_sum num [] ws = num
weighted_sum num (v ∷ vs) [] = num
weighted_sum num (v ∷ vs) (w ∷ ws) = weighted_sum (add64 num (mul64 v w)) vs ws

unfoldable pub weighted_mean_bps : List ℤ → List ℤ → ℤ
weighted_mean_bps values weights_bps =
    let num = weighted_sum (pos 0) values weights_bps in
    if leb_ℤ num (pos 0) then pos 0 else quo64 (add64 (mul64 (pos 2) num) (pos 10000)) (pos 20000)

unfoldable pub apply_bps : ℤ → ℤ → ℤ
apply_bps amount bps =
    if leb_ℤ amount (pos 0) || leb_ℤ bps (pos 0)
    then pos 0
    else let num = amount *ℤ bps in
      let den = pos 10000 in wrap64 (quo_ℤ (pos 2 *ℤ num +ℤ den) (pos 2 *ℤ den))
