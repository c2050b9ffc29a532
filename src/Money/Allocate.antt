-- ===== src/Money/Allocate.antt =====
-- internal/platform/money/ratio.go, AllocateBps: 10000 basis points over weights, by the
-- method of the largest remainder.
pub mod Reference
pub mod Bumps
pub mod Quota
pub mod Refine
pub mod Shares
use yield_forge.Base.{ℕ, zero, suc, List, [], ◌∷◌, length, replicate, if◌then◌else◌}
use yield_forge.Base.Int.{ℤ, pos, ltb_ℤ, leb_ℤ}
use yield_forge.Base.Int64.{add64, sub64, mul64, quo64, rem64}

-- The local type `rem`.
pub record Remainder : Type 0 where
  pub idx : ℕ
  pub r : ℤ

-- The first loop: the sum of the positive weights.
unfoldable pub positive_total : ℤ → List ℤ → ℤ
positive_total total [] = total
positive_total total (w ∷ ws) = positive_total (if ltb_ℤ (pos 0) w then add64 total w else total) ws

-- The second loop, one function for each variable that it fills. `continue` leaves the zero that
-- `make` wrote.
unfoldable pub base_share : ℤ → ℤ → ℤ
base_share total w = if leb_ℤ w (pos 0) then pos 0 else quo64 (mul64 w (pos 10000)) total

unfoldable pub remainder : ℤ → ℤ → ℤ
remainder total w = if leb_ℤ w (pos 0) then pos 0 else rem64 (mul64 w (pos 10000)) total

unfoldable pub base_shares : ℤ → List ℤ → List ℤ
unfolding base_share
base_shares total [] = []
base_shares total (w ∷ ws) = base_share total w ∷ base_shares total ws

unfoldable pub remainders : ℤ → ℕ → List ℤ → List Remainder
unfolding remainder
remainders total i [] = []
remainders total i (w ∷ ws) =
    record { idx = i; r = remainder total w } ∷ remainders total (suc i) ws

unfoldable pub distribute : ℤ → ℤ → List ℤ → ℤ
unfolding base_share
distribute total distributed [] = distributed
distribute total distributed (w ∷ ws) =
    distribute total
      (if leb_ℤ w (pos 0) then distributed else add64 distributed (base_share total w)) ws

-- `sort.SliceStable` by descending remainder: an insertion sort that keeps equal entries in order.
unfoldable pub insert_remainder : Remainder → List Remainder → List Remainder
insert_remainder x [] = x ∷ []
insert_remainder x (y ∷ ys) = if ltb_ℤ x.r y.r then y ∷ insert_remainder x ys else x ∷ y ∷ ys

unfoldable pub sort_remainders : List Remainder → List Remainder
unfolding insert_remainder
sort_remainders [] = []
sort_remainders (x ∷ xs) = insert_remainder x (sort_remainders xs)

-- `shares[i]++`.
unfoldable pub increment : ℕ → List ℤ → List ℤ
increment i [] = []
increment zero (s ∷ ss) = add64 s (pos 1) ∷ ss
increment (suc i) (s ∷ ss) = s ∷ increment i ss

-- The last loop, from round k on.
unfoldable pub hand_out : ℕ → ℤ → List Remainder → List ℤ → List ℤ
unfolding increment
hand_out k leftover [] shares = shares
hand_out k leftover (x ∷ rems) shares =
    if ltb_ℤ (pos k) leftover
    then hand_out (suc k) leftover rems (increment x.idx shares)
    else shares

unfoldable pub allocate_bps : List ℤ → List ℤ
unfolding positive_total base_shares remainders distribute sort_remainders hand_out
allocate_bps weights =
    let total = positive_total (pos 0) weights in
    if leb_ℤ total (pos 0)
    then replicate (length weights) (pos 0)
    else let leftover = sub64 (pos 10000) (distribute total (pos 0) weights) in
      hand_out 0 leftover (sort_remainders (remainders total 0 weights)) (base_shares total weights)
