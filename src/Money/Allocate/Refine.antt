-- ===== src/Money/Allocate/Refine.antt =====
-- internal/platform/money/ratio.go: AllocateBps on int64 and the largest-remainder method on numbers.
use native.Mathlib.Decide.{dec_lt}
use yield_forge.Base.{
  ℕ, zero, suc, ◌+◌, ◌-◌, ◌*◌, ◌/◌, ◌%◌, ◌^◌, ◌≤◌, ◌<◌, ◌≡◌, refl, List, [], ◌∷◌, length, sum,
  arith, ◌∙◌, ap, map,
}
use yield_forge.Base.Int.{ℤ, pos, negsuc, pos_part}
use yield_forge.Base.Int64.{add64-pos, sub64-pos, mul64-pos, quo64-pos, rem64-pos}
use yield_forge.Money.Allocate.Reference.{
  Rest, quotas, rests, insert_rest, sort_rests, bump, bump_first, largest_remainder, leftover_le,
  length-sort_rests,
}
use yield_forge.Money.Allocate.{
  Remainder, positive_total, base_share, remainder, base_shares, remainders, distribute,
  insert_remainder, sort_remainders, increment, hand_out, allocate_bps,
}

abbrev pub positives : List ℤ → List ℕ
positives [] = []
positives (w ∷ ws) = pos_part w ∷ positives ws

pub length-positives : (ws : List ℤ) → length (positives ws) ≡ length ws
length-positives [] = refl
length-positives (w ∷ ws) = omega (arith, length-positives ws)

embed : Rest → Remainder
embed x = record { idx = x.idx; r = pos x.r }

positive_total_lem :
    (a : ℕ) (ws : List ℤ)
    → a + sum (positives ws) < 2 ^ 63
    → positive_total (pos a) ws ≡ pos (a + sum (positives ws))
unfolding positive_total
positive_total_lem a [] h = ground arith
positive_total_lem a (pos zero ∷ ws) h = ground (arith, positive_total_lem a ws)
positive_total_lem a (pos (suc n) ∷ ws) h =
    ground (arith, add64-pos a (suc n), positive_total_lem (a + suc n) ws)
positive_total_lem a (negsuc n ∷ ws) h = ground (arith, positive_total_lem a ws)

base_share_lem :
    (t : ℕ) (w : ℤ)
    → pos_part w * 10000 < 2 ^ 63
    → base_share (pos t) w ≡ pos (pos_part w * 10000 / t)
unfolding base_share
base_share_lem t (pos n) h = ground (arith, mul64-pos n 10000, quo64-pos (n * 10000) t)
base_share_lem t (negsuc n) h = ground arith

remainder_lem :
    (t : ℕ) (w : ℤ)
    → 0 < t
    → pos_part w * 10000 < 2 ^ 63
    → remainder (pos t) w ≡ pos (pos_part w * 10000 % t)
unfolding remainder
remainder_lem t (pos n) p h = ground (arith, mul64-pos n 10000, rem64-pos (n * 10000) t)
remainder_lem t (negsuc n) p h = ground arith

base_shares_lem :
    (t : ℕ) (ws : List ℤ)
    → sum (positives ws) * 10000 < 2 ^ 63
    → base_shares (pos t) ws ≡ map pos (quotas t (positives ws))
unfolding base_shares quotas
base_shares_lem t [] h = refl
base_shares_lem t (w ∷ ws) h =
    cc (base_share_lem t w (omega arith), base_shares_lem t ws (omega arith))

remainders_lem :
    (t i : ℕ) (ws : List ℤ)
    → 0 < t
    → sum (positives ws) * 10000 < 2 ^ 63
    → remainders (pos t) i ws ≡ map embed (rests t i (positives ws))
unfolding remainders rests embed
remainders_lem t i [] p h = refl
remainders_lem t i (w ∷ ws) p h =
    cc (remainder_lem t w p (omega arith), remainders_lem t (suc i) ws p (omega arith))

distribute_lem :
    (t a : ℕ) (ws : List ℤ)
    → sum (positives ws) * 10000 < 2 ^ 63
    → a + sum (quotas t (positives ws)) < 2 ^ 63
    → distribute (pos t) (pos a) ws ≡ pos (a + sum (quotas t (positives ws)))
unfolding distribute quotas
distribute_lem t a [] h k = ground arith
distribute_lem t a (pos zero ∷ ws) h k = ground (arith, distribute_lem t a ws)
distribute_lem t a (pos (suc n) ∷ ws) h k = ground (
  arith,
  base_share_lem t (pos (suc n)),
  add64-pos a (suc n * 10000 / t),
  distribute_lem t (a + suc n * 10000 / t) ws,
)
distribute_lem t a (negsuc n ∷ ws) h k = ground (arith, distribute_lem t a ws)

insert_remainder_lem :
    (x : Rest) (xs : List Rest)
    → insert_remainder (embed x) (map embed xs) ≡ map embed (insert_rest x xs)
unfolding insert_remainder insert_rest embed
insert_remainder_lem x [] = refl
insert_remainder_lem x (y ∷ ys) = ground (arith, insert_remainder_lem x ys)

sort_remainders_lem : (xs : List Rest) → sort_remainders (map embed xs) ≡ map embed (sort_rests xs)
unfolding sort_remainders sort_rests
sort_remainders_lem [] = refl
sort_remainders_lem (x ∷ xs) = rw (sort_remainders_lem xs) (insert_remainder_lem x (sort_rests xs))

increment_lem :
    (i : ℕ) (ss : List ℕ) → suc (sum ss) < 2 ^ 63 → increment i (map pos ss) ≡ map pos (bump i ss)
unfolding increment bump
increment_lem i [] a = refl
increment_lem zero (s ∷ ss) a = ground (arith, add64-pos s 1)
increment_lem (suc i) (s ∷ ss) a = cc (increment_lem i ss (omega arith))

sum-bump-le : (i : ℕ) (ss : List ℕ) → sum (bump i ss) ≤ suc (sum ss)
unfolding bump
sum-bump-le i [] = omega arith
sum-bump-le zero (s ∷ ss) = omega arith
sum-bump-le (suc i) (s ∷ ss) = omega (arith, sum-bump-le i ss)

bump_first-nil : (k : ℕ) (ss : List ℕ) → bump_first k [] ss ≡ ss
unfolding bump_first
bump_first-nil zero ss = refl
bump_first-nil (suc k) ss = refl

hand_out_lem :
    (k l : ℕ) (rs : List Rest) (ss : List ℕ)
    → sum ss + length rs < 2 ^ 63
    → hand_out k (pos l) (map embed rs) (map pos ss) ≡ map pos (bump_first (l - k) rs ss)
unfolding hand_out bump_first embed
hand_out_lem k l [] ss h = rw (bump_first-nil (l - k) ss)
hand_out_lem k l (x ∷ rs) ss h = elim (dec_lt k l) [
  | yes lt ↦
      let e : l - k ≡ suc (l - suc k) = omega arith in
      rw e (
        ground (
          arith,
          increment_lem x.idx ss,
          sum-bump-le x.idx ss,
          hand_out_lem (suc k) l rs (bump x.idx ss),
        ))
  | no ge ↦ let e : l - k ≡ 0 = omega arith in rw e (ground arith)
]

-- For fewer than 2^62 weights, whose positive ones have a positive sum below 2^63 / 10000, the shares
-- are those of the largest-remainder method on exact numbers, a negative weight counting as zero.
pub allocate_bps_refines :
    (ws : List ℤ)
    → 0 < sum (positives ws)
    → sum (positives ws) * 10000 < 2 ^ 63
    → length ws < 2 ^ 62
    → allocate_bps ws ≡ map pos (largest_remainder (positives ws))
unfolding allocate_bps largest_remainder
allocate_bps_refines ws p h l =
    let ns = positives ws in
    let t = sum ns in
    let fits = leftover_le ns p in
    let total : positive_total (pos 0) ws ≡ pos t =
      positive_total_lem 0 ws (omega arith) ∙ ap pos (omega arith) in
    let given : distribute (pos t) (pos 0) ws ≡ pos (sum (quotas t ns)) =
      distribute_lem t 0 ws h (omega (arith, fits.0)) ∙ ap pos (omega arith) in
    rw
      (
        total,
        base_shares_lem t ws h,
        remainders_lem t 0 ws p h,
        sort_remainders_lem (rests t 0 ns),
        given,
        sub64-pos 10000 (sum (quotas t ns)) fits.0 (omega arith),
      )
      (ground (
        arith,
        hand_out_lem 0 (10000 - sum (quotas t ns)) (sort_rests (rests t 0 ns)) (quotas t ns),
        length-sort_rests t 0 ns,
        length-positives ws,
      ))
