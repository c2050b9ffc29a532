-- ===== src/Rebalancing/Illustrative.antt =====
-- internal/rebalancing/engine.go, assignIllustrativeShares.
use yield_forge.Base.{
  ℕ, zero, suc, ◌+◌, ◌*◌, ◌/◌, ◌-◌, ◌^◌, ◌≤◌, ◌<◌, ◌≡◌, refl, List, [], ◌∷◌, map, sum, All, arith,
  ltb, if◌then◌else◌,
}
use yield_forge.Base.Int.{pos}
use yield_forge.Base.Int64.{add64-pos, sub64-pos, mul64-pos, quo64-pos}
use yield_forge.Rebalancing.Split.{illustrative_from, assign_illustrative_shares}

-- The shares as numbers.
counts : ℕ → ℕ → ℕ → ℕ → List ℕ
counts b r i zero = []
counts b r i (suc n) = (if ltb i r then b + 1 else b) ∷ counts b r (i + 1) n

illustrative_from-counts :
    (b r i n : ℕ)
    → b + 1 < 2 ^ 63
    → i + n < 2 ^ 63
    → illustrative_from (pos b) (pos r) (pos i) n ≡ map pos (counts b r i n)
unfolding illustrative_from counts
illustrative_from-counts b r i zero h l = refl
illustrative_from-counts b r i (suc n) h l =
    ground (arith, add64-pos i 1, add64-pos b 1, illustrative_from-counts b r (i + 1) n)

sum-counts : (b r i n : ℕ) → r ≤ i + n → sum (counts b r i n) ≡ n * b + (r - i)
unfolding counts
sum-counts b r i zero h = omega arith
sum-counts b r i (suc n) h = ground (arith, sum-counts b r (i + 1) n)

near-counts : (b r i n : ℕ) → All (λ s. (b ≤ s) × (s ≤ b + 1)) (counts b r i n)
unfolding counts
near-counts b r i zero = tt
near-counts b r i (suc n) = (ground arith, near-counts b r (i + 1) n)

-- A positive share of a basis points is divided over n candidates, one at least and a + n below 2^62,
-- without a rest: the shares sum to a, and each is a / n or one more.
pub sum-assign_illustrative_shares :
    (n a : ℕ)
    → 0 < n
    → 0 < a
    → a + n < 2 ^ 62
    → (ss : List ℕ) × (assign_illustrative_shares n (pos a) ≡ map pos ss)
      × (sum ss ≡ a)
      × All (λ s. (a / n ≤ s) × (s ≤ a / n + 1)) ss
unfolding assign_illustrative_shares
sum-assign_illustrative_shares n a p q h =
    let part : a / n * n ≤ a = grind arith in
    let rest : a < a / n * n + n = grind arith in
    let all : illustrative_from (pos (a / n)) (pos (a - a / n * n)) (pos 0) n
        ≡ map pos (counts (a / n) (a - a / n * n) 0 n) =
      illustrative_from-counts (a / n) (a - a / n * n) 0 n (grind arith) (omega arith) in
    (
      counts (a / n) (a - a / n * n) 0 n,
      rw
          (
            quo64-pos a n (omega arith),
            mul64-pos (a / n) n (omega arith),
            sub64-pos a (a / n * n) part (omega arith),
          )
          (ground (arith, all)),
      omega (arith, sum-counts (a / n) (a - a / n * n) 0 n (omega arith)),
      near-counts (a / n) (a - a / n * n) 0 n,
    )
