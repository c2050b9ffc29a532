-- ===== src/Money/Allocate/Quota.antt =====
-- How the largest-remainder method rounds a share.
use native.Mathlib.Nat.{mod-lt, div-add-mod}
use native.Mathlib.Decide.{dec_lt}
use yield_forge.Base.{
  ℕ, zero, suc, ◌+◌, ◌-◌, ◌*◌, ◌/◌, ◌%◌, ◌≤◌, ◌<◌, ◌≡◌, refl, List, [], ◌∷◌, length, sum, All,
  arith, ap, get_or, take,
}
use yield_forge.Money.Allocate.Reference.{
  Rest, quotas, rests, insert_rest, sort_rests, largest_remainder, sum_rests, quotas-add-rests,
  leftover_le, length-quotas, sort_rests-All,
}
use yield_forge.Money.Allocate.Bumps.{
  bumps, get_or-bump_first, bumps-sort_rests, bumps-rests, bumps-take, AtMost, Descending,
  All-AtMost, sort_rests-Descending, pos_bumps, pos_bumps-sort_rests, pos_bumps-rests,
  pos_bumps-take, Under, IsPos,
}

sum_rests_zero : (xs : List Rest) → All (AtMost 0) xs → sum_rests xs ≡ 0
unfolding sum_rests
sum_rests_zero [] a = refl
sum_rests_zero (x ∷ xs) a = omega (arith, a.0, sum_rests_zero xs a.1)

All-AtMost_zero : (x : Rest) (xs : List Rest) → x.r ≡ 0 → All (AtMost x.r) xs → All (AtMost 0) xs
All-AtMost_zero x xs e a = All-AtMost x.r 0 xs (omega arith) a

-- The first k of the sorted remainders, where these sum to k totals at least, are not zero.
take-IsPos :
    (k t : ℕ) (xs : List Rest)
    → 0 < t
    → Descending xs
    → All (Under t) xs
    → t * k ≤ sum_rests xs
    → All IsPos (take k xs)
unfolding sum_rests
take-IsPos zero t xs p d u h = tt
take-IsPos (suc k) t [] p d u h = tt
take-IsPos (suc k) t (x ∷ xs) p d u h = elim (dec_lt 0 x.r) [
  | yes lt ↦ (lt, take-IsPos k t xs p d.1 u.1 (omega (arith, u.0)))
  | no ge ↦
      let none_left = sum_rests_zero xs (All-AtMost_zero x xs (omega arith) d.0) in
      let room : t * 1 ≤ t * suc k = omega arith in absurd (omega (arith, none_left, room, h))
]

bumps-IsPos : (i : ℕ) (xs : List Rest) → All IsPos xs → bumps i xs ≡ pos_bumps i xs
unfolding bumps pos_bumps
bumps-IsPos i [] a = refl
bumps-IsPos i (x ∷ xs) a = ground (arith, bumps-IsPos i xs a.1)

insert_rest-Under :
    (t : ℕ) (x : Rest) (xs : List Rest)
    → x.r < t
    → All (Under t) xs
    → All (Under t) (insert_rest x xs)
unfolding insert_rest
insert_rest-Under t x [] h k = (h, tt)
insert_rest-Under t x (y ∷ ys) h k = ground (arith, insert_rest-Under t x ys h k.1)

sort_rests-Under : (t i : ℕ) (ns : List ℕ) → 0 < t → All (Under t) (sort_rests (rests t i ns))
unfolding sort_rests rests
sort_rests-Under t i [] p = tt
sort_rests-Under t i (n ∷ ns) p =
    insert_rest-Under t _ (sort_rests (rests t (suc i) ns)) (mod-lt (n * 10000) p)
      (sort_rests-Under t (suc i) ns p)

sum_rests-insert_rest :
    (x : Rest) (xs : List Rest) → sum_rests (insert_rest x xs) ≡ x.r + sum_rests xs
unfolding insert_rest sum_rests
sum_rests-insert_rest x [] = refl
sum_rests-insert_rest x (y ∷ ys) = ground (arith, sum_rests-insert_rest x ys)

sum_rests-sort_rests : (xs : List Rest) → sum_rests (sort_rests xs) ≡ sum_rests xs
unfolding sort_rests sum_rests
sum_rests-sort_rests [] = refl
sum_rests-sort_rests (x ∷ xs) =
    omega (arith, sum_rests-insert_rest x (sort_rests xs), sum_rests-sort_rests xs)

get_or-quotas : (i t : ℕ) (ns : List ℕ) → get_or (quotas t ns) i 0 ≡ get_or ns i 0 * 10000 / t
unfolding quotas
get_or-quotas i t [] = omega arith
get_or-quotas zero t (n ∷ ns) = refl
get_or-quotas (suc i) t (n ∷ ns) = get_or-quotas i t ns

-- What index i is given beyond its quota: one point at most, and none if its remainder is zero.
extra : ℕ → List ℕ → ℕ
extra i ns =
    let t = sum ns in bumps i (take (10000 - sum (quotas t ns)) (sort_rests (rests t 0 ns)))

extra-le : (i : ℕ) (ns : List ℕ) → extra i ns ≤ 1
unfolding extra
extra-le i ns =
    let t = sum ns in
    omega (
      arith,
      bumps-take i (10000 - sum (quotas t ns)) (sort_rests (rests t 0 ns)),
      bumps-sort_rests i 0 t ns,
      bumps-rests i 0 t ns,
    )

extra_zero :
    (i : ℕ) (ns : List ℕ) → 0 < sum ns → get_or ns i 0 * 10000 % sum ns ≡ 0 → extra i ns ≡ 0
unfolding extra
extra_zero i ns p e =
    let t = sum ns in
    let k = 10000 - sum (quotas t ns) in
    let sorted = sort_rests (rests t 0 ns) in
    let whole : sum (quotas t ns) + k ≡ 10000 = omega (arith, (leftover_le ns p).0) in
    let left : t * k ≤ sum_rests sorted = omega (
      arith,
      ap (λ (x : ℕ). t * x) whole,
      quotas-add-rests t 0 ns p,
      sum_rests-sort_rests (rests t 0 ns),
    ) in
    omega (
      arith,
      bumps-IsPos i (take k sorted) (
          take-IsPos k t sorted p (sort_rests-Descending (rests t 0 ns)) (sort_rests-Under t 0 ns p)
            left),
      pos_bumps-take i k sorted,
      pos_bumps-sort_rests i 0 t ns,
      pos_bumps-rests i i 0 t ns (omega arith) e,
    )

get_or-largest_remainder :
    (i : ℕ) (ns : List ℕ)
    → get_or (largest_remainder ns) i 0 ≡ get_or ns i 0 * 10000 / sum ns + extra i ns
unfolding largest_remainder extra
get_or-largest_remainder i ns =
    let t = sum ns in
    omega (
      arith,
      get_or-bump_first i (10000 - sum (quotas t ns)) (length ns) (sort_rests (rests t 0 ns))
          (quotas t ns) (length-quotas t ns) (sort_rests-All t 0 (length ns) ns (omega arith)),
      get_or-quotas i t ns,
    )

round_up_or_down :
    (t m s x : ℕ)
    → 0 < t
    → x ≤ 1
    → (m % t ≡ 0 → x ≡ 0)
    → s ≡ m / t + x
    → (s * t < m + t) × (m < s * t + t)
round_up_or_down t m s zero p le none_over e =
    let product = ap (λ (y : ℕ). y * t) e in
    (
      omega (arith, product, div-add-mod m t, mod-lt m p),
      omega (arith, product, div-add-mod m t, mod-lt m p),
    )
round_up_or_down t m s (suc zero) p le none_over e = elim (dec_lt 0 (m % t)) [
  | yes over ↦
      let product = ap (λ (y : ℕ). y * t) e in
      (
        omega (arith, product, div-add-mod m t, over),
        omega (arith, product, div-add-mod m t, mod-lt m p),
      )
  | no whole ↦ absurd (omega (arith, none_over (omega arith)))
]
round_up_or_down t m s (suc (suc x)) p le none_over e = absurd (omega arith)

pub quota_rule :
    (i : ℕ) (ns : List ℕ)
    → 0 < sum ns
    → (get_or (largest_remainder ns) i 0 * sum ns < get_or ns i 0 * 10000 + sum ns)
      × (get_or ns i 0 * 10000 < get_or (largest_remainder ns) i 0 * sum ns + sum ns)
quota_rule i ns p =
    round_up_or_down (sum ns) (get_or ns i 0 * 10000) (get_or (largest_remainder ns) i 0)
      (extra i ns) p (extra-le i ns) (extra_zero i ns p) (get_or-largest_remainder i ns)
