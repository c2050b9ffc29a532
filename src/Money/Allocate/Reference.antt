-- ===== src/Money/Allocate/Reference.antt =====
-- The method of the largest remainder over exact numbers: what `AllocateBps` computes when nothing
-- overflows. Every total is shared out to the last point.
use native.Mathlib.Nat.{mod-lt, div-add-mod}
use native.Mathlib.Decide.{dec_lt}
use yield_forge.Base.{
  ℕ, zero, suc, ◌+◌, ◌-◌, ◌*◌, ◌/◌, ◌%◌, ◌≤◌, ◌<◌, ◌≡◌, refl, List, [], ◌∷◌, length, sum, ltb, All,
  arith, if◌then◌else◌, ◌∙◌, ap,
}

pub record Rest : Type 0 where
  pub idx : ℕ
  pub r : ℕ

unfoldable pub quotas : ℕ → List ℕ → List ℕ
quotas t [] = []
quotas t (n ∷ ns) = n * 10000 / t ∷ quotas t ns

unfoldable pub rests : ℕ → ℕ → List ℕ → List Rest
rests t i [] = []
rests t i (n ∷ ns) = record { idx = i; r = n * 10000 % t } ∷ rests t (suc i) ns

unfoldable pub insert_rest : Rest → List Rest → List Rest
insert_rest x [] = x ∷ []
insert_rest x (y ∷ ys) = if ltb x.r y.r then y ∷ insert_rest x ys else x ∷ y ∷ ys

unfoldable pub sort_rests : List Rest → List Rest
sort_rests [] = []
sort_rests (x ∷ xs) = insert_rest x (sort_rests xs)

unfoldable pub bump : ℕ → List ℕ → List ℕ
bump i [] = []
bump zero (s ∷ ss) = suc s ∷ ss
bump (suc i) (s ∷ ss) = s ∷ bump i ss

unfoldable pub bump_first : ℕ → List Rest → List ℕ → List ℕ
bump_first zero rs ss = ss
bump_first (suc k) [] ss = ss
bump_first (suc k) (x ∷ rs) ss = bump_first k rs (bump x.idx ss)

unfoldable pub largest_remainder : List ℕ → List ℕ
largest_remainder ns =
    let t = sum ns in
    bump_first (10000 - sum (quotas t ns)) (sort_rests (rests t 0 ns)) (quotas t ns)

unfoldable pub sum_rests : List Rest → ℕ
sum_rests [] = 0
sum_rests (x ∷ xs) = x.r + sum_rests xs

-- The quotas and what they leave over make up the whole.
pub quotas-add-rests :
    (t i : ℕ) (ns : List ℕ)
    → 0 < t
    → t * sum (quotas t ns) + sum_rests (rests t i ns) ≡ 10000 * sum ns
unfolding quotas rests sum_rests
quotas-add-rests t i [] h = omega arith
quotas-add-rests t i (n ∷ ns) h =
    omega (arith, quotas-add-rests t (suc i) ns h, div-add-mod (n * 10000) t)

rests_lt : (t i : ℕ) (ns : List ℕ) → 0 < t → sum_rests (rests t i ns) ≤ t * length ns
unfolding rests sum_rests
rests_lt t i [] h = omega arith
rests_lt t i (n ∷ ns) h = omega (arith, rests_lt t (suc i) ns h, mod-lt (n * 10000) h)

pub length-quotas : (t : ℕ) (ns : List ℕ) → length (quotas t ns) ≡ length ns
unfolding quotas
length-quotas t [] = refl
length-quotas t (n ∷ ns) = omega (arith, length-quotas t ns)

length-insert_rest : (x : Rest) (xs : List Rest) → length (insert_rest x xs) ≡ suc (length xs)
unfolding insert_rest
length-insert_rest x [] = refl
length-insert_rest x (y ∷ ys) = ground (arith, length-insert_rest x ys)

pub length-sort_rests : (t i : ℕ) (ns : List ℕ) → length (sort_rests (rests t i ns)) ≡ length ns
unfolding sort_rests rests
length-sort_rests t i [] = refl
length-sort_rests t i (n ∷ ns) = omega (
  arith,
  length-sort_rests t (suc i) ns,
  length-insert_rest (record { idx = i; r = n * 10000 % t }) (sort_rests (rests t (suc i) ns)),
)

abbrev pub Below : ℕ → Rest → Type 0
Below n x = x.idx < n

insert_rest-All :
    (n : ℕ) (x : Rest) (xs : List Rest)
    → Below n x
    → All (Below n) xs
    → All (Below n) (insert_rest x xs)
unfolding insert_rest
insert_rest-All n x [] h k = (h, tt)
insert_rest-All n x (y ∷ ys) h k = ground (arith, insert_rest-All n x ys h k.1)

pub sort_rests-All :
    (t i m : ℕ) (ns : List ℕ) → i + length ns ≤ m → All (Below m) (sort_rests (rests t i ns))
unfolding sort_rests rests
sort_rests-All t i m [] h = tt
sort_rests-All t i m (n ∷ ns) h =
    insert_rest-All m _ (sort_rests (rests t (suc i) ns)) (omega arith)
      (sort_rests-All t (suc i) m ns (omega arith))

sum-bump : (i : ℕ) (ss : List ℕ) → i < length ss → sum (bump i ss) ≡ suc (sum ss)
unfolding bump
sum-bump i [] h = omega arith
sum-bump zero (s ∷ ss) h = omega arith
sum-bump (suc i) (s ∷ ss) h = omega (arith, sum-bump i ss (omega arith))

pub length-bump : (i : ℕ) (ss : List ℕ) → length (bump i ss) ≡ length ss
unfolding bump
length-bump i [] = refl
length-bump zero (s ∷ ss) = refl
length-bump (suc i) (s ∷ ss) = omega (arith, length-bump i ss)

sum-bump_first :
    (k m : ℕ) (rs : List Rest) (ss : List ℕ)
    → length ss ≡ m
    → All (Below m) rs
    → k ≤ length rs
    → sum (bump_first k rs ss) ≡ sum ss + k
unfolding bump_first
sum-bump_first zero m rs ss e a h = omega arith
sum-bump_first (suc k) m [] ss e a h = omega arith
sum-bump_first (suc k) m (x ∷ rs) ss e (b, a) h = omega (
  arith,
  sum-bump_first k m rs (bump x.idx ss) (length-bump x.idx ss ∙ e) a (omega arith),
  sum-bump x.idx ss (omega (arith, e, b)),
)

pub length-bump_first :
    (k : ℕ) (rs : List Rest) (ss : List ℕ) → length (bump_first k rs ss) ≡ length ss
unfolding bump_first
length-bump_first zero rs ss = refl
length-bump_first (suc k) [] ss = refl
length-bump_first (suc k) (x ∷ rs) ss =
    length-bump_first k rs (bump x.idx ss) ∙ length-bump x.idx ss

pub mul-le_cancel : (t a b : ℕ) → 0 < t → t * a ≤ t * b → a ≤ b
mul-le_cancel t a b h le = elim (dec_lt b a) [
  | yes lt ↦ let more : t * suc b ≤ t * a = grind arith in absurd (omega (arith, more))
  | no ge ↦ omega arith
]

-- There are at least as many weights as points left over.
pub leftover_le :
    (ns : List ℕ)
    → 0 < sum ns
    → (sum (quotas (sum ns) ns) ≤ 10000) × (10000 - sum (quotas (sum ns) ns) ≤ length ns)
leftover_le ns h =
    let t = sum ns in
    let q = sum (quotas t ns) in
    let e = quotas-add-rests t 0 ns h in
    let l = rests_lt t 0 ns h in
    let fits : q ≤ 10000 = mul-le_cancel t q 10000 h (omega (arith, e)) in
    let whole : q + (10000 - q) ≡ 10000 = omega (arith, fits) in
    let lost : t * (10000 - q) ≤ t * length ns = omega (arith, e, l, ap (λ (x : ℕ). t * x) whole) in
    (fits, mul-le_cancel t (10000 - q) (length ns) h lost)

pub sum-largest_remainder : (ns : List ℕ) → 0 < sum ns → sum (largest_remainder ns) ≡ 10000
unfolding largest_remainder
sum-largest_remainder ns h =
    let l = leftover_le ns h in
    let t = sum ns in
    omega (
      arith,
      l.0,
      sum-bump_first (10000 - sum (quotas t ns)) (length ns) (sort_rests (rests t 0 ns))
          (quotas t ns) (length-quotas t ns) (sort_rests-All t 0 (length ns) ns (omega arith))
          (omega (arith, l.1, length-sort_rests t 0 ns)),
    )

pub length-largest_remainder : (ns : List ℕ) → length (largest_remainder ns) ≡ length ns
unfolding largest_remainder
length-largest_remainder ns =
    let t = sum ns in
    length-bump_first (10000 - sum (quotas t ns)) (sort_rests (rests t 0 ns)) (quotas t ns)
    ∙ length-quotas t ns
