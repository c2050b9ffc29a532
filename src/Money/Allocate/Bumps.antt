-- ===== src/Money/Allocate/Bumps.antt =====
-- How often the largest-remainder method bumps a share.
use yield_forge.Base.{
  ℕ, zero, suc, ◌+◌, ◌*◌, ◌%◌, ◌≤◌, ◌<◌, ◌≡◌, refl, List, [], ◌∷◌, length, ltb, All, arith,
  if◌then◌else◌, ◌∙◌, get_or, take, ◌==◌,
}
use yield_forge.Money.Allocate.Reference.{
  Rest, rests, insert_rest, sort_rests, bump, bump_first, Below, length-bump,
}

-- How often an index is bumped.
unfoldable pub bumps : ℕ → List Rest → ℕ
bumps i [] = 0
bumps i (x ∷ xs) = (if x.idx == i then 1 else 0) + bumps i xs

get_or-bump :
    (i j : ℕ) (ss : List ℕ)
    → j < length ss
    → get_or (bump j ss) i 0 ≡ get_or ss i 0 + (if j == i then 1 else 0)
unfolding bump
get_or-bump i j [] h = omega arith
get_or-bump zero zero (s ∷ ss) h = ground arith
get_or-bump zero (suc j) (s ∷ ss) h = ground arith
get_or-bump (suc i) zero (s ∷ ss) h = ground arith
get_or-bump (suc i) (suc j) (s ∷ ss) h = ground (arith, get_or-bump i j ss)

pub get_or-bump_first :
    (i k m : ℕ) (rs : List Rest) (ss : List ℕ)
    → length ss ≡ m
    → All (Below m) rs
    → get_or (bump_first k rs ss) i 0 ≡ get_or ss i 0 + bumps i (take k rs)
unfolding bump_first bumps
get_or-bump_first i zero m rs ss e a = omega arith
get_or-bump_first i (suc k) m [] ss e a = omega arith
get_or-bump_first i (suc k) m (x ∷ rs) ss e (b, a) = omega (
  arith,
  get_or-bump_first i k m rs (bump x.idx ss) (length-bump x.idx ss ∙ e) a,
  get_or-bump i x.idx ss (omega (arith, e, b)),
)

bumps-insert_rest :
    (i : ℕ) (x : Rest) (xs : List Rest) → bumps i (insert_rest x xs) ≡ bumps i (x ∷ xs)
unfolding bumps insert_rest
bumps-insert_rest i x [] = refl
bumps-insert_rest i x (y ∷ ys) = ground (arith, bumps-insert_rest i x ys)

bumps-rests_below : (i j t : ℕ) (ns : List ℕ) → i < j → bumps i (rests t j ns) ≡ 0
unfolding bumps rests
bumps-rests_below i j t [] h = refl
bumps-rests_below i j t (n ∷ ns) h = ground (arith, bumps-rests_below i (suc j) t ns)

-- Every index stands in the sorted list once at most.
pub bumps-sort_rests :
    (i j t : ℕ) (ns : List ℕ) → bumps i (sort_rests (rests t j ns)) ≡ bumps i (rests t j ns)
unfolding sort_rests rests bumps
bumps-sort_rests i j t [] = refl
bumps-sort_rests i j t (n ∷ ns) = omega (
  arith,
  bumps-insert_rest i (record { idx = j; r = n * 10000 % t }) (sort_rests (rests t (suc j) ns)),
  bumps-sort_rests i (suc j) t ns,
)

pub bumps-rests : (i j t : ℕ) (ns : List ℕ) → bumps i (rests t j ns) ≤ 1
unfolding bumps rests
bumps-rests i j t [] = omega arith
bumps-rests i j t (n ∷ ns) =
    ground (arith, bumps-rests i (suc j) t ns, bumps-rests_below i (suc j) t ns)

pub bumps-take : (i k : ℕ) (xs : List Rest) → bumps i (take k xs) ≤ bumps i xs
unfolding bumps
bumps-take i zero xs = omega arith
bumps-take i (suc k) [] = omega arith
bumps-take i (suc k) (x ∷ xs) = omega (arith, bumps-take i k xs)

-- Sorted by descending remainder: the head is as large as what follows.
abbrev pub AtMost : ℕ → Rest → Type 0
AtMost m x = x.r ≤ m

abbrev pub Descending : List Rest → Type 0
Descending [] = Unit
Descending (x ∷ xs) = All (AtMost x.r) xs × Descending xs

insert_rest-AtMost :
    (m : ℕ) (x : Rest) (xs : List Rest)
    → x.r ≤ m
    → All (AtMost m) xs
    → All (AtMost m) (insert_rest x xs)
unfolding insert_rest
insert_rest-AtMost m x [] h k = (h, tt)
insert_rest-AtMost m x (y ∷ ys) h k = ground (arith, insert_rest-AtMost m x ys h k.1)

pub All-AtMost : (m n : ℕ) (xs : List Rest) → m ≤ n → All (AtMost m) xs → All (AtMost n) xs
All-AtMost m n [] h k = tt
All-AtMost m n (x ∷ xs) h k = (omega (arith, k.0), All-AtMost m n xs h k.1)

insert_rest-Descending : (x : Rest) (xs : List Rest) → Descending xs → Descending (insert_rest x xs)
unfolding insert_rest
insert_rest-Descending x [] d = (tt, tt)
insert_rest-Descending x (y ∷ ys) d =
    ground
      (arith, insert_rest-AtMost y.r x ys, insert_rest-Descending x ys d.1, All-AtMost y.r x.r ys)

pub sort_rests-Descending : (xs : List Rest) → Descending (sort_rests xs)
unfolding sort_rests
sort_rests-Descending [] = tt
sort_rests-Descending (x ∷ xs) = insert_rest-Descending x (sort_rests xs) (sort_rests-Descending xs)

-- How often an index is bumped for a remainder that is not zero.
unfoldable pub pos_bumps : ℕ → List Rest → ℕ
pos_bumps i [] = 0
pos_bumps i (x ∷ xs) = (if ltb 0 x.r then (if x.idx == i then 1 else 0) else 0) + pos_bumps i xs

pos_bumps-le : (i : ℕ) (xs : List Rest) → pos_bumps i xs ≤ bumps i xs
unfolding pos_bumps bumps
pos_bumps-le i [] = omega arith
pos_bumps-le i (x ∷ xs) = ground (arith, pos_bumps-le i xs)

pos_bumps-insert_rest :
    (i : ℕ) (x : Rest) (xs : List Rest) → pos_bumps i (insert_rest x xs) ≡ pos_bumps i (x ∷ xs)
unfolding pos_bumps insert_rest
pos_bumps-insert_rest i x [] = refl
pos_bumps-insert_rest i x (y ∷ ys) = ground (arith, pos_bumps-insert_rest i x ys)

pub pos_bumps-sort_rests :
    (i j t : ℕ) (ns : List ℕ) → pos_bumps i (sort_rests (rests t j ns)) ≡ pos_bumps i (rests t j ns)
unfolding sort_rests rests pos_bumps
pos_bumps-sort_rests i j t [] = refl
pos_bumps-sort_rests i j t (n ∷ ns) = omega (
  arith,
  pos_bumps-insert_rest i (record { idx = j; r = n * 10000 % t }) (sort_rests (rests t (suc j) ns)),
  pos_bumps-sort_rests i (suc j) t ns,
)

-- A weight whose share is whole has no remainder to be bumped for.
pub pos_bumps-rests :
    (m i j t : ℕ) (ns : List ℕ)
    → m ≡ j + i
    → get_or ns i 0 * 10000 % t ≡ 0
    → pos_bumps m (rests t j ns) ≡ 0
unfolding pos_bumps rests
pos_bumps-rests m i j t [] e h = refl
pos_bumps-rests m zero j t (n ∷ ns) e h =
    ground (arith, pos_bumps-le m (rests t (suc j) ns), bumps-rests_below m (suc j) t ns)
pos_bumps-rests m (suc i) j t (n ∷ ns) e h = ground (arith, pos_bumps-rests m i (suc j) t ns)

pub pos_bumps-take : (i k : ℕ) (xs : List Rest) → pos_bumps i (take k xs) ≤ pos_bumps i xs
unfolding pos_bumps
pos_bumps-take i zero xs = omega arith
pos_bumps-take i (suc k) [] = omega arith
pos_bumps-take i (suc k) (x ∷ xs) = omega (arith, pos_bumps-take i k xs)

abbrev pub Under : ℕ → Rest → Type 0
Under t x = x.r < t

abbrev pub IsPos : Rest → Type 0
IsPos x = 0 < x.r
