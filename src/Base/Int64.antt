-- ===== src/Base/Int64.antt =====
-- Go's int64 (and int, which is 64 bits wide on the platforms the program is built for): an
-- integer with the wrap-around of two's complement written out in every operation.
use Prim.Native.Nat.{ℕ, ◌+◌, ◌-◌, ◌*◌, ◌/◌, ◌%◌, ◌^◌, ◌≤◌, ◌<◌}
use mathlib.Core.Path.{◌≡◌, refl, ◌∙◌}
use native.Mathlib.Omega.{arith}
use yield_forge.Base.Tests.{ltb, if◌then◌else◌}
use yield_forge.Base.Int.{ℤ, pos, negsuc, pos_part, neg_part, ◌+ℤ◌, ◌-ℤ◌, ◌*ℤ◌, quo_ℤ, rem_ℤ}

-- The integer that a pattern of 64 bits stands for.
signed64 : ℕ → ℤ
signed64 r = if ltb r (2 ^ 63) then pos r else negsuc (2 ^ 64 - 1 - r)

unfoldable pub wrap64 : ℤ → ℤ
unfolding signed64
wrap64 (pos n) = signed64 (n % 2 ^ 64)
wrap64 (negsuc n) = signed64 (2 ^ 64 - 1 - n % 2 ^ 64)

-- The integers that an int64 holds.
abbrev pub InInt64 : ℤ → Type 0
InInt64 z = (pos_part z < 2 ^ 63) × (neg_part z ≤ 2 ^ 63)

unfoldable pub add64 : ℤ → ℤ → ℤ
unfolding wrap64 ◌+ℤ◌
add64 a b = wrap64 (a +ℤ b)

unfoldable pub sub64 : ℤ → ℤ → ℤ
unfolding wrap64 ◌-ℤ◌
sub64 a b = wrap64 (a -ℤ b)

unfoldable pub mul64 : ℤ → ℤ → ℤ
unfolding wrap64 ◌*ℤ◌
mul64 a b = wrap64 (a *ℤ b)

unfoldable pub neg64 : ℤ → ℤ
unfolding wrap64 ◌-ℤ◌
neg64 a = wrap64 (pos 0 -ℤ a)

unfoldable pub quo64 : ℤ → ℤ → ℤ
unfolding wrap64 quo_ℤ
quo64 a b = wrap64 (quo_ℤ a b)

unfoldable pub rem64 : ℤ → ℤ → ℤ
unfolding wrap64 rem_ℤ
rem64 a b = wrap64 (rem_ℤ a b)

-- Wrapping changes nothing that fits.
pub wrap64_id : (z : ℤ) → InInt64 z → wrap64 z ≡ z
unfolding wrap64
wrap64_id (pos n) h = ground arith
wrap64_id (negsuc n) h = ground arith

pub wrap64-InInt64 : (z : ℤ) → InInt64 (wrap64 z)
unfolding wrap64
wrap64-InInt64 (pos n) = ground arith
wrap64-InInt64 (negsuc n) = ground arith

-- Wrapping an operand first makes no difference to a wrapped sum.
pub wrap64-add_left : (a b : ℤ) → wrap64 (wrap64 a +ℤ b) ≡ wrap64 (a +ℤ b)
unfolding wrap64 ◌+ℤ◌
wrap64-add_left (pos a) (pos b) = ground arith
wrap64-add_left (pos a) (negsuc b) = ground arith
wrap64-add_left (negsuc a) (pos b) = ground arith
wrap64-add_left (negsuc a) (negsuc b) = ground arith

pub add64_exact : (a b : ℤ) → InInt64 (a +ℤ b) → add64 a b ≡ a +ℤ b
unfolding add64
add64_exact a b h = wrap64_id (a +ℤ b) h

pub sub64_exact : (a b : ℤ) → InInt64 (a -ℤ b) → sub64 a b ≡ a -ℤ b
unfolding sub64
sub64_exact a b h = wrap64_id (a -ℤ b) h

-- A sum of wrapped terms is the wrapped sum.
pub wrap64-add64 : (a b : ℤ) → add64 (wrap64 a) b ≡ wrap64 (a +ℤ b)
unfolding add64
wrap64-add64 a b = wrap64-add_left a b

-- The operations on numbers that stay below 2 ^ 63.
pub add64-pos : (a b : ℕ) → a + b < 2 ^ 63 → add64 (pos a) (pos b) ≡ pos (a + b)
unfolding add64
add64-pos a b h = ground arith

pub sub64-pos : (a b : ℕ) → b ≤ a → a < 2 ^ 63 → sub64 (pos a) (pos b) ≡ pos (a - b)
unfolding sub64
sub64-pos a b h l = ground arith

pub sub64-pos_lt : (a b : ℕ) → a < b → b < 2 ^ 63 → sub64 (pos a) (pos b) ≡ negsuc (b - a - 1)
unfolding sub64
sub64-pos_lt a b h l = ground arith

pub mul64-pos : (a b : ℕ) → a * b < 2 ^ 63 → mul64 (pos a) (pos b) ≡ pos (a * b)
unfolding mul64
mul64-pos a b h = ground arith

pub quo64-pos : (a b : ℕ) → a < 2 ^ 63 → quo64 (pos a) (pos b) ≡ pos (a / b)
unfolding quo64
quo64-pos a b h = ground arith

pub rem64-pos : (a b : ℕ) → a < 2 ^ 63 → rem64 (pos a) (pos b) ≡ pos (a % b)
unfolding rem64
rem64-pos a b h = ground arith

pub neg64-negsuc : (n : ℕ) → n + 1 < 2 ^ 63 → neg64 (negsuc n) ≡ pos (n + 1)
unfolding neg64
neg64-negsuc n h = ground arith

pub neg64-pos : (n : ℕ) → 0 < n → n ≤ 2 ^ 63 → neg64 (pos n) ≡ negsuc (n - 1)
unfolding neg64
neg64-pos n p h = ground arith

-- Wrapping is a congruence of sums.
pub +ℤ_comm : (a b : ℤ) → a +ℤ b ≡ b +ℤ a
unfolding ◌+ℤ◌
+ℤ_comm a b = ground arith

pub wrap64-add_right : (a b : ℤ) → wrap64 (a +ℤ wrap64 b) ≡ wrap64 (a +ℤ b)
wrap64-add_right a b = rw (+ℤ_comm a (wrap64 b), wrap64-add_left b a, +ℤ_comm b a)

pub add64-wrap64 : (a b : ℤ) → add64 (wrap64 a) (wrap64 b) ≡ wrap64 (a +ℤ b)
add64-wrap64 a b = rw (wrap64-add64 a (wrap64 b)) (wrap64-add_right a b)

pub add64-wrap64_left : (a b : ℤ) → add64 (wrap64 a) b ≡ wrap64 (a +ℤ b)
add64-wrap64_left a b = wrap64-add64 a b

pub mul64_lem : (a b : ℤ) → mul64 a b ≡ wrap64 (a *ℤ b)
unfolding mul64
mul64_lem a b = refl

pub add64_lem : (a b : ℤ) → add64 a b ≡ wrap64 (a +ℤ b)
unfolding add64
add64_lem a b = refl

pub wrap64-sub_left : (a b : ℤ) → wrap64 (wrap64 a -ℤ b) ≡ wrap64 (a -ℤ b)
unfolding wrap64 ◌-ℤ◌
wrap64-sub_left (pos a) (pos b) = ground arith
wrap64-sub_left (pos a) (negsuc b) = ground arith
wrap64-sub_left (negsuc a) (pos b) = ground arith
wrap64-sub_left (negsuc a) (negsuc b) = ground arith

pub wrap64-sub_right : (a b : ℤ) → wrap64 (a -ℤ wrap64 b) ≡ wrap64 (a -ℤ b)
unfolding wrap64 ◌-ℤ◌
wrap64-sub_right (pos a) (pos b) = ground arith
wrap64-sub_right (pos a) (negsuc b) = ground arith
wrap64-sub_right (negsuc a) (pos b) = ground arith
wrap64-sub_right (negsuc a) (negsuc b) = ground arith

pub sub64-wrap64 : (a b : ℤ) → sub64 (wrap64 a) (wrap64 b) ≡ wrap64 (a -ℤ b)
unfolding sub64
sub64-wrap64 a b = wrap64-sub_left a (wrap64 b) ∙ wrap64-sub_right a b
