-- ===== src/Money/Decimal/Forms.antt =====
-- DecimalToMinor on the forms that it accepts: a decimal point, and a decimal comma with dots
-- between the thousands.
use mathlib.Core.List.{reverse-cons, reverse-reverse}
use yield_forge.Base.{
  ℕ, zero, suc, ◌+◌, ◌-◌, ◌^◌, ◌≤◌, ◌≡◌, refl, Bool, true, false, ◌&&◌, not, [], ◌∷◌, ◌++◌, length,
  take, replicate, ltb, if◌then◌else◌, arith, Bool-cases, inl, inr, none, some,
}
use mathlib.Core.List.{reverse}
use yield_forge.Base.Int.{ℤ, pos}
use yield_forge.Base.Int64.{neg64, add64-pos}
use yield_forge.Base.Result.{Result, ok, err, invalid_decimal}
use yield_forge.Base.Text.{
  Text, digits_value, all_digits, is_space, trim_left, trim_space, parse_int64,
}
use yield_forge.Money.Decimal.{scaled, rounds_up, combine, finish}
use yield_forge.Money.Decimal.Value.{rounded}

-- No white space.
abbrev pub visible : Text → Bool
visible [] = true
visible (c ∷ s) = not (is_space c) && visible s

pub visible-append : (s t : Text) → visible s ≡ true → visible t ≡ true → visible (s ++ t) ≡ true
visible-append [] t h k = k
visible-append (c ∷ s) t h k = ground (arith, visible-append s t)

visible-reverse : (s : Text) → visible s ≡ true → visible (reverse s) ≡ true
visible-reverse [] h = refl
visible-reverse (c ∷ s) h =
    rw (reverse-cons c s)
      (visible-append (reverse s) (c ∷ []) (visible-reverse s (ground arith)) (ground arith))

trim_left-visible : (s : Text) → visible s ≡ true → trim_left s ≡ s
unfolding trim_left
trim_left-visible [] h = refl
trim_left-visible (c ∷ s) h = ground arith

pub trim_space-visible : (s : Text) → visible s ≡ true → trim_space s ≡ s
unfolding trim_space
trim_space-visible s h =
    rw (trim_left-visible s h, trim_left-visible (reverse s) (visible-reverse s h))
      (reverse-reverse s)

-- The signs and digits of ASCII are no white space.
pub printable-visible : (c : ℕ) → 0x21 ≤ c → c ≤ 0x7e → is_space c ≡ false
unfolding is_space
printable-visible c h k = ground arith

pub digits-visible : (s : Text) → all_digits s ≡ true → visible s ≡ true
digits-visible [] h = refl
digits-visible (c ∷ s) h = ground (arith, printable-visible c, digits-visible s)

all_digits-append :
    (s t : Text) → all_digits s ≡ true → all_digits t ≡ true → all_digits (s ++ t) ≡ true
all_digits-append [] t h k = k
all_digits-append (c ∷ s) t h k = ground (arith, all_digits-append s t)

all_digits-take : (n : ℕ) (s : Text) → all_digits s ≡ true → all_digits (take n s) ≡ true
all_digits-take zero s h = refl
all_digits-take (suc n) [] h = refl
all_digits-take (suc n) (c ∷ s) h = ground (arith, all_digits-take n s)

all_digits-replicate : (n : ℕ) → all_digits (replicate n b'0') ≡ true
all_digits-replicate zero = refl
all_digits-replicate (suc n) = all_digits-replicate n

all_digits-scaled :
    (scale : ℕ) (b : Text) → all_digits b ≡ true → all_digits (scaled scale b) ≡ true
all_digits-scaled scale b h = elim (Bool-cases (ltb scale (length b))) [
  | inl cut ↦ rw cut (all_digits-take scale b h)
  | inr whole ↦ rw whole (
      all_digits-append b (replicate (scale - length b) b'0') h
        (all_digits-replicate (scale - length b)))
]

parse_int64-digits :
    (c : ℕ) (s : Text)
    → all_digits (c ∷ s) ≡ true
    → parse_int64 (c ∷ s) ≡ (
        if ltb (digits_value 0 (c ∷ s)) (2 ^ 63) then some (pos (digits_value 0 (c ∷ s))) else none)
unfolding parse_int64
parse_int64-digits c s h = ground arith

-- The result for a number: the number with its sign, or the error where it does not fit.
abbrev pub signed_minor : Bool → ℕ → Result ℤ
signed_minor neg n =
    if ltb n (2 ^ 63) then ok (if neg then neg64 (pos n) else pos n) else err invalid_decimal

finish_lem :
    (neg up : Bool) (v : ℕ)
    → finish neg up (if ltb v (2 ^ 63) then some (pos v) else none)
      ≡ signed_minor neg (v + (if up then 1 else 0))
finish_lem neg up v = ground (arith, add64-pos v 1)

pub combine-digits :
    (scale : ℕ) (neg : Bool) (c : ℕ) (a b : Text)
    → all_digits (c ∷ a) ≡ true
    → all_digits b ≡ true
    → combine scale neg (c ∷ a) b ≡ signed_minor neg (rounded scale (c ∷ a) b)
unfolding combine
combine-digits scale neg c a b h k =
    rw
      (
        h,
        k,
        parse_int64-digits c (a ++ scaled scale b)
            (all_digits-append (c ∷ a) (scaled scale b) h (all_digits-scaled scale b k)),
      )
      (finish_lem neg (rounds_up scale b) (digits_value 0 (c ∷ a ++ scaled scale b)))
