-- ===== src/Money/Decimal/Value.antt =====
-- What DecimalToMinor computes from the digits of a decimal number.
use yield_forge.Base.{
  ℕ, zero, suc, ◌+◌, ◌-◌, ◌*◌, ◌≤◌, ◌<◌, ◌≡◌, refl, true, [], ◌∷◌, ◌++◌, length, take, drop, get_or,
  replicate, leb, lt→ltb, if◌then◌else◌, arith, ◌∙◌, ap, sym, subst, ge→ltb, Bool-cases, inl, inr,
}
use native.Mathlib.Decide.{dec_lt}
use mathlib.Core.List.{append_assoc}
use yield_forge.Base.Text.{Text, digits_value, all_digits}
use yield_forge.Money.HalfUp.{IsHalfUp, IsHalfUp-exact}
use yield_forge.Money.Decimal.{scaled, rounds_up}
use yield_forge.Money.Decimal.Digits.{
  pow10, pow10_pos, pow10-add, digits_value-append, digits_value_lt, digits_value-replicate,
  digits_value-seq, half-first_digit, take-drop, digits-cons, mul-le_mono,
}

IsHalfUp-mul : (k num den q : ℕ) → 0 < k → IsHalfUp num den q → IsHalfUp (num * k) (den * k) q
IsHalfUp-mul k num den q p h =
    let low = mul-le_mono (2 * den * q) (2 * num + den) k h.lower in
    let up = mul-le_mono (2 * num + den + 1) (2 * den * q + 2 * den) k (omega (arith, h.upper)) in
    record { lower = omega (arith, low); upper = omega (arith, up, p) }

-- The digits kept, and one more where the first digit cut off is 5 or above.
abbrev pub rounded : ℕ → Text → Text → ℕ
rounded scale a b = digits_value 0 (a ++ scaled scale b) + (if rounds_up scale b then 1 else 0)

all_digits-drop : (n : ℕ) (s : Text) → all_digits s ≡ true → all_digits (drop n s) ≡ true
all_digits-drop zero s h = h
all_digits-drop (suc n) [] h = refl
all_digits-drop (suc n) (c ∷ s) h = all_digits-drop n s (digits-cons c s h).2

length-drop : (n : ℕ) (s : Text) → length (drop n s) ≡ length s - n
length-drop zero s = omega arith
length-drop (suc n) [] = omega arith
length-drop (suc n) (c ∷ s) = omega (arith, length-drop n s)

drop-cons : (n : ℕ) (s : Text) → n < length s → (t : Text) × (drop n s ≡ get_or s n b'0' ∷ t)
drop-cons n [] h = absurd (omega arith)
drop-cons zero (c ∷ s) h = (s, refl)
drop-cons (suc n) (c ∷ s) h = drop-cons n s (omega arith)

-- Rounding V whole units by the first digit of the rest.
round_rest :
    (v c : ℕ) (t : Text)
    → all_digits (c ∷ t) ≡ true
    → IsHalfUp
        (v * pow10 (length (c ∷ t)) + digits_value 0 (c ∷ t))
        (pow10 (length (c ∷ t)))
        (v + (if leb b'5' c then 1 else 0))
round_rest v c t h =
    let half = half-first_digit c t h in
    let room = digits_value_lt (c ∷ t) h in
    elim (Bool-cases (leb b'5' c)) [
      | inl up ↦ rw up (record { lower = omega (arith, half.0 up); upper = omega (arith, room) })
      | inr down ↦ rw down (record { lower = omega arith; upper = omega (arith, half.1 down) })
    ]

rounded_cut :
    (scale : ℕ) (a b : Text)
    → all_digits b ≡ true
    → scale < length b
    → IsHalfUp
        (digits_value 0 (a ++ b))
        (pow10 (length b - scale))
        (digits_value 0 (a ++ take scale b) + (if leb b'5' (get_or b scale b'0') then 1 else 0))
rounded_cut scale a b h lt =
    let (t, e) = drop-cons scale b lt in
    let digits = all_digits-drop scale b h in
    let v = digits_value 0 (a ++ take scale b) in
    let split : digits_value 0 (a ++ b)
        ≡ v * pow10 (length (drop scale b)) + digits_value 0 (drop scale b) =
      ap (λ (s : Text). digits_value 0 (a ++ s)) (sym (take-drop scale b))
      ∙ ap (digits_value 0) (sym (append_assoc a (take scale b) (drop scale b)))
      ∙ digits_value-append 0 (a ++ take scale b) (drop scale b) in
    rw (split, ← length-drop scale b, e) (round_rest v (get_or b scale b'0') t (rw e at digits))

rounded_padded :
    (scale : ℕ) (a b : Text)
    → length b ≤ scale
    → digits_value 0 (a ++ (b ++ replicate (scale - length b) b'0'))
      ≡ digits_value 0 (a ++ b) * pow10 (scale - length b)
rounded_padded scale a b h =
    rw
      (
        ← append_assoc a b (replicate (scale - length b) b'0'),
        digits_value-seq 0 (a ++ b) (replicate (scale - length b) b'0'),
      )
      (digits_value-replicate (digits_value 0 (a ++ b)) (scale - length b))

pub rounded-IsHalfUp :
    (scale : ℕ) (a b : Text)
    → all_digits b ≡ true
    → IsHalfUp (digits_value 0 (a ++ b) * pow10 scale) (pow10 (length b)) (rounded scale a b)
rounded-IsHalfUp scale a b h = elim (dec_lt scale (length b)) [
  | yes lt ↦
      let n = digits_value 0 (a ++ b) in
      let q =
        digits_value 0 (a ++ take scale b) + (if leb b'5' (get_or b scale b'0') then 1 else 0) in
      let together : length b - scale + scale ≡ length b = omega arith in
      let den : pow10 (length b - scale) * pow10 scale ≡ pow10 (length b) =
        sym (pow10-add (length b - scale) scale) ∙ ap pow10 together in
      let product =
        IsHalfUp-mul (pow10 scale) n (pow10 (length b - scale)) q (pow10_pos scale)
          (rounded_cut scale a b h lt) in
      rw (lt→ltb scale (length b) lt)
        (subst (λ (d : ℕ). IsHalfUp (n * pow10 scale) d q) den product)
  | no ge ↦
      let n = digits_value 0 (a ++ b) in
      let together : length b + (scale - length b) ≡ scale = omega arith in
      let scaled_up : pow10 (length b) * pow10 (scale - length b) ≡ pow10 scale =
        sym (pow10-add (length b) (scale - length b)) ∙ ap pow10 together in
      let num : pow10 (length b) * (n * pow10 (scale - length b)) ≡ n * pow10 scale =
        omega (arith, ap (λ (x : ℕ). n * x) scaled_up) in
      let whole : digits_value 0 (a ++ (b ++ replicate (scale - length b) b'0')) + 0
          ≡ n * pow10 (scale - length b) =
        omega (arith, rounded_padded scale a b (omega arith)) in
      rw (ge→ltb scale (length b) (omega arith), whole)
        (subst (λ (m : ℕ). IsHalfUp m (pow10 (length b)) (n * pow10 (scale - length b))) num
          (IsHalfUp-exact (pow10 (length b)) (n * pow10 (scale - length b)) (pow10_pos (length b))))
]
