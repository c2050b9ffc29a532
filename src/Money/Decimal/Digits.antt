-- ===== src/Money/Decimal/Digits.antt =====
-- The value of digits, and how cutting a fraction at the scale rounds it.
use native.Mathlib.Nat.{zero-add, suc-add}
use yield_forge.Base.{
  ℕ, zero, suc, ◌+◌, ◌-◌, ◌*◌, ◌≤◌, ◌<◌, ◌≡◌, refl, true, false, [], ◌∷◌, ◌++◌, length, take, drop,
  replicate, leb, arith, leb→le, ap,
}
use yield_forge.Base.Text.{Text, digits_value, all_digits}

abbrev pub pow10 : ℕ → ℕ
pow10 zero = 1
pow10 (suc n) = 10 * pow10 n

pub pow10_pos : (n : ℕ) → 0 < pow10 n
pow10_pos zero = omega arith
pow10_pos (suc n) = omega (arith, pow10_pos n)

pub pow10-add : (m n : ℕ) → pow10 (m + n) ≡ pow10 m * pow10 n
pow10-add zero n = rw zero-add (omega arith)
pow10-add (suc m) n = rw suc-add (omega (arith, pow10-add m n))

pub digits_value_acc :
    (n : ℕ) (s : Text) → digits_value n s ≡ n * pow10 (length s) + digits_value 0 s
digits_value_acc n [] = omega arith
digits_value_acc n (c ∷ s) =
    omega
      (arith, digits_value_acc (n * 10 + (c - b'0')) s, digits_value_acc (0 * 10 + (c - b'0')) s)

pub digits_value-append :
    (n : ℕ) (s t : Text)
    → digits_value n (s ++ t) ≡ digits_value n s * pow10 (length t) + digits_value 0 t
digits_value-append n [] t = digits_value_acc n t
digits_value-append n (c ∷ s) t = digits_value-append (n * 10 + (c - b'0')) s t

pub digits-cons :
    (c : ℕ) (s : Text) → all_digits (c ∷ s) ≡ true → (b'0' ≤ c) × (c ≤ b'9') × (all_digits s ≡ true)
digits-cons c s h = ground arith

pub mul-le_mono : (a b p : ℕ) → a ≤ b → a * p ≤ b * p
mul-le_mono a b p h = grind arith

pub digits_value_lt : (s : Text) → all_digits s ≡ true → digits_value 0 s < pow10 (length s)
digits_value_lt [] h = omega arith
digits_value_lt (c ∷ s) h =
    let parts = digits-cons c s h in
    let small : (c - b'0') * pow10 (length s) ≤ 9 * pow10 (length s) =
      mul-le_mono (c - b'0') 9 (pow10 (length s)) (omega (arith, parts)) in
    omega (arith, small, digits_value_acc (0 * 10 + (c - b'0')) s, digits_value_lt s parts.2)

pub digits_value-replicate : (n k : ℕ) → digits_value n (replicate k b'0') ≡ n * pow10 k
digits_value-replicate n zero = omega arith
digits_value-replicate n (suc k) = omega (arith, digits_value-replicate (n * 10 + 0) k)

-- The first digit of a fraction says whether it is a half or more.
pub half-first_digit :
    (c : ℕ) (s : Text)
    → all_digits (c ∷ s) ≡ true
    → (leb b'5' c ≡ true → pow10 (length (c ∷ s)) ≤ 2 * digits_value 0 (c ∷ s))
      × (leb b'5' c ≡ false → 2 * digits_value 0 (c ∷ s) < pow10 (length (c ∷ s)))
half-first_digit c s h =
    let parts = digits-cons c s h in
    let p = pow10 (length s) in
    let value = digits_value_acc (0 * 10 + (c - b'0')) s in
    let rest = digits_value_lt s parts.2 in
    (
      λ five.
          let big : 5 * p ≤ (c - b'0') * p =
            mul-le_mono 5 (c - b'0') p (omega (arith, leb→le b'5' c five)) in
          omega (arith, big, value, rest),
      λ four.
          let less : (c - b'0') * p ≤ 4 * p = mul-le_mono (c - b'0') 4 p (ground arith) in
          omega (arith, less, value, rest),
    )

pub take-drop : (n : ℕ) (s : Text) → take n s ++ drop n s ≡ s
take-drop zero s = refl
take-drop (suc n) [] = refl
take-drop (suc n) (c ∷ s) = ap (λ (r : Text). c ∷ r) (take-drop n s)

pub digits_value-seq :
    (n : ℕ) (s t : Text) → digits_value n (s ++ t) ≡ digits_value (digits_value n s) t
digits_value-seq n [] t = refl
digits_value-seq n (c ∷ s) t = digits_value-seq (n * 10 + (c - b'0')) s t
