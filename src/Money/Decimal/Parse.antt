-- ===== src/Money/Decimal/Parse.antt =====
-- DecimalToMinor on a number with a decimal point, and with a decimal comma and dots between the
-- thousands.
use yield_forge.Base.{
  ℕ, ◌*◌, ◌≡◌, refl, Bool, true, false, ◌&&◌, ◌||◌, [], ◌∷◌, ◌++◌, length, ◌==◌, arith, ◌∙◌, ap,
  sym,
}
use yield_forge.Base.Int.{pos}
use yield_forge.Base.Text.{
  Text, digits_value, all_digits, is_digit, contains_char, remove_char, replace_char, before, after,
}
use yield_forge.Money.HalfUp.{IsHalfUp}
use yield_forge.Money.Decimal.{decimal_to_minor, normalize, unsigned, is_neg}
use yield_forge.Money.Decimal.Digits.{pow10, digits-cons}
use yield_forge.Money.Decimal.Value.{rounded, rounded-IsHalfUp}
use yield_forge.Money.Decimal.Forms.{
  printable-visible, visible, visible-append, digits-visible, trim_space-visible, signed_minor,
  combine-digits,
}

-- The sign in front of a number: a minus or nothing.
abbrev pub sign : Bool → Text → Text
sign true s = b'-' ∷ s
sign false s = s

-- Digits and dots, as an integer part with separated thousands.
abbrev pub is_grouped : Text → Bool
is_grouped [] = true
is_grouped (c ∷ s) = (is_digit c || c == b'.') && is_grouped s

module _ (b : Text) where
  before-point : (a : Text) → all_digits a ≡ true → before b'.' (a ++ b'.' ∷ b) ≡ a
  before-point [] h = refl
  before-point (c ∷ a) h = ground (arith, before-point a)

  after-point : (a : Text) → all_digits a ≡ true → after b'.' (a ++ b'.' ∷ b) ≡ b
  after-point [] h = refl
  after-point (c ∷ a) h = ground (arith, after-point a)

  contains-comma : (a : Text) → contains_char b',' (a ++ b',' ∷ b) ≡ true
  contains-comma [] = refl
  contains-comma (c ∷ a) = ground (arith, contains-comma a)

digits-no_comma : (b : Text) → all_digits b ≡ true → contains_char b',' b ≡ false
digits-no_comma [] h = refl
digits-no_comma (c ∷ b) h = ground (arith, digits-no_comma b)

point-no_comma :
    (a b : Text)
    → all_digits a ≡ true
    → all_digits b ≡ true
    → contains_char b',' (a ++ b'.' ∷ b) ≡ false
point-no_comma [] b h k = digits-no_comma b k
point-no_comma (c ∷ a) b h k = ground (arith, point-no_comma a b)

digits-plain : (b : Text) → all_digits b ≡ true → replace_char b',' b'.' (remove_char b'.' b) ≡ b
digits-plain [] h = refl
digits-plain (c ∷ b) h = ground (arith, digits-plain b)

grouped-plain :
    (a b : Text)
    → is_grouped a ≡ true
    → all_digits b ≡ true
    → replace_char b',' b'.' (remove_char b'.' (a ++ b',' ∷ b)) ≡ remove_char b'.' a ++ b'.' ∷ b
grouped-plain [] b h k = ap (λ (s : Text). b'.' ∷ s) (digits-plain b k)
grouped-plain (c ∷ a) b h k = ground (arith, grouped-plain a b)

grouped-digits : (a : Text) → is_grouped a ≡ true → all_digits (remove_char b'.' a) ≡ true
grouped-digits [] h = refl
grouped-digits (c ∷ a) h = ground (arith, grouped-digits a)

grouped-visible : (a : Text) → is_grouped a ≡ true → visible a ≡ true
grouped-visible [] h = refl
grouped-visible (c ∷ a) h = ground (arith, printable-visible c, grouped-visible a)

minus-visible : (s : Text) → visible s ≡ true → visible (b'-' ∷ s) ≡ true
minus-visible s h = ground (arith, printable-visible b'-')

remove-digit :
    (c : ℕ) (a : Text) → is_digit c ≡ true → remove_char b'.' (c ∷ a) ≡ c ∷ remove_char b'.' a
remove-digit c a h = ground arith

digit-grouped :
    (c : ℕ) (a : Text) → is_digit c ≡ true → is_grouped a ≡ true → is_grouped (c ∷ a) ≡ true
digit-grouped c a h k = ground arith

digits-grouped : (a : Text) → all_digits a ≡ true → is_grouped a ≡ true
digits-grouped [] h = refl
digits-grouped (c ∷ a) h = ground (arith, digits-grouped a)

comma-plain :
    (c : ℕ) (a b : Text)
    → is_digit c ≡ true
    → is_grouped a ≡ true
    → all_digits b ≡ true
    → normalize (c ∷ a ++ b',' ∷ b) ≡ c ∷ remove_char b'.' a ++ b'.' ∷ b
comma-plain c a b h g k = rw (contains-comma b (c ∷ a)) (
    grouped-plain (c ∷ a) b (digit-grouped c a h g) k
    ∙ ap (λ (s : Text). s ++ b'.' ∷ b) (remove-digit c a h))

-- All that the later steps need to know of a text that begins with a digit.
from_plain :
    (scale : ℕ) (neg : Bool) (c d : ℕ) (s a b : Text)
    → is_digit c ≡ true
    → visible (c ∷ s) ≡ true
    → normalize (c ∷ s) ≡ d ∷ a ++ b'.' ∷ b
    → all_digits (d ∷ a) ≡ true
    → all_digits b ≡ true
    → decimal_to_minor (sign neg (c ∷ s)) (pos scale) ≡ signed_minor neg (rounded scale (d ∷ a) b)
unfolding decimal_to_minor
from_plain scale true c d s a b hc v e h k =
    rw
      (
        trim_space-visible (b'-' ∷ c ∷ s) (minus-visible (c ∷ s) v),
        e,
        before-point b (d ∷ a) h,
        after-point b (d ∷ a) h,
      )
      (combine-digits scale true d a b h k)
from_plain scale false c d s a b hc v e h k =
    let no_sign : unsigned (c ∷ s) ≡ c ∷ s = ground arith in
    let no_minus : is_neg (c ∷ s) ≡ false = ground arith in
    rw
      (
        trim_space-visible (c ∷ s) v,
        no_sign,
        no_minus,
        e,
        before-point b (d ∷ a) h,
        after-point b (d ∷ a) h,
      )
      (combine-digits scale false d a b h k)

-- For digits `c a` before a point and digits `b` after it, with or without a minus: the digits'
-- value over 10 ^ length b, scaled by 10 ^ scale and rounded half-up, with the sign; or the error
-- where that does not fit an int64.
pub decimal_to_minor-point :
    (scale : ℕ) (neg : Bool) (c : ℕ) (a b : Text)
    → all_digits (c ∷ a) ≡ true
    → all_digits b ≡ true
    → (q : ℕ) × (decimal_to_minor (sign neg (c ∷ a ++ b'.' ∷ b)) (pos scale) ≡ signed_minor neg q)
      × IsHalfUp (digits_value 0 (c ∷ a ++ b) * pow10 scale) (pow10 (length b)) q
decimal_to_minor-point scale neg c a b h k =
    let parts = digits-cons c a h in
    let seen =
      visible-append (c ∷ a) (b'.' ∷ b) (digits-visible (c ∷ a) h)
        (ground (arith, printable-visible b'.', digits-visible b k)) in
    (
      rounded scale (c ∷ a) b,
      from_plain scale neg c c (a ++ b'.' ∷ b) a b (ground arith) seen
          (rw (point-no_comma (c ∷ a) b h k)) h k,
      rounded-IsHalfUp scale (c ∷ a) b k,
    )

-- A decimal comma, with dots anywhere among the digits before it, gives what the point gives with
-- those dots left out.
pub decimal_to_minor-comma :
    (scale : ℕ) (neg : Bool) (c : ℕ) (a b : Text)
    → is_digit c ≡ true
    → is_grouped a ≡ true
    → all_digits b ≡ true
    → decimal_to_minor (sign neg (c ∷ a ++ b',' ∷ b)) (pos scale)
      ≡ decimal_to_minor (sign neg (c ∷ remove_char b'.' a ++ b'.' ∷ b)) (pos scale)
decimal_to_minor-comma scale neg c a b h g k =
    let a' = remove_char b'.' a in
    let first : all_digits (c ∷ a') ≡ true = ground (arith, grouped-digits a g) in
    let tail_seen = digits-visible b k in
    let comma_seen =
      visible-append (c ∷ a) (b',' ∷ b) (grouped-visible (c ∷ a) (digit-grouped c a h g))
        (ground (arith, printable-visible b',', tail_seen)) in
    let point_seen =
      visible-append (c ∷ a') (b'.' ∷ b) (digits-visible (c ∷ a') first)
        (ground (arith, printable-visible b'.', tail_seen)) in
    from_plain scale neg c c (a ++ b',' ∷ b) a' b h comma_seen (comma-plain c a b h g k) first k
    ∙ sym (
        from_plain scale neg c c (a' ++ b'.' ∷ b) a' b h point_seen
          (rw (point-no_comma (c ∷ a') b first k)) first k)
