-- ===== src/Money/Decimal.antt =====
-- internal/platform/money/money.go: decimal text to an int64 scaled by a power of ten.
pub mod Digits
pub mod Value
pub mod Forms
pub mod Parse
use yield_forge.Base.{
  ℕ, ◌-◌, Bool, true, false, ◌||◌, ◌&&◌, not, ◌≡◌, refl, Option, none, some, [], ◌∷◌, ◌++◌, length,
  take, get_or, replicate, ltb, leb, ◌==◌, if◌then◌else◌, ◌^◌,
}
use yield_forge.Base.Int.{ℤ, pos, negsuc}
use yield_forge.Base.Int64.{add64, neg64}
use yield_forge.Base.Result.{Result, ok, err, invalid_decimal, negative_scale}
use yield_forge.Base.Text.{
  Text, codes, trim_space, contains_char, remove_char, replace_char, before, after, all_digits,
  parse_int64,
}

-- `isDigits`.
abbrev pub is_digits : Text → Bool
is_digits s = all_digits s

abbrev pub is_empty : Text → Bool
is_empty [] = true
is_empty (c ∷ s) = false

-- The sign that `switch s[0]` takes off.
abbrev pub is_neg : Text → Bool
is_neg [] = false
is_neg (c ∷ s) = c == b'-'

abbrev pub unsigned : Text → Text
unsigned [] = []
unsigned (c ∷ s) = if (c == b'-') || (c == b'+') then s else c ∷ s

-- With a comma in it the dots separate thousands.
abbrev pub normalize : Text → Text
normalize s = if contains_char b',' s then replace_char b',' b'.' (remove_char b'.' s) else s

-- `fracPart` cut or padded to the scale, and whether the first digit cut off rounds up.
abbrev pub scaled : ℕ → Text → Text
scaled scale frac =
    if ltb scale (length frac)
    then take scale frac
    else frac ++ replicate (scale - length frac) b'0'

abbrev pub rounds_up : ℕ → Text → Bool
rounds_up scale frac = if ltb scale (length frac) then leb b'5' (get_or frac scale b'0') else false

abbrev pub finish : Bool → Bool → Option ℤ → Result ℤ
finish neg round_up none = err invalid_decimal
finish neg true (some (pos n)) =
    if n == 2 ^ 63 - 1
    then err invalid_decimal
    else let val = add64 (pos n) (pos 1) in ok (if neg then neg64 val else val)
finish neg true (some (negsuc n)) =
    let val = add64 (negsuc n) (pos 1) in ok (if neg then neg64 val else val)
finish neg false (some val) = ok (if neg then neg64 val else val)

-- From the integer and the fractional part on.
unfoldable pub combine : ℕ → Bool → Text → Text → Result ℤ
combine scale neg int_part frac_part =
    if is_empty int_part && is_empty frac_part
    then err invalid_decimal
    else let int_part' = if is_empty int_part then b'0' ∷ [] else int_part in
      if not (is_digits int_part') || not (is_digits frac_part)
      then err invalid_decimal
      else finish neg (rounds_up scale frac_part)
          (parse_int64 (int_part' ++ scaled scale frac_part))

unfoldable pub decimal_to_minor : Text → ℤ → Result ℤ
decimal_to_minor s (negsuc n) = err negative_scale
decimal_to_minor s (pos scale) =
    let trimmed = trim_space s in
    if is_empty trimmed
    then err invalid_decimal
    else let plain = normalize (unsigned trimmed) in
      combine scale (is_neg trimmed) (before b'.' plain) (after b'.' plain)
