-- ===== src/Base/Text.antt =====
-- Text as a list of code points, and the functions of `strings`, `strconv` and `unicode` that the
-- program calls. Its strings come from decoded JSON, from headers and from constants, and are
-- valid UTF-8.
use Prim.Native.Nat.{ℕ, zero, suc, ◌+◌, ◌-◌, ◌*◌, ◌^◌}
use Prim.Native.Char.{code}
use Prim.Native.String.{String}
use mathlib.Core.Path.{◌≡◌, refl}
use mathlib.Core.Logic.{◌↔◌}
use mathlib.Core.Bool.{Bool, true, false, ◌&&◌, ◌||◌}
use mathlib.Core.Option.{Option, none, some}
use mathlib.Core.List.{List, [], ◌∷◌, ◌++◌, map, reverse}
use native.Mathlib.Omega.{arith}
use yield_forge.Base.Tests.{ltb, leb, ◌==◌, if◌then◌else◌}
use yield_forge.Base.Int.{ℤ, pos, negsuc}

abbrev pub Text : Type 0
Text = List ℕ

-- The code points of a constant.
abbrev pub codes : String → Text
codes String.[] = []
codes (String.◌∷◌ c s) = code c ∷ codes s

-- Go's `==` on strings.
abbrev pub text_eq : Text → Text → Bool
text_eq [] [] = true
text_eq [] (d ∷ t) = false
text_eq (c ∷ s) [] = false
text_eq (c ∷ s) (d ∷ t) = (c == d) && text_eq s t

pub text_eq_iff : (s t : Text) → (text_eq s t ≡ true) ↔ (s ≡ t)
text_eq_iff [] [] = (λ h. refl, λ h. refl)
text_eq_iff [] (d ∷ t) = (λ h. cc, λ h. cc)
text_eq_iff (c ∷ s) [] = (λ h. cc, λ h. cc)
text_eq_iff (c ∷ s) (d ∷ t) = ground (arith, text_eq_iff s t)

pub text_eq_refl : (s : Text) → text_eq s s ≡ true
text_eq_refl s = (text_eq_iff s s).1 refl

-- `unicode.IsSpace`.
unfoldable pub is_space : ℕ → Bool
is_space c =
    (leb 0x09 c && leb c 0x0d)
    || c == 0x20
    || c == 0x85
    || c == 0xa0
    || c == 0x1680
    || (leb 0x2000 c && leb c 0x200a)
    || c == 0x2028
    || c == 0x2029
    || c == 0x202f
    || c == 0x205f
    || c == 0x3000

unfoldable pub trim_left : Text → Text
unfolding is_space
trim_left [] = []
trim_left (c ∷ s) = if is_space c then trim_left s else c ∷ s

-- `strings.TrimSpace`.
unfoldable pub trim_space : Text → Text
unfolding trim_left
trim_space s = reverse (trim_left (reverse (trim_left s)))

-- `unicode.ToLower` and `unicode.ToUpper` on the code points of ASCII.
abbrev pub ascii_lower : ℕ → ℕ
ascii_lower c = if leb b'A' c && leb c b'Z' then c + 32 else c

abbrev pub ascii_upper : ℕ → ℕ
ascii_upper c = if leb b'a' c && leb c b'z' then c - 32 else c

-- The letter cases beyond ASCII are tables of the `unicode` package.
pub record Unicode : Type 0 where
  pub wide_lower : ℕ → ℕ
  pub wide_upper : ℕ → ℕ

abbrev pub lower_rune : Unicode → ℕ → ℕ
lower_rune u c = if ltb c 128 then ascii_lower c else u.wide_lower c

abbrev pub upper_rune : Unicode → ℕ → ℕ
upper_rune u c = if ltb c 128 then ascii_upper c else u.wide_upper c

abbrev pub to_lower : Unicode → Text → Text
to_lower u s = map (lower_rune u) s

abbrev pub to_upper : Unicode → Text → Text
to_upper u s = map (upper_rune u) s

-- `strings.Contains` and `strings.ReplaceAll` for one code point.
abbrev pub contains_char : ℕ → Text → Bool
contains_char d [] = false
contains_char d (c ∷ s) = (c == d) || contains_char d s

abbrev pub remove_char : ℕ → Text → Text
remove_char d [] = []
remove_char d (c ∷ s) = let rest = remove_char d s in if c == d then rest else c ∷ rest

abbrev pub replace_char : ℕ → ℕ → Text → Text
replace_char d e [] = []
replace_char d e (c ∷ s) = (if c == d then e else c) ∷ replace_char d e s

-- `strings.Cut` at the first `d`; what follows is empty where there is none.
abbrev pub before : ℕ → Text → Text
before d [] = []
before d (c ∷ s) = let rest = before d s in if c == d then [] else c ∷ rest

-- What stands before the first `d` behind a text that does not hold it.
pub before-append :
    (q : ℕ) (v rest : Text)
    → contains_char q v ≡ false
    → (before q (v ++ q ∷ rest) ≡ v) × (contains_char q (v ++ q ∷ rest) ≡ true)
before-append q [] rest free = (ground arith, ground arith)
before-append q (c ∷ v) rest free =
    let tail = before-append q v rest (ground (arith, free)) in
    (ground (arith, free, tail.0), ground (arith, tail.1))

abbrev pub after : ℕ → Text → Text
after d [] = []
after d (c ∷ s) = let rest = after d s in if c == d then s else rest

-- What stands behind it.
pub after-append :
    (q : ℕ) (v rest : Text) → contains_char q v ≡ false → after q (v ++ q ∷ rest) ≡ rest
after-append q [] rest free = ground arith
after-append q (c ∷ v) rest free =
    let tail = after-append q v rest (ground (arith, free)) in ground (arith, free, tail)

abbrev pub is_digit : ℕ → Bool
is_digit c = leb b'0' c && leb c b'9'

-- The number that digits write, most significant first, after those read already.
abbrev pub digits_value : ℕ → Text → ℕ
digits_value n [] = n
digits_value n (c ∷ s) = digits_value (n * 10 + (c - b'0')) s

abbrev pub all_digits : Text → Bool
all_digits [] = true
all_digits (c ∷ s) = is_digit c && all_digits s

-- `strconv.ParseInt(s, 10, 64)`: `none` is either of its errors, syntax or range.
unfoldable pub parse_magnitude : Text → Option ℕ
parse_magnitude [] = none
parse_magnitude (c ∷ s) = if all_digits (c ∷ s) then some (digits_value 0 (c ∷ s)) else none

abbrev in_range : Bool → Option ℕ → Option ℤ
in_range negative none = none
in_range true (some zero) = some (pos 0)
in_range true (some (suc n)) = if ltb n (2 ^ 63) then some (negsuc n) else none
in_range false (some n) = if ltb n (2 ^ 63) then some (pos n) else none

unfoldable pub parse_int64 : Text → Option ℤ
unfolding parse_magnitude
parse_int64 [] = none
parse_int64 (c ∷ s) =
    if c == b'+'
    then in_range false (parse_magnitude s)
    else if c == b'-'
    then in_range true (parse_magnitude s)
    else in_range false (parse_magnitude (c ∷ s))
