-- ===== src/Auth.antt =====
-- internal/auth/auth.go and token.go: users, sessions, the checks on a new account, and tokens.
pub mod Service
pub mod Postgres
pub mod Bcrypt
pub mod WellFormed
pub mod Reachable
pub mod Sessions
pub mod Accounts
use yield_forge.Base.{ℕ, ◌+◌, Bool, List, [], ◌∷◌, if◌then◌else◌, ltb}
use yield_forge.Base.Text.{Text, Unicode, to_lower, trim_space}
use yield_forge.Base.Result.{
  Result, ok, err, ◌>>=◌, Error, invalid_email, weak_password, password_too_long,
}
use yield_forge.Marketdata.Quote.{Time}

pub record User : Type 0 where
  pub id : Text
  pub email : Text
  pub password_hash : Text
  pub created_at : Time
  pub updated_at : Time

pub record Session : Type 0 where
  pub id : Text
  pub user_id : Text
  pub token_hash : Text
  pub expires_at : Time
  pub created_at : Time

-- What the standard library does: `mail.ParseAddress` accepts, `base64.RawURLEncoding`, the sum of
-- `crypto/sha256` over the bytes of a text, and `encoding/hex`.
pub record Library : Type 0 where
  pub unicode : Unicode
  pub is_address : Text → Bool
  pub base64_url : List ℕ → Text
  pub sha256 : Text → List ℕ
  pub hex : List ℕ → Text

abbrev pub min_password_length : ℕ
min_password_length = 8

abbrev pub max_password_length : ℕ
max_password_length = 72

-- The bytes of a code point in UTF-8, and Go's `len` of a string.
abbrev pub rune_size : ℕ → ℕ
rune_size c = if ltb c 0x80 then 1 else if ltb c 0x800 then 2 else if ltb c 0x10000 then 3 else 4

abbrev pub byte_length : Text → ℕ
byte_length [] = 0
byte_length (c ∷ s) = rune_size c + byte_length s

unfoldable pub normalize_email : Library → Text → Text
normalize_email lib email = to_lower lib.unicode (trim_space email)

abbrev pub check_address : Library → Text → Result Text
check_address lib [] = err invalid_email
check_address lib (c ∷ s) = if lib.is_address (c ∷ s) then ok (c ∷ s) else err invalid_email

unfoldable pub validate_email : Library → Text → Result Text
validate_email lib email = check_address lib (normalize_email lib email)

unfoldable pub validate_password : Text → Result (Unit {0})
validate_password password =
    if ltb (byte_length password) min_password_length
    then err weak_password
    else if ltb max_password_length (byte_length password)
    then err password_too_long
    else ok tt

-- The 32 bytes are drawn by `rand.Read`, or it fails.
unfoldable pub new_session_token : Library → Result (List ℕ) → Result Text
new_session_token lib drawn = do bytes ← drawn; ok (lib.base64_url bytes)

unfoldable pub hash_token : Library → Text → Text
hash_token lib token = lib.hex (lib.sha256 token)
