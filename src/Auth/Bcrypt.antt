-- ===== src/Auth/Bcrypt.antt =====
-- internal/auth/bcrypt/bcrypt.go: the hasher over the functions of golang.org/x/crypto/bcrypt.
use yield_forge.Base.{ℕ, zero, suc, Option, none, some}
use yield_forge.Base.Text.{Text}
use yield_forge.Base.Result.{Result, ok, err, failure, invalid_credentials}
use yield_forge.Auth.Service.{PasswordHasher}

-- What CompareHashAndPassword answers.
pub data Comparison : Type 0 where
  matched mismatched malformed : Comparison

-- GenerateFromPassword, by salt and cost, and CompareHashAndPassword.
pub record BcryptLibrary : Type 0 where
  pub generate : ℕ → ℕ → Text → Option Text
  pub compare_hash : Text → Text → Comparison

abbrev pub default_cost : ℕ
default_cost = 12

pub record Hasher : Type 0 where
  pub cost : ℕ

abbrev pub new_hasher : Hasher
new_hasher = record { cost = default_cost }

abbrev pub effective_cost : ℕ → ℕ
effective_cost zero = default_cost
effective_cost (suc n) = suc n

abbrev generated : Option Text → Result Text
generated none = err (failure 1)
generated (some h) = ok h

unfoldable pub hash : BcryptLibrary → Hasher → ℕ → Text → Result Text
hash lib h salt password = generated (lib.generate salt (effective_cost h.cost) password)

abbrev compared : Comparison → Result (Unit {0})
compared matched = ok tt
compared mismatched = err invalid_credentials
compared malformed = err (failure 2)

unfoldable pub compare : BcryptLibrary → Text → Text → Result (Unit {0})
compare lib hashed password = compared (lib.compare_hash hashed password)

abbrev pub bcrypt : BcryptLibrary → Hasher → PasswordHasher
bcrypt lib h = record { hash = hash lib h; compare = compare lib }
