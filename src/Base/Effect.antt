-- ===== src/Base/Effect.antt =====
-- Operations on a state that may fail: an answer and the state after it.
use yield_forge.Base.Result.{Result, ok, err}
use mathlib.Core.Path.{◌≡◌, refl}
use native.Mathlib.Omega.{arith}

abbrev pub Op {ℓ κ} : Type ℓ → Type κ → Type (ℓ ⊔ κ)
Op S A = S → Result A × S

module _ {ℓ} {S : Type ℓ} where
  -- A step with no effect of its own.
  abbrev pub lift {κ} : {A : Type κ} → Result A → Op S A
  lift r s = (r, s)

  -- What a query answers.
  abbrev pub query {κ} : {A : Type κ} → (S → Result A) → Op S A
  query q s = (q s, s)

  abbrev pub go_on {κ ι} : {A : Type κ} {B : Type ι} → (A → Op S B) → Result A × S → Result B × S
  go_on next (ok a, s) = next a s
  go_on next (err e, s) = (err e, s)

  infixl 5 ◌>>=◌
  abbrev pub ◌>>=◌ {κ ι} : {A : Type κ} {B : Type ι} → Op S A → (A → Op S B) → Op S B
  (m >>= next) s = go_on next (m s)

  -- A last step that only replaces the answer.
  pub go_on-ok {κ ι} :
      {A : Type κ} {B : Type ι} (b c : B) (out : Result A × S)
      → (go_on (λ a s. (ok b, s)) out).0 ≡ ok c
      → (b ≡ c) × ((a : A) × (out.0 ≡ ok a)) × ((go_on (λ a s. (ok b, s)) out).1 ≡ out.1)
  go_on-ok b c (ok a, s) h = (ground (arith, h), (a, refl), refl)
  go_on-ok b c (err e, s) h = ground (arith, h)
