-- ===== src/Base/Result.antt =====
-- Go's pair of a value and an error. An error is the sentinel that `errors.Is` finds in it: the
-- text that `fmt.Errorf` wraps round it is left out, and `failure n` is any error with no sentinel
-- of the program inside, such as one from the database or the network.
use Prim.Native.Nat.{ℕ}
use mathlib.Core.Path.{◌≡◌, refl}
use mathlib.Core.Bool.{Bool, true, false}
use mathlib.Core.Logic.{◌⊎◌, inl, inr}

pub data Error : Type 0 where
  invalid_decimal negative_scale : Error
  invalid_ticker invalid_indicator fii_quote_not_found macro_not_found : Error
  invalid_quantity invalid_indexer invalid_liquidity_type : Error
  holding_not_found empty_field invalid_amount negative_amount invalid_rate : Error
  past_maturity maturity_required : Error
  invalid_risk_profile invalid_objective no_objectives invalid_horizon profile_not_found : Error
  invalid_contribution unknown_scenario unknown_factor : Error
  missing_explanation advice_detected insights_unavailable insufficient_facts : Error
  malformed_response : Error
  email_taken invalid_credentials invalid_email weak_password password_too_long : Error
  session_not_found user_not_found thread_not_found empty_message message_too_long : Error
  failure : ℕ → Error

pub data Result {ℓ} (A : Type ℓ) : Type ℓ where
  ok : A → Result A
  err : Error → Result A

infixl 5 ◌>>◌ ◌>>=◌
-- A step with no value, then the next.
abbrev pub ◌>>◌ {ℓ} : {B : Type ℓ} → Result (Unit {0}) → Result B → Result B
ok done >> next = next
err e >> next = err e

-- A step, then what is done with its value.
abbrev pub ◌>>=◌ {κ ℓ} : {B : Type κ} {A : Type ℓ} → Result A → (A → Result B) → Result B
err e >>= next = err e
ok a >>= next = next a

-- `if c { return err }`.
abbrev pub fail_if : Bool → Error → Result (Unit {0})
fail_if true e = err e
fail_if false e = ok tt

pub Result-cases {ℓ} :
    {A : Type ℓ} (r : Result A) → ((a : A) × (r ≡ ok a)) ⊎ ((e : Error) × (r ≡ err e))
Result-cases (ok a) = inl (a, refl)
Result-cases (err e) = inr (e, refl)
