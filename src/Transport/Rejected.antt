-- ===== src/Transport/Rejected.antt =====
-- internal/transport/http/holdings.go: what a client is told of input that the validation rejects.
use yield_forge.Base.{
  Bool, true, false, ◌&&◌, Option, none, some, [], ◌≡◌, refl, subst, arith, if◌then◌else◌,
}
use yield_forge.Base.Int.{ℤ, pos, ltb_ℤ, leb_ℤ}
use yield_forge.Base.Text.{Text, Unicode, text_eq, trim_space, to_lower, codes}
use yield_forge.Base.Result.{
  Result, ok, err, ◌>>=◌, ◌>>◌, fail_if, Error, invalid_ticker, invalid_quantity, invalid_indexer,
  invalid_liquidity_type, maturity_required, past_maturity, negative_amount, empty_field,
  invalid_amount, invalid_rate,
}
use yield_forge.Marketdata.Quote.{Time}
use yield_forge.Marketdata.Ticker.{parse_ticker}
use yield_forge.Portfolio.Holding.{
  parse_quantity, parse_indexer, parse_liquidity_type, requires_maturity, daily, at_maturity,
  prefixado, cdi_percentual, ipca_spread,
}
use yield_forge.Portfolio.Build.{
  FiiInput, FixedIncomeInput, build_fii_holding, build_fixed_income_holding, check_maturity,
  midnight,
}
use yield_forge.Portfolio.Service.{
  Repository, MacroReader, create_fii_holding, update_fii_holding, create_fixed_income_holding,
  update_fixed_income_holding,
}
use yield_forge.Transport.Holdings.{
  FiiRequest, FixedIncomeRequest, Dates, error_status, refuse, fii_input, fixed_income_input,
  handle_create_fii, handle_update_fii, handle_create_fixed, handle_update_fixed,
}

-- Every error of the result is answered with 400.
abbrev IsBadRequest : {A : Type 0} → Result A → Type 0
IsBadRequest r = (e : Error) → r ≡ err e → error_status e ≡ 400

err-IsBadRequest : (A : Type 0) (e : Error) → error_status e ≡ 400 → IsBadRequest {A = A} (err e)
err-IsBadRequest A e h x same =
    let sames : e ≡ x = ground (arith, same) in subst (λ z. error_status z ≡ 400) sames h

ok-IsBadRequest : {A : Type 0} (a : A) → IsBadRequest (ok a)
ok-IsBadRequest a x same = ground (arith, same)

bind-IsBadRequest :
    {B A : Type 0} (r : Result B) (f : B → Result A)
    → IsBadRequest r
    → ((b : B) → IsBadRequest (f b))
    → IsBadRequest (r >>= f)
bind-IsBadRequest (ok b) f r next = next b
bind-IsBadRequest (err e) f r next = err-IsBadRequest _ e (r e refl)

then-IsBadRequest :
    {A : Type 0} (r : Result (Unit {0})) (next : Result A)
    → IsBadRequest r
    → IsBadRequest next
    → IsBadRequest (r >> next)
then-IsBadRequest (ok tt) next r n = n
then-IsBadRequest (err e) next r n = err-IsBadRequest _ e (r e refl)

fail_if-IsBadRequest : (b : Bool) (e : Error) → error_status e ≡ 400 → IsBadRequest (fail_if b e)
fail_if-IsBadRequest true e h = err-IsBadRequest _ e h
fail_if-IsBadRequest false e h = ok-IsBadRequest tt

if-IsBadRequest :
    {A : Type 0} (b : Bool) (r s : Result A)
    → IsBadRequest r
    → IsBadRequest s
    → IsBadRequest (if b then r else s)
if-IsBadRequest true r s p q = p
if-IsBadRequest false r s p q = q

module _ (u : Unicode) where
  parse_ticker-IsBadRequest : (s : Text) → IsBadRequest (parse_ticker u s)
  unfolding parse_ticker
  parse_ticker-IsBadRequest s =
      if-IsBadRequest _ _ _ (ok-IsBadRequest _) (err-IsBadRequest _ invalid_ticker refl)

  parse_quantity-IsBadRequest : (n : ℤ) → IsBadRequest (parse_quantity n)
  unfolding parse_quantity
  parse_quantity-IsBadRequest n =
      if-IsBadRequest (leb_ℤ n (pos 0)) _ _ (err-IsBadRequest _ invalid_quantity refl)
        (ok-IsBadRequest _)

  build_fii_holding-IsBadRequest : (input : FiiInput) → IsBadRequest (build_fii_holding u input)
  unfolding build_fii_holding
  build_fii_holding-IsBadRequest input =
      bind-IsBadRequest (parse_ticker u input.ticker) _ (parse_ticker-IsBadRequest input.ticker)
        (λ t.
          bind-IsBadRequest (parse_quantity input.quantity) _
            (parse_quantity-IsBadRequest input.quantity)
            (λ q.
              then-IsBadRequest
                (fail_if (ltb_ℤ input.average_price_centavos (pos 0)) negative_amount) _
                (fail_if-IsBadRequest _ negative_amount refl) (ok-IsBadRequest _)))

  parse_liquidity_type-IsBadRequest : (s : Text) → IsBadRequest (parse_liquidity_type u s)
  unfolding parse_liquidity_type
  parse_liquidity_type-IsBadRequest s =
      let kind = to_lower u (trim_space s) in
      if-IsBadRequest (text_eq kind (codes "daily")) _ _ (ok-IsBadRequest daily) (
        if-IsBadRequest (text_eq kind (codes "at_maturity")) _ _ (ok-IsBadRequest at_maturity)
          (err-IsBadRequest _ invalid_liquidity_type refl))

  parse_indexer-IsBadRequest : (s : Text) → IsBadRequest (parse_indexer u s)
  unfolding parse_indexer
  parse_indexer-IsBadRequest s =
      let kind = to_lower u (trim_space s) in
      if-IsBadRequest (text_eq kind []) _ _ (ok-IsBadRequest prefixado) (
        if-IsBadRequest (text_eq kind (codes "prefixado")) _ _ (ok-IsBadRequest prefixado) (
          if-IsBadRequest (text_eq kind (codes "cdi_percentual")) _ _
            (ok-IsBadRequest cdi_percentual)
            (if-IsBadRequest (text_eq kind (codes "ipca_spread")) _ _ (ok-IsBadRequest ipca_spread)
              (err-IsBadRequest _ invalid_indexer refl))))

  check_maturity-IsBadRequest :
      (is_create : Bool) (now : Time) (required : Bool) (given : Option Time)
      → IsBadRequest (check_maturity is_create now required given)
  check_maturity-IsBadRequest is_create now false given = ok-IsBadRequest none
  check_maturity-IsBadRequest is_create now true none = err-IsBadRequest _ maturity_required refl
  check_maturity-IsBadRequest is_create now true (some d) =
      if-IsBadRequest (is_create && ltb_ℤ d (midnight now)) _ _
        (err-IsBadRequest _ past_maturity refl) (ok-IsBadRequest (some d))

  build_fixed_income_holding-IsBadRequest :
      (now : Time) (input : FixedIncomeInput) (is_create : Bool)
      → IsBadRequest (build_fixed_income_holding u now input is_create)
  unfolding build_fixed_income_holding
  build_fixed_income_holding-IsBadRequest now input is_create =
      then-IsBadRequest _ _ (fail_if-IsBadRequest _ empty_field refl) (
        then-IsBadRequest _ _ (fail_if-IsBadRequest _ invalid_amount refl) (
          then-IsBadRequest _ _ (fail_if-IsBadRequest _ invalid_rate refl) (
            bind-IsBadRequest _ _ (parse_liquidity_type-IsBadRequest input.liquidity_type) (λ lt.
              bind-IsBadRequest _ _ (parse_indexer-IsBadRequest input.indexer_type) (λ i.
                bind-IsBadRequest _ _
                  (check_maturity-IsBadRequest is_create now (requires_maturity lt)
                    input.maturity_date)
                  (λ m. ok-IsBadRequest _))))))

module _ {S : Type 0} (repo : Repository S) (dates : Dates) (u : Unicode) (read : MacroReader)
    (now : Time) (user : Text) (s : S) where
  -- A request of a known user whose FII input the validation rejects, to create or to update, is
  -- answered with 400 and leaves the state as it was.
  pub handle_fii-rejected :
      (id : Text) (req : FiiRequest) (e : Error)
      → build_fii_holding u (fii_input req) ≡ err e
      → (handle_create_fii repo dates u read now (some user) (some req) s ≡ (refuse 400, s))
        × (handle_update_fii repo dates u read now (some user) id (some req) s ≡ (refuse 400, s))
  unfolding handle_create_fii handle_update_fii create_fii_holding update_fii_holding
  handle_fii-rejected id req e bad =
      let code = build_fii_holding-IsBadRequest u (fii_input req) e bad in
      (rw (bad, code) refl, rw (bad, code) refl)

  -- A request of a known user whose fixed-income input parses and the validation rejects, to create
  -- or to update, is answered with 400 and leaves the state as it was.
  handle_fixed-rejected :
      (id : Text) (req : FixedIncomeRequest) (input : FixedIncomeInput) (e f : Error)
      → fixed_income_input dates req ≡ ok input
      → build_fixed_income_holding u now input true ≡ err e
      → build_fixed_income_holding u now input false ≡ err f
      → (handle_create_fixed repo dates u read now (some user) (some req) s ≡ (refuse 400, s))
        × (handle_update_fixed repo dates u read now (some user) id (some req) s ≡ (refuse 400, s))
  unfolding handle_create_fixed handle_update_fixed create_fixed_income_holding
      update_fixed_income_holding
  handle_fixed-rejected id req input e f parsed bad worse =
      let code = build_fixed_income_holding-IsBadRequest u now input true e bad in
      let other = build_fixed_income_holding-IsBadRequest u now input false f worse in
      (rw (parsed, bad, code) refl, rw (parsed, worse, other) refl)
