-- ===== src/Transport/Holdings.antt =====
-- internal/transport/http/holdings.go. A request comes with the user of its context, if any, and its
-- decoded body, if it decodes; the text of an error response is left out.
use yield_forge.Base.{ℕ, Option, none, some, List, [], ◌∷◌, map}
use yield_forge.Base.Int.{ℤ}
use yield_forge.Base.Text.{Text, Unicode}
use yield_forge.Base.Result.{
  Result, ok, err, ◌>>=◌, Error, holding_not_found, invalid_ticker, invalid_quantity,
  negative_amount, empty_field, invalid_amount, invalid_rate, invalid_liquidity_type,
  invalid_indexer, maturity_required, past_maturity, failure,
}
use yield_forge.Marketdata.Quote.{Time}
use yield_forge.Portfolio.Holding.{FiiHolding, FixedIncomeHolding, Indexer, LiquidityType}
use yield_forge.Portfolio.Build.{FiiInput, FixedIncomeInput}
use yield_forge.Portfolio.Service.{
  Repository, MacroReader, create_fii_holding, list_fii_holdings, update_fii_holding,
  delete_fii_holding, create_fixed_income_holding, list_fixed_income_holdings,
  update_fixed_income_holding, delete_fixed_income_holding,
}

pub record FiiRequest : Type 0 where
  pub ticker : Text
  pub quantity : ℤ
  pub average_price_centavos : ℤ

pub record FiiResponse : Type 0 where
  pub id : Text
  pub ticker : Text
  pub quantity : ℤ
  pub average_price_centavos : ℤ
  pub created_at : Time
  pub updated_at : Time

pub record FixedIncomeRequest : Type 0 where
  pub name : Text
  pub institution : Text
  pub invested_amount_centavos : ℤ
  pub annual_rate_bps : ℤ
  pub indexer_type : Text
  pub maturity_date : Option Text
  pub liquidity_type : Text

pub record FixedIncomeResponse : Type 0 where
  pub id : Text
  pub name : Text
  pub institution : Text
  pub invested_amount_centavos : ℤ
  pub annual_rate_bps : ℤ
  pub indexer_type : Indexer
  pub effective_annual_rate_bps : ℤ
  pub maturity_date : Option Text
  pub liquidity_type : LiquidityType
  pub created_at : Time
  pub updated_at : Time

pub record Response (B : Type 0) : Type 0 where
  pub status : ℕ
  pub body : Option B

-- `time.Parse` and `Format` with the layout of a date.
pub record Dates : Type 0 where
  pub parse_date : Text → Option Time
  pub format : Time → Text

abbrev pub fii_input : FiiRequest → FiiInput
fii_input req = record {
  ticker = req.ticker;
  quantity = req.quantity;
  average_price_centavos = req.average_price_centavos;
}

abbrev pub to_fii_response : FiiHolding → FiiResponse
to_fii_response h = record {
  id = h.id;
  ticker = h.ticker.value;
  quantity = h.quantity.value;
  average_price_centavos = h.average_price_centavos;
  created_at = h.created_at;
  updated_at = h.updated_at;
}

module _ (dates : Dates) where
  abbrev parsed_date : Option Time → Result (Option Time)
  parsed_date none = err (failure 4)
  parsed_date (some d) = ok (some d)

  abbrev pub parse_maturity_date : Option Text → Result (Option Time)
  parse_maturity_date none = ok none
  parse_maturity_date (some []) = ok none
  parse_maturity_date (some (c ∷ s)) = parsed_date (dates.parse_date (c ∷ s))

  abbrev pub format_date : Option Time → Option Text
  format_date none = none
  format_date (some d) = some (dates.format d)

  unfoldable pub fixed_income_input : FixedIncomeRequest → Result FixedIncomeInput
  fixed_income_input req = do
    maturity ← parse_maturity_date req.maturity_date
    ok (record {
      name = req.name;
      institution = req.institution;
      invested_amount_centavos = req.invested_amount_centavos;
      annual_rate_bps = req.annual_rate_bps;
      indexer_type = req.indexer_type;
      maturity_date = maturity;
      liquidity_type = req.liquidity_type;
    })

  abbrev pub to_fixed_income_response : FixedIncomeHolding → FixedIncomeResponse
  to_fixed_income_response h = record {
    id = h.id;
    name = h.name;
    institution = h.institution;
    invested_amount_centavos = h.invested_amount_centavos;
    annual_rate_bps = h.annual_rate_bps;
    indexer_type = h.indexer_type;
    effective_annual_rate_bps = h.effective_annual_rate_bps;
    maturity_date = format_date h.maturity_date;
    liquidity_type = h.liquidity_type;
    created_at = h.created_at;
    updated_at = h.updated_at;
  }

-- `writeHoldingError`.
abbrev pub error_status : Error → ℕ
error_status holding_not_found = 404
error_status invalid_ticker = 400
error_status invalid_quantity = 400
error_status negative_amount = 400
error_status empty_field = 400
error_status invalid_amount = 400
error_status invalid_rate = 400
error_status invalid_liquidity_type = 400
error_status invalid_indexer = 400
error_status maturity_required = 400
error_status past_maturity = 400
error_status e = 500

abbrev pub refuse : {B : Type 0} → ℕ → Response B
refuse status = record { status = status; body = none }

abbrev pub respond : {A B : Type 0} → ℕ → (A → B) → Result A → Response B
respond status to_body (ok a) = record { status = status; body = some (to_body a) }
respond status to_body (err e) = refuse (error_status e)

abbrev pub no_content : Result (Unit {0}) → Response (Unit {0})
no_content (ok done) = refuse 204
no_content (err e) = refuse (error_status e)

module _ {S : Type 0} (repo : Repository S) (dates : Dates) (u : Unicode) (read : MacroReader)
    (now : Time) where
  abbrev pub responded : {A B : Type 0} → ℕ → (A → B) → Result A × S → Response B × S
  responded status to_body out = (respond status to_body out.0, out.1)

  unfoldable pub handle_create_fii : Option Text → Option FiiRequest → S → Response FiiResponse × S
  handle_create_fii none body s = (refuse 401, s)
  handle_create_fii (some user) none s = (refuse 400, s)
  handle_create_fii (some user) (some req) s =
      responded 201 to_fii_response (create_fii_holding repo u now user (fii_input req) s)

  unfoldable pub handle_list_fii : Option Text → S → Response (List FiiResponse)
  handle_list_fii none s = refuse 401
  handle_list_fii (some user) s = respond 200 (map to_fii_response) (list_fii_holdings repo user s)

  unfoldable pub handle_update_fii :
      Option Text → Text → Option FiiRequest → S → Response FiiResponse × S
  handle_update_fii none id body s = (refuse 401, s)
  handle_update_fii (some user) id none s = (refuse 400, s)
  handle_update_fii (some user) id (some req) s =
      responded 200 to_fii_response (update_fii_holding repo u now user id (fii_input req) s)

  unfoldable pub handle_delete_fii : Option Text → Text → S → Response (Unit {0}) × S
  handle_delete_fii none id s = (refuse 401, s)
  handle_delete_fii (some user) id s =
      let out = delete_fii_holding repo user id s in (no_content out.0, out.1)

  -- A date that does not parse is refused.
  abbrev pub with_input :
      Result FixedIncomeInput
      → (FixedIncomeInput → S → Response FixedIncomeResponse × S)
      → S
      → Response FixedIncomeResponse × S
  with_input (err e) next s = (refuse 400, s)
  with_input (ok input) next s = next input s

  unfoldable pub handle_create_fixed :
      Option Text → Option FixedIncomeRequest → S → Response FixedIncomeResponse × S
  handle_create_fixed none body s = (refuse 401, s)
  handle_create_fixed (some user) none s = (refuse 400, s)
  handle_create_fixed (some user) (some req) s =
      with_input (fixed_income_input dates req)
        (λ input t.
          responded 201 (to_fixed_income_response dates)
            (create_fixed_income_holding repo u read now user input t))
        s

  unfoldable pub handle_list_fixed : Option Text → S → Response (List FixedIncomeResponse)
  handle_list_fixed none s = refuse 401
  handle_list_fixed (some user) s =
      respond 200 (map (to_fixed_income_response dates))
        (list_fixed_income_holdings repo read user s)

  unfoldable pub handle_update_fixed :
      Option Text → Text → Option FixedIncomeRequest → S → Response FixedIncomeResponse × S
  handle_update_fixed none id body s = (refuse 401, s)
  handle_update_fixed (some user) id none s = (refuse 400, s)
  handle_update_fixed (some user) id (some req) s =
      with_input (fixed_income_input dates req)
        (λ input t.
          responded 200 (to_fixed_income_response dates)
            (update_fixed_income_holding repo u read now user id input t))
        s

  unfoldable pub handle_delete_fixed : Option Text → Text → S → Response (Unit {0}) × S
  handle_delete_fixed none id s = (refuse 401, s)
  handle_delete_fixed (some user) id s =
      let out = delete_fixed_income_holding repo user id s in (no_content out.0, out.1)
