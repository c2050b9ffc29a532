-- ===== src/Portfolio/Build.antt =====
-- internal/portfolio/service.go: building a holding from its raw input. The clock's now is an
-- argument.
use yield_forge.Base.{
  ℕ, ◌+◌, ◌/◌, ◌*◌, Bool, true, false, ◌&&◌, ◌||◌, Option, none, some, [], if◌then◌else◌,
}
use yield_forge.Base.Int.{ℤ, pos, negsuc, leb_ℤ, ltb_ℤ, ◌-ℤ◌}
use yield_forge.Base.Text.{Text, Unicode, text_eq, trim_space}
use yield_forge.Base.Result.{
  Result, ok, err, ◌>>=◌, ◌>>◌, fail_if, negative_amount, empty_field, invalid_amount, invalid_rate,
  maturity_required, past_maturity,
}
use yield_forge.Marketdata.Ticker.{parse_ticker}
use yield_forge.Marketdata.Quote.{Time}
use yield_forge.Portfolio.Holding.{
  FiiHolding, FixedIncomeHolding, parse_quantity, parse_indexer, parse_liquidity_type,
  requires_maturity,
}

pub record FiiInput : Type 0 where
  pub ticker : Text
  pub quantity : ℤ
  pub average_price_centavos : ℤ

pub record FixedIncomeInput : Type 0 where
  pub name : Text
  pub institution : Text
  pub invested_amount_centavos : ℤ
  pub annual_rate_bps : ℤ
  pub indexer_type : Text
  pub maturity_date : Option Time
  pub liquidity_type : Text

-- `buildFIIHolding` leaves the identity and the times at their zero values.
unfoldable pub build_fii_holding : Unicode → FiiInput → Result FiiHolding
build_fii_holding u input = do
  ticker ← parse_ticker u input.ticker
  quantity ← parse_quantity input.quantity
  fail_if (ltb_ℤ input.average_price_centavos (pos 0)) negative_amount
  ok (record {
    id = [];
    user_id = [];
    ticker = ticker;
    quantity = quantity;
    average_price_centavos = input.average_price_centavos;
    created_at = pos 0;
    updated_at = pos 0;
  })

-- The nanoseconds of a day.
abbrev pub day : ℕ
day = 86400 * 1000000000

-- `today`: the midnight of the clock's now, a count of nanoseconds from a midnight.
abbrev pub midnight : Time → Time
midnight (pos n) = pos (n / day * day)
midnight (negsuc n) = pos 0 -ℤ pos ((n / day + 1) * day)

-- The maturity that the holding carries; `is_create` asks for one that is not past.
abbrev pub check_maturity : Bool → Time → Bool → Option Time → Result (Option Time)
check_maturity is_create now false maturity = ok none
check_maturity is_create now true none = err maturity_required
check_maturity is_create now true (some maturity) =
    if is_create && ltb_ℤ maturity (midnight now) then err past_maturity else ok (some maturity)

unfoldable pub build_fixed_income_holding :
    Unicode → Time → FixedIncomeInput → Bool → Result FixedIncomeHolding
build_fixed_income_holding u now input is_create = do
  let name = trim_space input.name
  let institution = trim_space input.institution
  fail_if (text_eq name [] || text_eq institution []) empty_field
  fail_if (leb_ℤ input.invested_amount_centavos (pos 0)) invalid_amount
  fail_if (ltb_ℤ input.annual_rate_bps (pos 0)) invalid_rate
  lt ← parse_liquidity_type u input.liquidity_type
  idx ← parse_indexer u input.indexer_type
  maturity ← check_maturity is_create now (requires_maturity lt) input.maturity_date
  ok (record {
    id = [];
    user_id = [];
    name = name;
    institution = institution;
    invested_amount_centavos = input.invested_amount_centavos;
    annual_rate_bps = input.annual_rate_bps;
    indexer_type = idx;
    effective_annual_rate_bps = pos 0;
    maturity_date = maturity;
    liquidity_type = lt;
    created_at = pos 0;
    updated_at = pos 0;
  })
