-- ===== src/Portfolio/Holding.antt =====
-- internal/portfolio/quantity.go, indexer.go, liquiditytype.go and holding.go. Identifiers are
-- texts; a date is the time of its midnight.
use yield_forge.Base.{Bool, true, false, Option, none, some, List, [], if◌then◌else◌}
use yield_forge.Base.Int.{ℤ, pos, leb_ℤ}
use yield_forge.Base.Int64.{add64}
use yield_forge.Base.Text.{Text, Unicode, codes, text_eq, trim_space, to_lower}
use yield_forge.Base.Dict.{Dict, lookup}
use yield_forge.Base.Result.{
  Result, ok, err, invalid_quantity, invalid_indexer, invalid_liquidity_type,
}
use yield_forge.Money.Ratio.{apply_bps}
use yield_forge.Marketdata.Ticker.{Ticker}
use yield_forge.Marketdata.Indicator.{Indicator, cdi, ipca, indicator_key}
use yield_forge.Marketdata.Quote.{Time, MacroIndicator}

-- `Quantity`, whose zero value holds 0.
pub record Quantity : Type 0 where
  pub value : ℤ

unfoldable pub parse_quantity : ℤ → Result Quantity
parse_quantity n = if leb_ℤ n (pos 0) then err invalid_quantity else ok (record { value = n })

-- `unset` is the zero value "".
pub data Indexer : Type 0 where
  prefixado cdi_percentual ipca_spread unset : Indexer

unfoldable pub parse_indexer : Unicode → Text → Result Indexer
parse_indexer u s =
    let trimmed = to_lower u (trim_space s) in
    if text_eq trimmed []
    then ok prefixado
    else if text_eq trimmed (codes "prefixado")
    then ok prefixado
    else if text_eq trimmed (codes "cdi_percentual")
    then ok cdi_percentual
    else if text_eq trimmed (codes "ipca_spread")
    then ok ipca_spread
    else err invalid_indexer

pub data LiquidityType : Type 0 where
  daily at_maturity : LiquidityType

unfoldable pub parse_liquidity_type : Unicode → Text → Result LiquidityType
parse_liquidity_type u s =
    let lt = to_lower u (trim_space s) in
    if text_eq lt (codes "daily")
    then ok daily
    else if text_eq lt (codes "at_maturity")
    then ok at_maturity
    else err invalid_liquidity_type

abbrev pub requires_maturity : LiquidityType → Bool
requires_maturity daily = false
requires_maturity at_maturity = true

pub record FiiHolding : Type 0 where
  pub id : Text
  pub user_id : Text
  pub ticker : Ticker
  pub quantity : Quantity
  pub average_price_centavos : ℤ
  pub created_at : Time
  pub updated_at : Time

pub record FixedIncomeHolding : Type 0 where
  pub id : Text
  pub user_id : Text
  pub name : Text
  pub institution : Text
  pub invested_amount_centavos : ℤ
  pub annual_rate_bps : ℤ
  pub indexer_type : Indexer
  pub effective_annual_rate_bps : ℤ
  pub maturity_date : Option Time
  pub liquidity_type : LiquidityType
  pub created_at : Time
  pub updated_at : Time

pub record Holdings : Type 0 where
  pub fii : List FiiHolding
  pub fixed_income : List FixedIncomeHolding

abbrev pub MacroMap : Type 0
MacroMap = Dict Indicator MacroIndicator

abbrev resolve_cdi : ℤ → Option MacroIndicator → ℤ
resolve_cdi rate none = rate
resolve_cdi rate (some m) = apply_bps m.value rate

abbrev resolve_ipca : ℤ → Option MacroIndicator → ℤ
resolve_ipca rate none = rate
resolve_ipca rate (some m) = add64 rate m.value

abbrev resolve_rate : Indexer → ℤ → MacroMap → ℤ
resolve_rate cdi_percentual rate rates = resolve_cdi rate (lookup cdi rates)
resolve_rate ipca_spread rate rates = resolve_ipca rate (lookup ipca rates)
resolve_rate prefixado rate rates = rate
resolve_rate unset rate rates = rate

unfoldable pub resolve_effective_rate : FixedIncomeHolding → MacroMap → ℤ
resolve_effective_rate h rates = resolve_rate h.indexer_type h.annual_rate_bps rates
