-- ===== src/Portfolio/Postgres.antt =====
-- internal/portfolio/postgres/postgres.go: the repository over two tables, with the constraints of
-- migrations/0005_holdings.up.sql and 0007_fixed_income_indexer.up.sql. The statements are modelled
-- as PostgreSQL runs them.

pub mod Statements
pub mod Isolation
pub mod Runs
use yield_forge.Base.{
  ℕ, suc, ◌+◌, ◌-◌, ◌^◌, Bool, true, false, ◌&&◌, not, Option, none, some, List, [], ◌∷◌, ◌++◌,
  if◌then◌else◌, ◌≡◌, refl,
}
use yield_forge.Base.Int.{ℤ, pos, negsuc, leb_ℤ, ltb_ℤ}
use yield_forge.Base.Text.{Text, Unicode, codes, text_eq}
use yield_forge.Base.Result.{Result, ok, err, ◌>>=◌, Error, failure, holding_not_found}
use yield_forge.Base.Table.{Columns, find_row, update_rows, delete_rows, owned_rows, sort_rows}
use yield_forge.Base.Database.{Database}
use yield_forge.Marketdata.Ticker.{Ticker, parse_ticker}
use yield_forge.Marketdata.Quote.{Time}
use yield_forge.Portfolio.Holding.{
  FiiHolding, FixedIncomeHolding, Indexer, prefixado, cdi_percentual, ipca_spread, unset,
  LiquidityType, daily, at_maturity, parse_quantity, parse_indexer, parse_liquidity_type,
}
use yield_forge.Portfolio.Service.{Repository}

pub record FiiRow : Type 0 where
  pub id : Text
  pub user_id : Text
  pub ticker : Text
  pub quantity : ℤ
  pub average_price_centavos : ℤ
  pub created_at : Time
  pub updated_at : Time

pub record FixedRow : Type 0 where
  pub id : Text
  pub user_id : Text
  pub name : Text
  pub institution : Text
  pub invested_amount_centavos : ℤ
  pub annual_rate_bps : ℤ
  pub indexer_type : Text
  pub maturity_date : Option Time
  pub liquidity_type : Text
  pub created_at : Time
  pub updated_at : Time

-- The tables, the identifiers of the users table, and how many identifiers were drawn.
pub record Tables : Type 0 where
  pub fii_rows : List FiiRow
  pub fixed_rows : List FixedRow
  pub users : List Text
  pub drawn : ℕ

abbrev pub fii_columns : Columns FiiRow
fii_columns = record {
  id_of = λ r. r.id;
  owner_of = λ r. r.user_id;
  created_of = λ r. r.created_at;
}

abbrev pub fixed_columns : Columns FixedRow
fixed_columns = record {
  id_of = λ r. r.id;
  owner_of = λ r. r.user_id;
  created_of = λ r. r.created_at;
}

unfoldable pub rebuild_fii : Unicode → FiiRow → Result FiiHolding
rebuild_fii u r = do
  t ← parse_ticker u r.ticker
  q ← parse_quantity r.quantity
  ok (record {
    id = r.id;
    user_id = r.user_id;
    ticker = t;
    quantity = q;
    average_price_centavos = r.average_price_centavos;
    created_at = r.created_at;
    updated_at = r.updated_at;
  })

unfoldable pub rebuild_fixed_income : Unicode → FixedRow → Result FixedIncomeHolding
rebuild_fixed_income u r = do
  lt ← parse_liquidity_type u r.liquidity_type
  idx ← parse_indexer u r.indexer_type
  ok (record {
    id = r.id;
    user_id = r.user_id;
    name = r.name;
    institution = r.institution;
    invested_amount_centavos = r.invested_amount_centavos;
    annual_rate_bps = r.annual_rate_bps;
    indexer_type = idx;
    effective_annual_rate_bps = pos 0;
    maturity_date = r.maturity_date;
    liquidity_type = lt;
    created_at = r.created_at;
    updated_at = r.updated_at;
  })

-- The loop over the rows of a result.
unfoldable pub scan_rows : {R H : Type 0} → (R → Result H) → List R → Result (List H)
scan_rows rebuild [] = ok []
scan_rows rebuild (r ∷ rs) = do h ← rebuild r; out ← scan_rows rebuild rs; ok (h ∷ out)

abbrev pub indexer_or_default : Indexer → Text
indexer_or_default prefixado = codes "prefixado"
indexer_or_default cdi_percentual = codes "cdi_percentual"
indexer_or_default ipca_spread = codes "ipca_spread"
indexer_or_default unset = codes "prefixado"

abbrev pub liquidity_text : LiquidityType → Text
liquidity_text daily = codes "daily"
liquidity_text at_maturity = codes "at_maturity"

module _ (db : Database) where
  abbrev pub nullable_date : Option Time → Option Time
  nullable_date none = none
  nullable_date (some d) = some (db.date d)

  -- The rows that the two INSERT statements add.
  abbrev pub new_fii_row : Text → ℕ → FiiHolding → FiiRow
  new_fii_row owner n h = record {
    id = db.new_id n;
    user_id = owner;
    ticker = h.ticker.value;
    quantity = h.quantity.value;
    average_price_centavos = h.average_price_centavos;
    created_at = db.timestamp h.created_at;
    updated_at = db.timestamp h.updated_at;
  }

  abbrev pub new_fixed_row : Text → ℕ → FixedIncomeHolding → FixedRow
  new_fixed_row owner n h = record {
    id = db.new_id n;
    user_id = owner;
    name = h.name;
    institution = h.institution;
    invested_amount_centavos = h.invested_amount_centavos;
    annual_rate_bps = h.annual_rate_bps;
    indexer_type = indexer_or_default h.indexer_type;
    maturity_date = nullable_date h.maturity_date;
    liquidity_type = liquidity_text h.liquidity_type;
    created_at = db.timestamp h.created_at;
    updated_at = db.timestamp h.updated_at;
  }

  -- The assignments of the two UPDATE statements.
  abbrev pub set_fii : FiiHolding → FiiRow → FiiRow
  set_fii h r = record r {
    ticker = h.ticker.value;
    quantity = h.quantity.value;
    average_price_centavos = h.average_price_centavos;
    updated_at = db.timestamp h.updated_at;
  }

  abbrev pub set_fixed : FixedIncomeHolding → FixedRow → FixedRow
  set_fixed h r = record r {
    name = h.name;
    institution = h.institution;
    invested_amount_centavos = h.invested_amount_centavos;
    annual_rate_bps = h.annual_rate_bps;
    indexer_type = indexer_or_default h.indexer_type;
    maturity_date = nullable_date h.maturity_date;
    liquidity_type = liquidity_text h.liquidity_type;
    updated_at = db.timestamp h.updated_at;
  }
