-- ===== src/Marketdata/Postgres.antt =====
-- internal/marketdata/postgres/postgres.go: the two repositories over the tables of
-- migrations/0003_market_data.up.sql. A sector and a unit are stored as they are and read back
-- unchanged, so that the rows hold them as values.
use yield_forge.Base.{Bool, ◌&&◌, Option, none, some, List, [], ◌∷◌, if◌then◌else◌}
use yield_forge.Base.Int.{ℤ, ltb_ℤ, leb_ℤ}
use yield_forge.Base.Text.{Text, Unicode, text_eq}
use yield_forge.Base.Result.{Result, ok, err, ◌>>=◌, fii_quote_not_found, macro_not_found}
use yield_forge.Base.Unique.{find_by, upsert}
use yield_forge.Base.Effect.{Op}
use yield_forge.Base.Database.{Database, sql_error, fits_integer}
use yield_forge.Marketdata.Ticker.{Ticker, parse_ticker}
use yield_forge.Marketdata.Sector.{Sector}
use yield_forge.Marketdata.Indicator.{Indicator, indicator_eq}
use yield_forge.Marketdata.Quote.{Time, FiiQuote, MacroIndicator}

pub record QuoteRow : Type 0 where
  pub ticker : Text
  pub price_centavos : ℤ
  pub dividend_yield_bps : ℤ
  pub pvp_bps : ℤ
  pub sector : Sector
  pub last_dividend_centavos : ℤ
  pub last_dividend_date : Option Time
  pub source : Text
  pub observed_at : Time
  pub fetched_at : Time

-- The rows of macro_indicators are observations with a date in place of a time.
pub record MarketTables : Type 0 where
  pub quotes : List QuoteRow
  pub macros : List MacroIndicator

abbrev pub row_ticker : QuoteRow → Text
row_ticker r = r.ticker

abbrev pub same_ticker : QuoteRow → QuoteRow → Bool
same_ticker r s = text_eq s.ticker r.ticker

abbrev pub same_observation : MacroIndicator → MacroIndicator → Bool
same_observation m n =
    indicator_eq n.indicator m.indicator
    && (leb_ℤ m.reference_date n.reference_date && leb_ℤ n.reference_date m.reference_date)

module _ (db : Database) where
  abbrev null_date : Option Time → Option Time
  null_date none = none
  null_date (some d) = some (db.date d)

  abbrev pub quote_row : FiiQuote → QuoteRow
  quote_row q = record {
    ticker = q.ticker.value;
    price_centavos = q.price_centavos;
    dividend_yield_bps = q.dividend_yield_bps;
    pvp_bps = q.pvp_bps;
    sector = q.sector;
    last_dividend_centavos = q.last_dividend_centavos;
    last_dividend_date = null_date q.last_dividend_date;
    source = q.source;
    observed_at = db.timestamp q.observed_at;
    fetched_at = db.timestamp q.fetched_at;
  }

  unfoldable pub upsert_fii_quote : FiiQuote → Op MarketTables (Unit {0})
  upsert_fii_quote q s =
      if fits_integer q.dividend_yield_bps && fits_integer q.pvp_bps
      then (ok tt, record s { quotes = upsert same_ticker (quote_row q) s.quotes })
      else (err sql_error, s)

  abbrev pub macro_row : MacroIndicator → MacroIndicator
  macro_row m = record m {
    reference_date = db.date m.reference_date;
    fetched_at = db.timestamp m.fetched_at;
  }

  unfoldable pub upsert_macro_indicator : MacroIndicator → Op MarketTables (Unit {0})
  upsert_macro_indicator m s =
      (ok tt, record s { macros = upsert same_observation (macro_row m) s.macros })

unfoldable pub scan_fii_quote : Unicode → QuoteRow → Result FiiQuote
scan_fii_quote u r = do
  t ← parse_ticker u r.ticker
  ok (record {
    ticker = t;
    price_centavos = r.price_centavos;
    dividend_yield_bps = r.dividend_yield_bps;
    pvp_bps = r.pvp_bps;
    sector = r.sector;
    last_dividend_centavos = r.last_dividend_centavos;
    last_dividend_date = r.last_dividend_date;
    source = r.source;
    observed_at = r.observed_at;
    fetched_at = r.fetched_at;
  })

abbrev pub scan_found : Unicode → Option QuoteRow → Result FiiQuote
scan_found u none = err fii_quote_not_found
scan_found u (some r) = scan_fii_quote u r

unfoldable pub get_fii_quote_by_ticker : Unicode → Ticker → MarketTables → Result FiiQuote
get_fii_quote_by_ticker u t s = scan_found u (find_by row_ticker t.value s.quotes)

-- `WHERE indicator = … ORDER BY reference_date DESC LIMIT 1`.
abbrev pub newer : MacroIndicator → Option MacroIndicator → Option MacroIndicator
newer m none = some m
newer m (some n) = if ltb_ℤ m.reference_date n.reference_date then some n else some m

unfoldable pub newest : Indicator → List MacroIndicator → Option MacroIndicator
newest ind [] = none
newest ind (m ∷ ms) =
    let rest = newest ind ms in if indicator_eq m.indicator ind then newer m rest else rest

abbrev pub observed : Option MacroIndicator → Result MacroIndicator
observed none = err macro_not_found
observed (some m) = ok m

unfoldable pub get_latest_macro_indicator : Indicator → MarketTables → Result MacroIndicator
get_latest_macro_indicator ind s = observed (newest ind s.macros)
