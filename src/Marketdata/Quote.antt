-- ===== src/Marketdata/Quote.antt =====
-- internal/marketdata/quote.go and macro.go. A time is a count of nanoseconds, and the difference
-- of two times, a `time.Duration`, is one too.
use yield_forge.Base.{Option}
use yield_forge.Base.Int.{ℤ}
use yield_forge.Base.Text.{Text}
use yield_forge.Marketdata.Ticker.{Ticker}
use yield_forge.Marketdata.Sector.{Sector}
use yield_forge.Marketdata.Indicator.{Indicator, MeasureUnit}

abbrev pub Time : Type 0
Time = ℤ

pub record FiiQuote : Type 0 where
  pub ticker : Ticker
  pub price_centavos : ℤ
  pub dividend_yield_bps : ℤ
  pub pvp_bps : ℤ
  pub sector : Sector
  pub last_dividend_centavos : ℤ
  pub last_dividend_date : Option Time
  pub source : Text
  pub observed_at : Time
  pub fetched_at : Time

pub record MacroIndicator : Type 0 where
  pub indicator : Indicator
  pub value : ℤ
  pub measure : MeasureUnit
  pub reference_date : Time
  pub source : Text
  pub fetched_at : Time
