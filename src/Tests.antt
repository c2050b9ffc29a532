-- ===== src/Tests.antt =====
-- Runs of the modelled code at concrete inputs, and the theorems applied there.
pub mod Money
pub mod Portfolio
pub mod Advice
pub mod Store
pub mod Auth
pub mod Config
pub mod History
pub mod Cache
pub mod Market
pub mod Transport
use yield_forge.Base.{none, some, [], ◌∷◌}
use yield_forge.Base.Database.{Database}
use yield_forge.Base.Int.{pos}
use yield_forge.Base.Text.{Unicode, codes}
use yield_forge.Marketdata.Ticker.{Ticker}
use yield_forge.Marketdata.Sector.{logistics}
use yield_forge.Marketdata.Quote.{FiiQuote}

-- A table that changes no letter beyond ASCII.
abbrev pub plain : Unicode
plain = record { wide_lower = λ c. c; wide_upper = λ c. c }

abbrev pub fund : Ticker
fund = record { value = codes "HGLG11" }

abbrev pub quote : FiiQuote
quote = record {
  ticker = fund;
  price_centavos = pos 16500;
  dividend_yield_bps = pos 850;
  pvp_bps = pos 9800;
  sector = logistics;
  last_dividend_centavos = pos 110;
  last_dividend_date = none;
  source = codes "fundamentus";
  observed_at = pos 0;
  fetched_at = pos 0;
}

-- A database that casts nothing and numbers its identifiers.
abbrev pub database : Database
database = record {
  uuid = λ t. some t;
  timestamp = λ t. t;
  date = λ t. t;
  new_id = λ n. n ∷ [];
  now = λ n. pos n;
}
