-- ===== src/Marketdata.antt =====
-- internal/marketdata: tickers, sectors, indicators, quotes.
pub mod Ticker
pub mod Sector
pub mod Indicator
pub mod Quote
pub mod Postgres
pub mod Ingest
pub mod Sources
pub mod Kept
pub mod Counts
