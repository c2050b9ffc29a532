-- ===== src/Marketdata/Ingest.antt =====
-- internal/marketdata/ingest/worker.go: one run of the worker, over the provider, the repositories and
-- the source of tickers. Spans, counters and log lines are left out. The order in which the quotes of
-- the provider's map are taken is that of the list.
use yield_forge.Base.{ℕ, suc, ◌+◌, ◌==◌, List, [], ◌∷◌, length, if◌then◌else◌}
use yield_forge.Base.Result.{Result, ok, err}
use yield_forge.Base.Effect.{Op}
use yield_forge.Base.Database.{Database}
use yield_forge.Marketdata.Ticker.{Ticker}
use yield_forge.Marketdata.Indicator.{Indicator, all_indicators}
use yield_forge.Marketdata.Quote.{Time, FiiQuote, MacroIndicator}
use yield_forge.Marketdata.Postgres.{MarketTables, upsert_fii_quote, upsert_macro_indicator}

pub record MarketDataProvider : Type 0 where
  pub fetch_fii_quotes : List Ticker → Result (List (Ticker × FiiQuote))
  pub fetch_macro_indicator : Indicator → Result MacroIndicator

-- The writing halves of FIIQuoteRepository and MacroRepository, over states S.
pub record MarketRepository (S : Type 0) : Type 0 where
  pub upsert_fii_quote : FiiQuote → Op S (Unit {0})
  pub upsert_macro_indicator : MacroIndicator → Op S (Unit {0})

pub record Summary : Type 0 where
  pub fii_ok : ℕ
  pub fii_failed : ℕ
  pub macro_ok : ℕ
  pub macro_failed : ℕ

pub data Outcome : Type 0 where
  success error partial : Outcome

abbrev pub outcome : Summary → Outcome
outcome s =
    if s.fii_failed + s.macro_failed == 0
    then success
    else if s.fii_ok + s.macro_ok == 0
    then error
    else partial

module _ {S : Type 0} (repo : MarketRepository S) (provider : MarketDataProvider) where
  abbrev pub count_fii : Result (Unit {0}) → Summary → Summary
  count_fii (ok done) sum = record sum { fii_ok = suc sum.fii_ok }
  count_fii (err e) sum = record sum { fii_failed = suc sum.fii_failed }

  abbrev pub count_macro : Result (Unit {0}) → Summary → Summary
  count_macro (ok done) sum = record sum { macro_ok = suc sum.macro_ok }
  count_macro (err e) sum = record sum { macro_failed = suc sum.macro_failed }

  unfoldable pub store_quotes : List (Ticker × FiiQuote) → S → Summary → Summary × S
  store_quotes [] s sum = (sum, s)
  store_quotes ((t, q) ∷ quotes) s sum =
      let out = repo.upsert_fii_quote q s in store_quotes quotes out.1 (count_fii out.0 sum)

  -- An error keeps what is stored for every ticker.
  abbrev pub store_fetched : ℕ → Result (List (Ticker × FiiQuote)) → S → Summary → Summary × S
  store_fetched count (err e) s sum = (record sum { fii_failed = sum.fii_failed + count }, s)
  store_fetched count (ok quotes) s sum = store_quotes quotes s sum

  abbrev pub ingest_fii : Result (List Ticker) → S → Summary → Summary × S
  ingest_fii (err e) s sum = (record sum { fii_failed = suc sum.fii_failed }, s)
  ingest_fii (ok []) s sum = (sum, s)
  ingest_fii (ok (t ∷ ts)) s sum =
      store_fetched (length (t ∷ ts)) (provider.fetch_fii_quotes (t ∷ ts)) s sum

  abbrev pub store_macro : Result MacroIndicator → S → Summary → Summary × S
  store_macro (err e) s sum = (record sum { macro_failed = suc sum.macro_failed }, s)
  store_macro (ok m) s sum =
      let out = repo.upsert_macro_indicator m s in (count_macro out.0 sum, out.1)

  unfoldable pub ingest_macro : List Indicator → S → Summary → Summary × S
  ingest_macro [] s sum = (sum, s)
  ingest_macro (ind ∷ inds) s sum =
      let out = store_macro (provider.fetch_macro_indicator ind) s sum in
      ingest_macro inds out.1 out.0

  abbrev pub no_summary : Summary
  no_summary = record { fii_ok = 0; fii_failed = 0; macro_ok = 0; macro_failed = 0 }

  -- The summary, the state of the repositories and the time of the run that is kept.
  unfoldable pub run_once : Result (List Ticker) → Time → S → Summary × S × Time
  run_once tickers now s =
      let first = ingest_fii tickers s no_summary in
      let second = ingest_macro all_indicators first.1 first.0 in (second.0, second.1, now)

abbrev pub stored : Database → MarketRepository MarketTables
stored db = record {
  upsert_fii_quote = upsert_fii_quote db;
  upsert_macro_indicator = upsert_macro_indicator db;
}
