-- ===== src/Marketdata/Counts.antt =====
-- internal/marketdata/ingest/worker.go: the counts of a run.
use yield_forge.Base.{ℕ, ◌+◌, List, [], ◌∷◌, length, ◌≡◌, inl, inr, arith}
use yield_forge.Base.Result.{Result, ok, err, Result-cases}
use yield_forge.Marketdata.Ticker.{Ticker}
use yield_forge.Marketdata.Indicator.{Indicator, all_indicators}
use yield_forge.Marketdata.Quote.{Time, FiiQuote}
use yield_forge.Marketdata.Ingest.{
  MarketDataProvider, MarketRepository, Summary, store_quotes, ingest_fii, store_macro,
  ingest_macro, no_summary, run_once, count_fii, count_macro,
}

abbrev attempts : ℕ → Result (List (Ticker × FiiQuote)) → ℕ
attempts count (ok quotes) = length quotes
attempts count (err e) = count

-- One failure where the source of the tickers fails, none where it has none, each ticker where the
-- provider fails, and otherwise the quotes that it gives.
abbrev fii_attempts : MarketDataProvider → Result (List Ticker) → ℕ
fii_attempts provider (err e) = 1
fii_attempts provider (ok []) = 0
fii_attempts provider (ok (t ∷ ts)) =
    attempts (length (t ∷ ts)) (provider.fetch_fii_quotes (t ∷ ts))

abbrev fii_total : Summary → ℕ
fii_total sum = sum.fii_ok + sum.fii_failed

abbrev macro_total : Summary → ℕ
macro_total sum = sum.macro_ok + sum.macro_failed

-- The counts of the second summary are those of the first and as many more.
record IsCounted (sum after : Summary) (fii macros : ℕ) : Type 0 where
  fii_counted : fii_total after ≡ fii_total sum + fii
  macro_counted : macro_total after ≡ macro_total sum + macros

module _ {S : Type 0} (repo : MarketRepository S) (provider : MarketDataProvider) where
  count_fii-IsCounted :
      (r : Result (Unit {0})) (sum : Summary) → IsCounted sum (count_fii repo provider r sum) 1 0
  count_fii-IsCounted (ok done) sum = record {
    fii_counted = omega arith;
    macro_counted = omega arith;
  }
  count_fii-IsCounted (err e) sum = record {
    fii_counted = omega arith;
    macro_counted = omega arith;
  }

  store_quotes-IsCounted :
      (quotes : List (Ticker × FiiQuote)) (s : S) (sum : Summary)
      → IsCounted sum (store_quotes repo provider quotes s sum).0 (length quotes) 0
  unfolding store_quotes
  store_quotes-IsCounted [] s sum = record {
    fii_counted = omega arith;
    macro_counted = omega arith;
  }
  store_quotes-IsCounted ((t, q) ∷ quotes) s sum =
      let out = repo.upsert_fii_quote q s in
      let first = count_fii-IsCounted out.0 sum in
      let rest = store_quotes-IsCounted quotes out.1 (count_fii repo provider out.0 sum) in
      record {
        fii_counted = omega (arith, first.fii_counted, rest.fii_counted);
        macro_counted = omega (arith, first.macro_counted, rest.macro_counted);
      }

  ingest_fii-IsCounted :
      (tickers : Result (List Ticker)) (s : S) (sum : Summary)
      → IsCounted sum (ingest_fii repo provider tickers s sum).0 (fii_attempts provider tickers) 0
  ingest_fii-IsCounted (err e) s sum = record {
    fii_counted = omega arith;
    macro_counted = omega arith;
  }
  ingest_fii-IsCounted (ok []) s sum = record {
    fii_counted = omega arith;
    macro_counted = omega arith;
  }
  ingest_fii-IsCounted (ok (t ∷ ts)) s sum =
      elim (Result-cases (provider.fetch_fii_quotes (t ∷ ts))) [
        | inl (quotes, fetched) ↦ rw fetched (store_quotes-IsCounted quotes s sum)
        | inr (e, failed) ↦
            rw failed (record { fii_counted = omega arith; macro_counted = omega arith })
      ]

  count_macro-IsCounted :
      (r : Result (Unit {0})) (sum : Summary) → IsCounted sum (count_macro repo provider r sum) 0 1
  count_macro-IsCounted (ok done) sum = record {
    fii_counted = omega arith;
    macro_counted = omega arith;
  }
  count_macro-IsCounted (err e) sum = record {
    fii_counted = omega arith;
    macro_counted = omega arith;
  }

  ingest_macro-IsCounted :
      (inds : List Indicator) (s : S) (sum : Summary)
      → IsCounted sum (ingest_macro repo provider inds s sum).0 0 (length inds)
  unfolding ingest_macro
  ingest_macro-IsCounted [] s sum = record {
    fii_counted = omega arith;
    macro_counted = omega arith;
  }
  ingest_macro-IsCounted (i ∷ inds) s sum =
      let out = store_macro repo provider (provider.fetch_macro_indicator i) s sum in
      let first : IsCounted sum out.0 0 1 = elim (Result-cases (provider.fetch_macro_indicator i)) [
        | inl (m, fetched) ↦
            rw fetched (count_macro-IsCounted (repo.upsert_macro_indicator m s).0 sum)
        | inr (e, failed) ↦
            rw failed (record { fii_counted = omega arith; macro_counted = omega arith })
      ] in
      let rest = ingest_macro-IsCounted inds out.1 out.0 in
      record {
        fii_counted = omega (arith, first.fii_counted, rest.fii_counted);
        macro_counted = omega (arith, first.macro_counted, rest.macro_counted);
      }

  -- A run counts one success or failure for each of the four indicators, and for the quotes: one
  -- failure where the source of tickers fails, none where it has none, one for each ticker where the
  -- provider fails, and otherwise one success or failure for each quote that the provider gives.
  run_once-counts :
      (tickers : Result (List Ticker)) (now : Time) (s : S)
      → let sum = (run_once repo provider tickers now s).0 in
        (sum.fii_ok + sum.fii_failed ≡ fii_attempts provider tickers)
        × (sum.macro_ok + sum.macro_failed ≡ 4)
  unfolding run_once
  run_once-counts tickers now s =
      let first = ingest_fii repo provider tickers s (no_summary repo provider) in
      let a = ingest_fii-IsCounted tickers s (no_summary repo provider) in
      let b = ingest_macro-IsCounted all_indicators first.1 first.0 in
      (omega (arith, a.fii_counted, b.fii_counted), omega (arith, a.macro_counted, b.macro_counted))
