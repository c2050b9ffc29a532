-- ===== src/Marketdata/Kept.antt =====
-- internal/marketdata/ingest: what a run leaves as it was, and what it counts.
use yield_forge.Base.{
  false, ◌&&◌, List, [], ◌∷◌, ◌≡◌, ◌≢◌, refl, ap, ◌∙◌, inl, inr, arith, All, Bool-cases,
}
use yield_forge.Base.Text.{Text, Unicode, text_eq_iff}
use yield_forge.Base.Result.{Result, ok, err, Result-cases}
use yield_forge.Base.Unique.{find_by, upsert}
use yield_forge.Base.Database.{Database, fits_integer}
use yield_forge.Marketdata.Ticker.{Ticker}
use yield_forge.Marketdata.Indicator.{Indicator, all_indicators, indicator_eq, indicator_eq_iff}
use yield_forge.Marketdata.Quote.{Time, FiiQuote, MacroIndicator}
use yield_forge.Marketdata.Postgres.{
  QuoteRow, MarketTables, row_ticker, same_ticker, same_observation, quote_row, macro_row, newest,
  scan_found, observed, upsert_fii_quote, upsert_macro_indicator, get_fii_quote_by_ticker,
  get_latest_macro_indicator,
}
use yield_forge.Marketdata.Ingest.{
  MarketDataProvider, Summary, stored, store_quotes, ingest_fii, store_macro, ingest_macro,
  no_summary, run_once, count_fii,
}

find_by-upsert :
    (t : Text) (r : QuoteRow) (rs : List QuoteRow)
    → r.ticker ≢ t
    → find_by row_ticker t (upsert same_ticker r rs) ≡ find_by row_ticker t rs
unfolding find_by upsert
find_by-upsert t r [] ne = ground (arith, text_eq_iff r.ticker t)
find_by-upsert t r (s ∷ rs) ne = ground (
  arith,
  text_eq_iff r.ticker t,
  text_eq_iff s.ticker r.ticker,
  text_eq_iff s.ticker t,
  find_by-upsert t r rs ne,
)

newest-upsert :
    (ind : Indicator) (m : MacroIndicator) (ms : List MacroIndicator)
    → m.indicator ≢ ind
    → newest ind (upsert same_observation m ms) ≡ newest ind ms
unfolding newest upsert
newest-upsert ind m [] ne = ground (arith, indicator_eq_iff m.indicator ind)
newest-upsert ind m (n ∷ ms) ne =
    let rest = newest-upsert ind m ms ne in
    elim (Bool-cases (indicator_eq m.indicator ind)) [
      | inl same ↦ absurd (ne ((indicator_eq_iff m.indicator ind).0 same))
      | inr apart ↦ elim (Bool-cases (same_observation m n)) [
        | inl replaced ↦
            let one : n.indicator ≡ m.indicator =
              (indicator_eq_iff n.indicator m.indicator).0 (ground (arith, replaced)) in
            let away : indicator_eq n.indicator ind ≡ false = rw one apart in
            rw (replaced, apart, away) refl
        | inr kept ↦ rw (kept, rest) refl
      ]
    ]

module _ (db : Database) (provider : MarketDataProvider) (t : Ticker) (ind : Indicator) where
  -- The row of the ticker and the newest observation of the indicator are the same.
  record IsKept (s after : MarketTables) : Type 0 where
    quote : find_by row_ticker t.value after.quotes ≡ find_by row_ticker t.value s.quotes
    observation : newest ind after.macros ≡ newest ind s.macros

  unchanged : (s : MarketTables) → IsKept s s
  unchanged s = record { quote = refl; observation = refl }

  upsert_fii_quote-IsKept :
      (q : FiiQuote) (s : MarketTables)
      → q.ticker.value ≢ t.value
      → IsKept s (upsert_fii_quote db q s).1
  unfolding upsert_fii_quote
  upsert_fii_quote-IsKept q s ne =
      elim (Bool-cases (fits_integer q.dividend_yield_bps && fits_integer q.pvp_bps)) [
        | inl fits ↦ rw fits (record {
          quote = find_by-upsert t.value (quote_row db q) s.quotes ne;
          observation = refl;
        })
        | inr large ↦ rw large (unchanged s)
      ]

  upsert_macro_indicator-IsKept :
      (m : MacroIndicator) (s : MarketTables)
      → m.indicator ≢ ind
      → IsKept s (upsert_macro_indicator db m s).1
  unfolding upsert_macro_indicator
  upsert_macro_indicator-IsKept m s ne = record {
    quote = refl;
    observation = newest-upsert ind (macro_row db m) s.macros ne;
  }

  IsKept-trans : (r s after : MarketTables) → IsKept r s → IsKept s after → IsKept r after
  IsKept-trans r s after a b = record {
    quote = b.quote ∙ a.quote;
    observation = b.observation ∙ a.observation;
  }

  abbrev IsOtherQuote : Ticker × FiiQuote → Type 0
  IsOtherQuote p = p.1.ticker.value ≢ t.value

  store_quotes-IsKept :
      (quotes : List (Ticker × FiiQuote)) (s : MarketTables) (sum : Summary)
      → All IsOtherQuote quotes
      → IsKept s (store_quotes (stored db) provider quotes s sum).1
  unfolding store_quotes
  store_quotes-IsKept [] s sum a = unchanged s
  store_quotes-IsKept ((k, q) ∷ quotes) s sum (ne, a) =
      let out = upsert_fii_quote db q s in
      IsKept-trans s out.1 _ (upsert_fii_quote-IsKept q s ne)
        (store_quotes-IsKept quotes out.1 (count_fii (stored db) provider out.0 sum) a)

  ingest_fii-IsKept :
      (tickers : Result (List Ticker)) (s : MarketTables) (sum : Summary)
      → ((ts : List Ticker) (quotes : List (Ticker × FiiQuote))
          → provider.fetch_fii_quotes ts ≡ ok quotes
          → All IsOtherQuote quotes)
      → IsKept s (ingest_fii (stored db) provider tickers s sum).1
  ingest_fii-IsKept (err e) s sum others = unchanged s
  ingest_fii-IsKept (ok []) s sum others = unchanged s
  ingest_fii-IsKept (ok (k ∷ ks)) s sum others =
      elim (Result-cases (provider.fetch_fii_quotes (k ∷ ks))) [
        | inl (quotes, fetched) ↦
            rw fetched (store_quotes-IsKept quotes s sum (others (k ∷ ks) quotes fetched))
        | inr (e, failed) ↦ rw failed (unchanged s)
      ]

  ingest_macro-IsKept :
      (inds : List Indicator) (s : MarketTables) (sum : Summary)
      → ((i : Indicator) (m : MacroIndicator)
          → provider.fetch_macro_indicator i ≡ ok m
          → m.indicator ≢ ind)
      → IsKept s (ingest_macro (stored db) provider inds s sum).1
  unfolding ingest_macro
  ingest_macro-IsKept [] s sum others = unchanged s
  ingest_macro-IsKept (i ∷ inds) s sum others =
      let out = store_macro (stored db) provider (provider.fetch_macro_indicator i) s sum in
      let first : IsKept s out.1 = elim (Result-cases (provider.fetch_macro_indicator i)) [
        | inl (m, fetched) ↦ rw fetched (upsert_macro_indicator-IsKept m s (others i m fetched))
        | inr (e, failed) ↦ rw failed (unchanged s)
      ] in
      IsKept-trans s out.1 _ first (ingest_macro-IsKept inds out.1 out.0 others)

  -- A run leaves what is stored for a ticker and for an indicator as it was, unless the provider gives
  -- a quote of that ticker or an observation of that indicator; it may fail for any of them.
  pub run_once-IsKept :
      (u : Unicode) (tickers : Result (List Ticker)) (now : Time) (s : MarketTables)
      → ((ts : List Ticker) (quotes : List (Ticker × FiiQuote))
          → provider.fetch_fii_quotes ts ≡ ok quotes
          → All (λ p. p.1.ticker.value ≢ t.value) quotes)
      → ((i : Indicator) (m : MacroIndicator)
          → provider.fetch_macro_indicator i ≡ ok m
          → m.indicator ≢ ind)
      → let after = (run_once (stored db) provider tickers now s).1 in
        (get_fii_quote_by_ticker u t after ≡ get_fii_quote_by_ticker u t s)
        × (get_latest_macro_indicator ind after ≡ get_latest_macro_indicator ind s)
  unfolding run_once get_fii_quote_by_ticker get_latest_macro_indicator
  run_once-IsKept u tickers now s quotes_other macros_other =
      let first = ingest_fii (stored db) provider tickers s (no_summary (stored db) provider) in
      let kept =
        IsKept-trans s first.1 _
          (ingest_fii-IsKept tickers s (no_summary (stored db) provider) quotes_other)
          (ingest_macro-IsKept all_indicators first.1 first.0 macros_other) in
      (ap (scan_found u) kept.quote, ap observed kept.observation)
