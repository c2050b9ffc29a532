-- ===== src/Dashboard/Service.antt =====
-- internal/dashboard/service.go: reading the quotes of the held tickers, each once.
use yield_forge.Base.{Bool, true, false, Option, none, some, List, [], ◌∷◌, if◌then◌else◌}
use yield_forge.Base.Text.{Text}
use yield_forge.Base.Dict.{Dict, lookup, insert}
use yield_forge.Base.Result.{Result, ok, err, ◌>>=◌, Error, fii_quote_not_found}
use yield_forge.Marketdata.Ticker.{Ticker, ticker_key}
use yield_forge.Marketdata.Quote.{Time, FiiQuote}
use yield_forge.Portfolio.Holding.{FiiHolding, Holdings}
use yield_forge.Dashboard.Compute.{QuoteMap, Dashboard, compute}

-- `QuoteSource.GetFIIQuoteByTicker` and `HoldingsReader.ListHoldings`, as they answer during one
-- request.
abbrev pub QuoteSource : Type 0
QuoteSource = Ticker → Result FiiQuote

abbrev pub HoldingsReader : Type 0
HoldingsReader = Text → Result Holdings

-- `fetched[t]`, which is false for a key that is not there.
abbrev pub was_fetched : Option Bool → Bool
was_fetched none = false
was_fetched (some b) = b

abbrev pub is_not_found : Error → Bool
is_not_found fii_quote_not_found = true
is_not_found _ = false

-- The answer for one ticker: the quotes after it, or the error that ends the request.
abbrev pub keep_quote : Ticker → QuoteMap → Result FiiQuote → Result QuoteMap
keep_quote t quotes (ok q) = ok (insert t q quotes)
keep_quote t quotes (err e) = if is_not_found e then ok quotes else err e

-- The loop, with the tickers that it has asked for, most recent first.
unfoldable pub fetch_quotes :
    QuoteSource
    → List FiiHolding
    → Dict Ticker Bool
    → List Ticker
    → QuoteMap
    → Result (QuoteMap × List Ticker)
fetch_quotes source [] fetched asked quotes = ok (quotes, asked)
fetch_quotes source (h ∷ hs) fetched asked quotes =
    let skip = fetch_quotes source hs fetched asked quotes in
    let ask =
      keep_quote h.ticker quotes (source h.ticker)
      >>= fetch_quotes source hs (insert h.ticker true fetched) (h.ticker ∷ asked) in
    if was_fetched (lookup h.ticker fetched) then skip else ask

unfoldable pub get_dashboard : HoldingsReader → QuoteSource → Time → Text → Result Dashboard
get_dashboard reader source now user_id = do
  holdings ← reader user_id
  (quotes, asked) ← fetch_quotes source holdings.fii [] [] []
  ok (compute holdings quotes now)
