-- ===== src/Tests/Transport.antt =====
-- internal/transport/http: a request for a holding of no quotas.
use yield_forge.Base.{◌≡◌, refl, some, none}
use yield_forge.Base.Int.{pos}
use yield_forge.Base.Text.{codes, trim_space}
use yield_forge.Base.Result.{err, invalid_quantity}
use yield_forge.Marketdata.Ticker.{parse_ticker, matches_ticker}
use yield_forge.Portfolio.Holding.{parse_quantity}
use yield_forge.Portfolio.Build.{build_fii_holding}
use yield_forge.Portfolio.Postgres.Statements.{postgres}
use yield_forge.Transport.Holdings.{
  FiiRequest, Dates, fii_input, refuse, handle_create_fii, handle_update_fii,
}
use yield_forge.Transport.Rejected.{handle_fii-rejected}
use yield_forge.Tests.{plain, database}
use yield_forge.Tests.History.{no_rates, tables}

abbrev no_quotas : FiiRequest
no_quotas = record {
  ticker = codes " hglg11 ";
  quantity = pos 0;
  average_price_centavos = pos 15990;
}

abbrev dates : Dates
dates = record { parse_date = λ t. none; format = λ d. codes "2026-01-02" }

is_rejected : build_fii_holding plain (fii_input no_quotas) ≡ err invalid_quantity
unfolding build_fii_holding parse_ticker matches_ticker trim_space parse_quantity
is_rejected = refl

handle_fii-rejected_example :
    (handle_create_fii
        (postgres database plain)
        dates
        plain
        no_rates
        (pos 7)
        (some (codes "ana"))
        (some no_quotas)
        tables
      ≡ (refuse 400, tables))
    × (handle_update_fii
          (postgres database plain)
          dates
          plain
          no_rates
          (pos 7)
          (some (codes "ana"))
          (codes "h1")
          (some no_quotas)
          tables
        ≡ (refuse 400, tables))
handle_fii-rejected_example =
    handle_fii-rejected (postgres database plain) dates plain no_rates (pos 7) (codes "ana") tables
      (codes "h1") no_quotas invalid_quantity is_rejected
