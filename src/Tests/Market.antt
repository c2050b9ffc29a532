-- ===== src/Tests/Market.antt =====
-- internal/marketdata/ingest over empty tables, with a provider of one quote and no indicators, and
-- internal/profile over a table with one user.
use yield_forge.Base.{◌≡◌, ◌≢◌, refl, subst, some, List, [], ◌∷◌, All, arith}
use yield_forge.Base.Int.{pos}
use yield_forge.Base.Text.{Text, codes, trim_space}
use yield_forge.Base.Result.{Result, ok, err, macro_not_found}
use yield_forge.Base.Table.{has_user}
use yield_forge.Base.Unique.{find_by}
use yield_forge.Marketdata.Ticker.{Ticker}
use yield_forge.Marketdata.Indicator.{Indicator, cdi}
use yield_forge.Marketdata.Quote.{FiiQuote, MacroIndicator}
use yield_forge.Marketdata.Postgres.{
  MarketTables, get_fii_quote_by_ticker, get_latest_macro_indicator,
}
use yield_forge.Marketdata.Ingest.{MarketDataProvider, stored, run_once}
use yield_forge.Marketdata.Kept.{run_once-IsKept}
use yield_forge.Marketdata.Sources.{union_tickers, has_ticker, offered, union_tickers-offered}
use yield_forge.Profile.Values.{
  moderate, retirement, parse_risk_profile, parse_objective, parse_objectives, collect_objectives,
  seen, parse_horizon,
}
use yield_forge.Profile.Service.{InvestorProfile, SetProfileInput, set_profile, get_profile}
use yield_forge.Profile.Postgres.{
  ProfileRow, ProfileTables, row_user, profile_repository, upsert_profile,
}
use yield_forge.Profile.Saved.{get_profile-set_profile}
use yield_forge.Tests.{plain, fund, quote, database}

abbrev fetched : List (Ticker × FiiQuote)
fetched = (fund, quote) ∷ []

abbrev provider : MarketDataProvider
provider = record {
  fetch_fii_quotes = λ ts. ok fetched;
  fetch_macro_indicator = λ i. err macro_not_found;
}

abbrev other_fund : Ticker
other_fund = record { value = codes "KNRI11" }

abbrev no_market : MarketTables
no_market = record { quotes = []; macros = [] }

quotes_other :
    (ts : List Ticker) (quotes : List (Ticker × FiiQuote))
    → provider.fetch_fii_quotes ts ≡ ok quotes
    → All (λ p. p.1.ticker.value ≢ other_fund.value) quotes
quotes_other ts quotes h =
    let same : fetched ≡ quotes = ground (arith, h) in
    let apart : quote.ticker.value ≢ other_fund.value = λ e. ground (arith, e) in
    subst (All (λ p. p.1.ticker.value ≢ other_fund.value)) same (apart, tt)

macros_other :
    (i : Indicator) (m : MacroIndicator)
    → provider.fetch_macro_indicator i ≡ ok m
    → m.indicator ≢ cdi
macros_other i m h = ground (arith, h)

run_once-IsKept_example :
    let after = (run_once (stored database) provider (ok (fund ∷ [])) (pos 9) no_market).1 in
    (get_fii_quote_by_ticker plain other_fund after
      ≡ get_fii_quote_by_ticker plain other_fund no_market)
    × (get_latest_macro_indicator cdi after ≡ get_latest_macro_indicator cdi no_market)
run_once-IsKept_example =
    run_once-IsKept database provider other_fund cdi plain (ok (fund ∷ [])) (pos 9) no_market
      quotes_other macros_other

-- The holdings cannot be read, the watch list can.
abbrev sources : List (Result (List Ticker))
sources = err macro_not_found ∷ ok (fund ∷ other_fund ∷ fund ∷ []) ∷ []

union_tickers-offered_example :
    (out : List Ticker) × (union_tickers sources ≡ ok out)
    × ((v : Text) → has_ticker v out ≡ offered v sources)
union_tickers-offered_example = union_tickers-offered sources refl

abbrev old_row : ProfileRow
old_row = record {
  user_id = codes "ana";
  risk_profile = codes "aggressive";
  objectives = codes "retirement" ∷ [];
  horizon_years = pos 30;
  created_at = pos 1;
  updated_at = pos 1;
}

abbrev saved_before : ProfileTables
saved_before = record { profiles = old_row ∷ []; users = codes "ana" ∷ [] }

abbrev wanted : SetProfileInput
wanted = record {
  risk_profile = codes "Moderate";
  objectives = codes "retirement" ∷ codes " RETIREMENT" ∷ [];
  horizon_years = pos 10;
}

abbrev saved : InvestorProfile
saved = record {
  user_id = codes "ana";
  risk = moderate;
  objectives = retirement ∷ [];
  horizon = record { years = pos 10 };
  created_at = pos 1;
  updated_at = pos 5;
}

is_set :
    (set_profile
      (profile_repository database plain)
      plain
      (pos 5)
      (codes "ana")
      wanted
      saved_before).0
    ≡ ok saved
unfolding set_profile parse_risk_profile trim_space parse_objectives collect_objectives
    parse_objective seen parse_horizon upsert_profile find_by has_user
is_set = refl

get_profile-set_profile_example :
    (get_profile
        (profile_repository database plain)
        (codes "ana")
        (set_profile
          (profile_repository database plain)
          plain
          (pos 5)
          (codes "ana")
          wanted
          saved_before).1
      ≡ ok saved)
    × ((old : ProfileRow)
        → find_by row_user (codes "ana") saved_before.profiles ≡ some old
        → pos 1 ≡ old.created_at)
get_profile-set_profile_example =
    get_profile-set_profile database plain (pos 5) (codes "ana") wanted saved_before saved refl
      is_set
