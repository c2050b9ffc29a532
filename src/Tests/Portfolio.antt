-- ===== src/Tests/Portfolio.antt =====
-- internal/portfolio, internal/dashboard and internal/projection at concrete inputs.
use yield_forge.Base.{ℕ, inr, List, ◌≡◌, ◌↔◌, ◌≢◌, refl, true, none, [], ◌∷◌, arith}
use yield_forge.Base.Int.{pos, ◌≤ℤ◌, ◌<ℤ◌, ◌+ℤ◌, ◌*ℤ◌, ◌-ℤ◌, quo_ℤ}
use yield_forge.Base.Int64.{wrap64, add64, mul64, sub64, quo64}
use yield_forge.Money.Ratio.{share_bps, accrue_simple_interest}
use yield_forge.Money.Ratio.Rounding.{min_int64}
use yield_forge.Base.Text.{codes, trim_space}
use yield_forge.Base.Dict.{lookup, insert}
use yield_forge.Base.Result.{ok}
use yield_forge.Marketdata.Ticker.{Ticker, parse_ticker, matches_ticker, ticker_key}
use yield_forge.Portfolio.Holding.{
  FiiHolding, FixedIncomeHolding, Holdings, daily, cdi_percentual, parse_indexer,
  parse_liquidity_type,
}
use yield_forge.Portfolio.Build.{
  FiiInput, FixedIncomeInput, build_fii_holding, build_fixed_income_holding,
}
use yield_forge.Portfolio.Validity.{
  FixedIncomeIsValid, build_fii_holding_iff, build_fixed_income_holding-IsValid, described_fii,
}
use yield_forge.Portfolio.Described.{
  DescribesFixedIncome, build_fixed_income_holding_iff, described_fixed_income,
}
use yield_forge.Dashboard.Compute.{
  QuoteMap, Summary, add_fiis, no_totals, sectors, compute, add_fii_at, add_sector,
  add_fixed_incomes, days_between, sectors_from, sector_slice,
}
use yield_forge.Dashboard.Sectors.{slice_values, sectors-reconcile}
use yield_forge.Dashboard.Service.{fetch_quotes}
use yield_forge.Dashboard.Fetch.{IsAnswer, fetch_quotes-answers}
use yield_forge.Dashboard.Totals.{Returns, Reports, compute-Reports}
use yield_forge.Projection.Compute.{Inputs, project_net_worth}
use yield_forge.Projection.NetWorth.{years, years_from, project_net_worth-years}
use yield_forge.Tests.{plain, fund, quote}

abbrev pub fund_input : FiiInput
fund_input = record {
  ticker = codes " hglg11 ";
  quantity = pos 10;
  average_price_centavos = pos 15990;
}

fund_ticker : parse_ticker plain (codes " hglg11 ") ≡ ok fund
unfolding parse_ticker matches_ticker trim_space
fund_ticker = refl

build_fii_holding_iff_example :
    (build_fii_holding plain fund_input ≡ ok (described_fii fund_input fund)) ↔ (
      (t : Ticker) × (parse_ticker plain fund_input.ticker ≡ ok t)
      × (pos 0 <ℤ fund_input.quantity)
      × (pos 0 ≤ℤ fund_input.average_price_centavos)
      × (described_fii fund_input fund ≡ described_fii fund_input t))
build_fii_holding_iff_example =
    build_fii_holding_iff plain fund_input (described_fii fund_input fund)

abbrev pub bond_input : FixedIncomeInput
bond_input = record {
  name = codes "CDB";
  institution = codes "Banco";
  invested_amount_centavos = pos 500000;
  annual_rate_bps = pos 11000;
  indexer_type = codes "CDI_percentual";
  maturity_date = none;
  liquidity_type = codes "daily";
}

bond_liquidity : parse_liquidity_type plain (codes "daily") ≡ ok daily
unfolding parse_liquidity_type trim_space
bond_liquidity = refl

bond_indexer : parse_indexer plain (codes "CDI_percentual") ≡ ok cdi_percentual
unfolding parse_indexer trim_space
bond_indexer = refl

bond_name : trim_space (codes "CDB") ≢ []
unfolding trim_space
bond_name = λ e. ground (arith, e)

bond_institution : trim_space (codes "Banco") ≢ []
unfolding trim_space
bond_institution = λ e. ground (arith, e)

abbrev pub bond : FixedIncomeHolding
bond = described_fixed_income bond_input daily cdi_percentual none

bond_described : DescribesFixedIncome plain (pos 5) bond_input true bond
bond_described = record {
  name_given = bond_name;
  institution_given = bond_institution;
  invested_pos = omega arith;
  rate_nonneg = omega arith;
  liquidity_parsed = bond_liquidity;
  indexer_parsed = bond_indexer;
  maturity_kept = refl;
  described = refl;
}

build_fixed_income_holding_iff_example :
    (build_fixed_income_holding plain (pos 5) bond_input true ≡ ok bond)
    ↔ DescribesFixedIncome plain (pos 5) bond_input true bond
build_fixed_income_holding_iff_example =
    build_fixed_income_holding_iff plain (pos 5) bond_input true bond

bond_built : build_fixed_income_holding plain (pos 5) bond_input true ≡ ok bond
bond_built = (build_fixed_income_holding_iff plain (pos 5) bond_input true bond).1 bond_described

build_fixed_income_holding-IsValid_example : FixedIncomeIsValid true (pos 5) bond
build_fixed_income_holding-IsValid_example =
    build_fixed_income_holding-IsValid plain (pos 5) bond_input true bond bond_built

abbrev holdings : Holdings
holdings = record { fii = described_fii fund_input fund ∷ []; fixed_income = bond ∷ [] }

abbrev quotes : QuoteMap
quotes = (fund, quote) ∷ []

-- 1,650.00 in FIIs that cost 1,599.00, and 5,000.00 invested, with no interest so far.
abbrev figures : Summary
figures = record {
  total_invested_centavos = pos 659900;
  current_value_centavos = pos 665000;
  monthly_income_centavos = pos 1100;
  growth_centavos = pos 5100;
  growth_bps = pos 77;
}

computed : (compute holdings quotes (pos 1000)).summary ≡ figures
unfolding compute add_fiis add_fii_at add_sector add_fixed_incomes days_between add64 mul64 sub64
    quo64 lookup insert share_bps accrue_simple_interest wrap64 ◌+ℤ◌ ◌*ℤ◌ ◌-ℤ◌ quo_ℤ
computed = refl

not_least : (n : ℕ) → pos n ≢ min_int64
not_least n e = ground (arith, e)

returns : Returns holdings quotes (pos 1000)
unfolding compute add_fiis add_fii_at add_sector add_fixed_incomes days_between add64 mul64 sub64
    quo64 lookup insert share_bps accrue_simple_interest wrap64 ◌+ℤ◌ ◌*ℤ◌ ◌-ℤ◌ quo_ℤ sectors
    sectors_from sector_slice
returns = record {
  growth = inr (not_least 5100);
  fii_class = inr (not_least 165000);
  fixed_class = inr (not_least 500000);
  sector_classes = (inr (not_least 165000), tt);
}

compute-Reports_example : Reports holdings quotes (pos 1000) (compute holdings quotes (pos 1000))
compute-Reports_example = compute-Reports holdings quotes (pos 1000) returns

sectors-reconcile_example :
    let t = add_fiis quotes (described_fii fund_input fund ∷ []) no_totals in
    wrap64 (slice_values (sectors t.sector_value (pos 165000))) ≡ t.fii_current
sectors-reconcile_example =
    sectors-reconcile quotes (described_fii fund_input fund ∷ []) (pos 165000)

abbrev holdings_twice : List FiiHolding
holdings_twice = described_fii fund_input fund ∷ described_fii fund_input fund ∷ []

-- Two holdings of one fund, which the source is asked for once.
fetched_once : fetch_quotes (λ t. ok quote) holdings_twice [] [] [] ≡ ok (quotes, fund ∷ [])
unfolding fetch_quotes lookup insert
fetched_once = refl

fetch_quotes-answers_example :
    IsAnswer (ok quote) (lookup fund quotes) × (IsAnswer (ok quote) (lookup fund quotes) × Unit {0})
fetch_quotes-answers_example =
    fetch_quotes-answers (λ t. ok quote) holdings_twice (quotes, fund ∷ []) fetched_once

abbrev plan : Inputs
plan = record {
  current_value_centavos = pos 1000000;
  fii_annual_income_centavos = pos 80000;
  fi_annual_income_centavos = pos 10000;
  monthly_contribution_centavos = pos 50000;
  horizon_years = pos 20;
}

project_net_worth-years_example : years (project_net_worth plan (pos 900)) ≡ years_from 0 21
project_net_worth-years_example = project_net_worth-years plan 20 (pos 900) refl (omega arith)
