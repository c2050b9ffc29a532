-- ===== src/Dashboard/Compute.antt =====
-- internal/dashboard/dashboard.go and compute.go.
use mathlib.Core.Option
use yield_forge.Base.{◌-◌, ◌^◌, ◌*◌, Option, none, some, List, [], ◌∷◌, ◌++◌, if◌then◌else◌}
use yield_forge.Base.Int.{ℤ, pos, negsuc, ◌-ℤ◌, ltb_ℤ}
use yield_forge.Base.Int64.{add64, sub64, mul64, quo64}
use yield_forge.Base.Text.{Text}
use yield_forge.Base.Dict.{Dict, lookup, insert}
use yield_forge.Money.Ratio.{share_bps, accrue_simple_interest}
use yield_forge.Marketdata.Ticker.{Ticker, ticker_key}
use yield_forge.Marketdata.Sector.{
  Sector, logistics, offices, shopping, hybrid, paper, other, sector_key,
}
use yield_forge.Marketdata.Quote.{Time, FiiQuote}
use yield_forge.Portfolio.Holding.{FiiHolding, FixedIncomeHolding, Holdings}

pub data AssetClass : Type 0 where
  fii fixed_income stocks etfs : AssetClass

pub record Summary : Type 0 where
  pub total_invested_centavos : ℤ
  pub current_value_centavos : ℤ
  pub monthly_income_centavos : ℤ
  pub growth_centavos : ℤ
  pub growth_bps : ℤ

pub record ClassSlice : Type 0 where
  pub class : AssetClass
  pub value_centavos : ℤ
  pub share_bps : ℤ

pub record SectorSlice : Type 0 where
  pub sector : Sector
  pub value_centavos : ℤ
  pub share_bps : ℤ

pub record Dashboard : Type 0 where
  pub summary : Summary
  pub allocation : List ClassSlice
  pub fii_sectors : List SectorSlice
  pub stale_tickers : List Text

abbrev pub sector_order : List Sector
sector_order = logistics ∷ offices ∷ shopping ∷ hybrid ∷ paper ∷ other ∷ []

abbrev pub QuoteMap : Type 0
QuoteMap = Dict Ticker FiiQuote

-- `time.Time.Sub`, which stays at the ends of an int64 where the difference passes them.
abbrev pub time_sub : Time → Time → ℤ
time_sub to from =
    let d = to -ℤ from in
    if ltb_ℤ (pos (2 ^ 63 - 1)) d
    then pos (2 ^ 63 - 1)
    else if ltb_ℤ d (negsuc (2 ^ 63 - 1))
    then negsuc (2 ^ 63 - 1)
    else d

unfoldable pub days_between : Time → Time → ℤ
days_between from to =
    let d = time_sub to from in
    if ltb_ℤ d (pos 0) then pos 0 else quo64 d (pos (24 * 3600 * 1000000000))

-- The variables of the first loop of `Compute`.
pub record FiiTotals : Type 0 where
  pub total_invested : ℤ
  pub fii_current : ℤ
  pub monthly_income : ℤ
  pub stale : List Text
  pub sector_value : Dict Sector ℤ

-- `sectorValue[sector] += current`.
unfoldable pub add_sector : Sector → ℤ → Dict Sector ℤ → Dict Sector ℤ
add_sector sector current m =
    insert sector (add64 (Option.get_or (lookup sector m) (pos 0)) current) m

-- One round of the first loop, by whether the ticker has a quote.
unfoldable pub add_fii_at : Option FiiQuote → FiiHolding → FiiTotals → FiiTotals
add_fii_at (some q) h t =
    let qty = h.quantity.value in
    let current = mul64 q.price_centavos qty in
    record {
      total_invested = add64 t.total_invested (mul64 h.average_price_centavos qty);
      fii_current = add64 t.fii_current current;
      monthly_income = add64 t.monthly_income (mul64 q.last_dividend_centavos qty);
      stale = t.stale;
      sector_value = add_sector q.sector current t.sector_value;
    }
add_fii_at none h t =
    let invested = mul64 h.average_price_centavos h.quantity.value in
    record {
      total_invested = add64 t.total_invested invested;
      fii_current = add64 t.fii_current invested;
      monthly_income = t.monthly_income;
      stale = t.stale ++ h.ticker.value ∷ [];
      sector_value = add_sector other invested t.sector_value;
    }

unfoldable pub add_fiis : QuoteMap → List FiiHolding → FiiTotals → FiiTotals
add_fiis quotes [] t = t
add_fiis quotes (h ∷ hs) t = add_fiis quotes hs (add_fii_at (lookup h.ticker quotes) h t)

-- The second loop: the invested total and the current value of the fixed income.
unfoldable pub add_fixed_incomes : Time → List FixedIncomeHolding → ℤ → ℤ → ℤ × ℤ
add_fixed_incomes now [] total_invested fi_current = (total_invested, fi_current)
add_fixed_incomes now (h ∷ hs) total_invested fi_current =
    let accrued =
      accrue_simple_interest h.invested_amount_centavos h.effective_annual_rate_bps
        (days_between h.created_at now) in
    add_fixed_incomes now hs (add64 total_invested h.invested_amount_centavos)
      (add64 fi_current (add64 h.invested_amount_centavos accrued))

unfoldable pub allocation : ℤ → ℤ → ℤ → List ClassSlice
allocation fii_value fixed_income_value total =
    record { class = fii; value_centavos = fii_value; share_bps = share_bps fii_value total }
    ∷ record {
      class = fixed_income;
      value_centavos = fixed_income_value;
      share_bps = share_bps fixed_income_value total;
    }
    ∷ record { class = stocks; value_centavos = pos 0; share_bps = pos 0 }
    ∷ record { class = etfs; value_centavos = pos 0; share_bps = pos 0 }
    ∷ []

-- A slice for a sector that stands in the map.
unfoldable pub sector_slice : Sector → Option ℤ → ℤ → List SectorSlice → List SectorSlice
sector_slice s none fii_total rest = rest
sector_slice s (some v) fii_total rest =
    record { sector = s; value_centavos = v; share_bps = share_bps v fii_total } ∷ rest

unfoldable pub sectors_from : List Sector → Dict Sector ℤ → ℤ → List SectorSlice
sectors_from [] value fii_total = []
sectors_from (s ∷ ss) value fii_total =
    sector_slice s (lookup s value) fii_total (sectors_from ss value fii_total)

unfoldable pub sectors : Dict Sector ℤ → ℤ → List SectorSlice
sectors value fii_total = sectors_from sector_order value fii_total

abbrev pub no_totals : FiiTotals
no_totals = record {
  total_invested = pos 0;
  fii_current = pos 0;
  monthly_income = pos 0;
  stale = [];
  sector_value = [];
}

unfoldable pub compute : Holdings → QuoteMap → Time → Dashboard
compute holdings quotes now =
    let t = add_fiis quotes holdings.fii no_totals in
    let fixed = add_fixed_incomes now holdings.fixed_income t.total_invested (pos 0) in
    let total_current = add64 t.fii_current fixed.1 in
    let growth = sub64 total_current fixed.0 in
    record {
      summary = record {
        total_invested_centavos = fixed.0;
        current_value_centavos = total_current;
        monthly_income_centavos = t.monthly_income;
        growth_centavos = growth;
        growth_bps = share_bps growth fixed.0;
      };
      allocation = allocation t.fii_current fixed.1 total_current;
      fii_sectors = sectors t.sector_value t.fii_current;
      stale_tickers = t.stale;
    }
