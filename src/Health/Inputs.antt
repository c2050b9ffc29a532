-- ===== src/Health/Inputs.antt =====
-- internal/health/service.go: the inputs of the score, read from the dashboard, the holdings, the
-- profile and the policy rate. The readers answer as they do during one request.
use yield_forge.Base.{Bool, true, false, List, [], ◌∷◌, length, if◌then◌else◌}
use yield_forge.Base.Int.{ℤ, pos, ltb_ℤ}
use yield_forge.Base.Int64.{add64}
use yield_forge.Base.Text.{Text}
use yield_forge.Base.Result.{Result, ok, err, ◌>>=◌, profile_not_found, macro_not_found}
use yield_forge.Money.Ratio.{share_bps, apply_bps}
use yield_forge.Marketdata.Quote.{MacroIndicator}
use yield_forge.Portfolio.Holding.{FixedIncomeHolding, Holdings, LiquidityType, daily, at_maturity}
use yield_forge.Dashboard.Compute.{
  AssetClass, fii, fixed_income, stocks, etfs, ClassSlice, SectorSlice, Dashboard,
}
use yield_forge.Profile.Values.{RiskProfile, unset}
use yield_forge.Health.Compute.{Inputs, HealthScore, compute}

abbrev pub no_inputs : ℤ → Inputs
no_inputs v = record {
  current_value_centavos = v;
  fii_value_centavos = pos 0;
  fixed_income_value_centavos = pos 0;
  liquid_value_centavos = pos 0;
  holdings_count = pos 0;
  fii_sector_count = pos 0;
  largest_sector_bps = pos 0;
  largest_class_bps = pos 0;
  risk = unset;
  has_profile = false;
  selic_bps = pos 0;
  has_macro = false;
}

-- `switch c.Class` in the first loop.
abbrev pub set_class_value : AssetClass → ℤ → Inputs → Inputs
set_class_value fii v i = record i { fii_value_centavos = v }
set_class_value fixed_income v i = record i { fixed_income_value_centavos = v }
set_class_value stocks v i = i
set_class_value etfs v i = i

unfoldable pub add_class : ClassSlice → Inputs → Inputs
add_class c i =
    let j = set_class_value c.class c.value_centavos i in
    if ltb_ℤ j.largest_class_bps c.share_bps
    then record j { largest_class_bps = c.share_bps }
    else j

unfoldable pub add_classes : List ClassSlice → Inputs → Inputs
unfolding add_class
add_classes [] i = i
add_classes (c ∷ cs) i = add_classes cs (add_class c i)

unfoldable pub add_sectors : List SectorSlice → Inputs → Inputs
add_sectors [] i = i
add_sectors (s ∷ ss) i = add_sectors ss (
    if ltb_ℤ i.largest_sector_bps s.share_bps
    then record i { largest_sector_bps = s.share_bps }
    else i)

unfoldable pub dashboard_inputs : Dashboard → Inputs
dashboard_inputs d =
    let i = add_classes d.allocation (no_inputs d.summary.current_value_centavos) in
    add_sectors d.fii_sectors (record i { fii_sector_count = pos (length d.fii_sectors) })

abbrev pub is_daily : LiquidityType → Bool
is_daily daily = true
is_daily at_maturity = false

-- The loop of `liquidValue`: the total and the daily sum.
unfoldable pub invested_sums : List FixedIncomeHolding → ℤ → ℤ → ℤ × ℤ
invested_sums [] total daily_sum = (total, daily_sum)
invested_sums (h ∷ hs) total daily_sum =
    invested_sums hs (add64 total h.invested_amount_centavos)
      (if is_daily h.liquidity_type then add64 daily_sum h.invested_amount_centavos else daily_sum)

unfoldable pub liquid_value : ℤ → ℤ → List FixedIncomeHolding → ℤ
liquid_value fii_value fi_value fi =
    let sums = invested_sums fi (pos 0) (pos 0) in
    let liquid_fi =
      if ltb_ℤ (pos 0) sums.0 then apply_bps fi_value (share_bps sums.1 sums.0) else pos 0 in
    add64 fii_value liquid_fi

-- What the service reads of the other parts.
pub record Readers : Type 0 where
  pub get_dashboard : Text → Result Dashboard
  pub list_holdings : Text → Result Holdings
  pub get_risk : Text → Result RiskProfile
  pub get_selic : Result MacroIndicator

-- A profile that is not set, and a policy rate that is not there, are no errors.
abbrev pub add_profile : Result RiskProfile → Inputs → Result Inputs
add_profile (ok r) i = ok (record i { risk = r; has_profile = true })
add_profile (err profile_not_found) i = ok i
add_profile (err e) i = err e

abbrev pub add_macro : Result MacroIndicator → Inputs → Result Inputs
add_macro (ok m) i = ok (record i { selic_bps = m.value; has_macro = true })
add_macro (err macro_not_found) i = ok i
add_macro (err e) i = err e

-- `buildInputs`.
unfoldable pub build_inputs : Readers → Text → Result Inputs
build_inputs r user_id = do
  d ← r.get_dashboard user_id
  held ← r.list_holdings user_id
  let i = dashboard_inputs d
  let counted = record i {
    holdings_count = add64 (pos (length held.fii)) (pos (length held.fixed_income));
    liquid_value_centavos =
        liquid_value i.fii_value_centavos i.fixed_income_value_centavos held.fixed_income;
  }
  profiled ← add_profile (r.get_risk user_id) counted
  add_macro r.get_selic profiled

-- `Health` up to the narrative.
unfoldable pub health : Readers → Text → Result HealthScore
health r user_id = do i ← build_inputs r user_id; ok (compute i)
