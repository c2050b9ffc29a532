-- ===== src/Projection/Compute.antt =====
-- internal/projection/projection.go and compute.go, and the sum of service.go. The notes of the
-- assumptions, formatted from the same numbers, and the constant disclaimer are left out.
use yield_forge.Base.{ℕ, zero, suc, ◌/◌, ◌%◌, List, [], ◌∷◌, map, if◌then◌else◌, ◌==◌}
use yield_forge.Base.Int.{ℤ, pos, negsuc, pos_part, ltb_ℤ, leb_ℤ}
use yield_forge.Base.Int64.{add64, mul64, quo64}
use yield_forge.Base.Text.{Text, Unicode, codes, text_eq, trim_space, to_lower}
use yield_forge.Base.Result.{Result, ok, err, unknown_scenario}
use yield_forge.Money.Ratio.{share_bps, apply_bps}
use yield_forge.Portfolio.Holding.{FixedIncomeHolding}

pub data Scenario : Type 0 where
  pessimistic base optimistic : Scenario

abbrev pub spread_bps : ℕ
spread_bps = 200

abbrev pub all_scenarios : List Scenario
all_scenarios = pessimistic ∷ base ∷ optimistic ∷ []

unfoldable pub parse_scenario : Unicode → Text → Result Scenario
parse_scenario u s =
    let sc = to_lower u (trim_space s) in
    if text_eq sc (codes "pessimistic")
    then ok pessimistic
    else if text_eq sc (codes "base")
    then ok base
    else if text_eq sc (codes "optimistic")
    then ok optimistic
    else err unknown_scenario

-- -200, 0 and 200.
abbrev pub yield_adj_bps : Scenario → ℤ
yield_adj_bps pessimistic = negsuc 199
yield_adj_bps base = pos 0
yield_adj_bps optimistic = pos spread_bps

pub record ScenarioIncome : Type 0 where
  pub scenario : Scenario
  pub monthly_centavos : ℤ
  pub annual_centavos : ℤ
  pub yield_adj : ℤ

pub record NetWorthPoint : Type 0 where
  pub year : ℕ
  pub value_centavos : ℤ

pub record ScenarioNetWorth : Type 0 where
  pub scenario : Scenario
  pub points : List NetWorthPoint
  pub yield_adj : ℤ
  pub monthly_contribution_centavos : ℤ
  pub horizon_years : ℤ

pub record Projections : Type 0 where
  pub income : List ScenarioIncome
  pub net_worth : List ScenarioNetWorth

pub record Inputs : Type 0 where
  pub current_value_centavos : ℤ
  pub fii_annual_income_centavos : ℤ
  pub fi_annual_income_centavos : ℤ
  pub monthly_contribution_centavos : ℤ
  pub horizon_years : ℤ

-- One month: `value += money.ApplyBps(value, monthlyRateBps) + contribution`.
unfoldable pub grow_month : ℤ → ℤ → ℤ → ℤ
grow_month rate contribution value = add64 value (add64 (apply_bps value rate) contribution)

-- The loop from month m on, with the rounds that are left.
unfoldable pub grow : ℕ → ℕ → ℤ → ℤ → ℤ → List NetWorthPoint
grow zero m rate contribution value = []
grow (suc left) m rate contribution value =
    let value' = grow_month rate contribution value in
    let rest = grow left (suc m) rate contribution value' in
    if m % 12 == 0 then record { year = m / 12; value_centavos = value' } ∷ rest else rest

unfoldable pub project_net_worth : Inputs → ℤ → List NetWorthPoint
project_net_worth input yield_bps =
    record { year = 0; value_centavos = input.current_value_centavos }
    ∷ grow (pos_part (mul64 input.horizon_years (pos 12))) 1 (quo64 yield_bps (pos 12))
        input.monthly_contribution_centavos input.current_value_centavos

unfoldable pub monthly_from_annual : ℤ → ℤ
monthly_from_annual annual =
    if leb_ℤ annual (pos 0) then pos 0 else quo64 (add64 (mul64 annual (pos 2)) (pos 12)) (pos 24)

abbrev pub at_least_zero : ℤ → ℤ
at_least_zero z = if ltb_ℤ z (pos 0) then pos 0 else z

unfoldable pub scenario_annual : ℤ → ℤ → Scenario → ℤ
scenario_annual base_annual delta sc =
    at_least_zero (add64 base_annual (quo64 (mul64 delta (yield_adj_bps sc)) (pos spread_bps)))

unfoldable pub scenario_income : ℤ → ℤ → Scenario → ScenarioIncome
scenario_income base_annual delta sc =
    let annual = scenario_annual base_annual delta sc in
    record {
      scenario = sc;
      monthly_centavos = monthly_from_annual annual;
      annual_centavos = annual;
      yield_adj = yield_adj_bps sc;
    }

unfoldable pub scenario_net_worth : Inputs → ℤ → Scenario → ScenarioNetWorth
scenario_net_worth input base_yield_bps sc = record {
  scenario = sc;
  points = project_net_worth input (at_least_zero (add64 base_yield_bps (yield_adj_bps sc)));
  yield_adj = yield_adj_bps sc;
  monthly_contribution_centavos = input.monthly_contribution_centavos;
  horizon_years = input.horizon_years;
}

unfoldable pub compute : Inputs → Projections
compute input =
    let base_annual = add64 input.fii_annual_income_centavos input.fi_annual_income_centavos in
    let base_yield_bps = share_bps base_annual input.current_value_centavos in
    let delta = apply_bps input.current_value_centavos (pos spread_bps) in
    record {
      income = map (scenario_income base_annual delta) all_scenarios;
      net_worth = map (scenario_net_worth input base_yield_bps) all_scenarios;
    }

unfoldable pub fixed_income_annual : ℤ → List FixedIncomeHolding → ℤ
fixed_income_annual total [] = total
fixed_income_annual total (h ∷ hs) =
    fixed_income_annual
      (add64 total (apply_bps h.invested_amount_centavos h.effective_annual_rate_bps)) hs
