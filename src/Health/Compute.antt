-- ===== src/Health/Compute.antt =====
-- internal/health/health.go and compute.go. The explanations, texts formatted from the same numbers,
-- and the narrative of narrative.go are left out.
use yield_forge.Base.{Bool, ◌&&◌, List, [], ◌∷◌, map, if◌then◌else◌}
use yield_forge.Base.Int.{ℤ, pos, ltb_ℤ, leb_ℤ}
use yield_forge.Base.Int64.{add64, sub64, mul64, neg64, quo64}
use yield_forge.Base.Text.{Text, Unicode, codes, text_eq, trim_space, to_lower}
use yield_forge.Base.Result.{Result, ok, err, unknown_factor}
use yield_forge.Money.Ratio.{share_bps, weighted_mean_bps}
use yield_forge.Money.Allocate.{allocate_bps}
use yield_forge.Profile.Values.{RiskProfile, conservative, moderate, aggressive, unset}

pub data Factor : Type 0 where
  diversification concentration liquidity goal_alignment risk_exposure : Factor

abbrev pub default_weight_bps : Factor → ℤ
default_weight_bps diversification = pos 2500
default_weight_bps concentration = pos 2500
default_weight_bps liquidity = pos 1500
default_weight_bps goal_alignment = pos 2000
default_weight_bps risk_exposure = pos 1500

unfoldable pub parse_factor : Unicode → Text → Result Factor
parse_factor u s =
    let f = to_lower u (trim_space s) in
    if text_eq f (codes "diversification")
    then ok diversification
    else if text_eq f (codes "concentration")
    then ok concentration
    else if text_eq f (codes "liquidity")
    then ok liquidity
    else if text_eq f (codes "goal_alignment")
    then ok goal_alignment
    else if text_eq f (codes "risk_exposure")
    then ok risk_exposure
    else err unknown_factor

pub record FactorScore : Type 0 where
  pub factor : Factor
  pub score : ℤ
  pub weight_bps : ℤ

pub record HealthScore : Type 0 where
  pub score : ℤ
  pub factors : List FactorScore

pub record Inputs : Type 0 where
  pub current_value_centavos : ℤ
  pub fii_value_centavos : ℤ
  pub fixed_income_value_centavos : ℤ
  pub liquid_value_centavos : ℤ
  pub holdings_count : ℤ
  pub fii_sector_count : ℤ
  pub largest_sector_bps : ℤ
  pub largest_class_bps : ℤ
  pub risk : RiskProfile
  pub has_profile : Bool
  pub selic_bps : ℤ
  pub has_macro : Bool

abbrev pub selic_neutral_bps : ℤ
selic_neutral_bps = pos 1000

abbrev pub max_tilt_bps : ℤ
max_tilt_bps = pos 1000

unfoldable pub clamp : ℤ → ℤ → ℤ → ℤ
clamp v lo hi = if ltb_ℤ v lo then lo else if ltb_ℤ hi v then hi else v

unfoldable pub max_int : ℤ → ℤ → ℤ
max_int a b = if ltb_ℤ b a then a else b

unfoldable pub abs_int : ℤ → ℤ
abs_int a = if ltb_ℤ a (pos 0) then neg64 a else a

abbrev pub base_fii_share_bps : RiskProfile → ℤ
base_fii_share_bps conservative = pos 3000
base_fii_share_bps moderate = pos 5000
base_fii_share_bps aggressive = pos 7000
base_fii_share_bps unset = pos 5000

unfoldable pub target_fii_share_bps : RiskProfile → ℤ → Bool → ℤ
unfolding clamp max_int
target_fii_share_bps risk selic_bps has_macro =
    let base = base_fii_share_bps risk in
    let tilt =
      if has_macro && ltb_ℤ selic_neutral_bps selic_bps
      then clamp (quo64 (sub64 selic_bps selic_neutral_bps) (pos 2)) (pos 0) max_tilt_bps
      else pos 0 in
    max_int (pos 0) (sub64 base tilt)

-- The functions that score one factor; the weight stays at the zero value until `compute` sets it.
abbrev pub unweighted : Factor → ℤ → FactorScore
unweighted f s = record { factor = f; score = s; weight_bps = pos 0 }

unfoldable pub score_diversification : Inputs → FactorScore
score_diversification inputs =
    let holdings_part = clamp (mul64 inputs.holdings_count (pos 12)) (pos 0) (pos 60) in
    let sector_part = clamp (mul64 inputs.fii_sector_count (pos 13)) (pos 0) (pos 40) in
    unweighted diversification (clamp (add64 holdings_part sector_part) (pos 0) (pos 100))

unfoldable pub score_concentration : Inputs → FactorScore
score_concentration inputs =
    let worst = max_int inputs.largest_class_bps inputs.largest_sector_bps in
    unweighted concentration (clamp (sub64 (pos 100) (quo64 worst (pos 100))) (pos 0) (pos 100))

unfoldable pub score_liquidity : Inputs → FactorScore
score_liquidity inputs =
    let share = share_bps inputs.liquid_value_centavos inputs.current_value_centavos in
    unweighted liquidity (clamp (quo64 share (pos 100)) (pos 0) (pos 100))

-- The present share of the real-estate funds, as two of the factors compute it.
unfoldable pub current_fii_bps : Inputs → ℤ
current_fii_bps inputs =
    share_bps inputs.fii_value_centavos
      (add64 inputs.fii_value_centavos inputs.fixed_income_value_centavos)

unfoldable pub score_goal_alignment : Inputs → FactorScore
score_goal_alignment inputs =
    let target = target_fii_share_bps inputs.risk inputs.selic_bps inputs.has_macro in
    let dist = abs_int (sub64 (current_fii_bps inputs) target) in
    unweighted goal_alignment (clamp (sub64 (pos 100) (quo64 dist (pos 100))) (pos 0) (pos 100))

unfoldable pub score_risk_exposure : Inputs → FactorScore
score_risk_exposure inputs =
    let tolerance = base_fii_share_bps inputs.risk in
    let over_tolerance = max_int (pos 0) (sub64 (current_fii_bps inputs) tolerance) in
    let largest = max_int inputs.largest_class_bps inputs.largest_sector_bps in
    let concentration_load = quo64 (max_int (pos 0) (sub64 largest (pos 5000))) (pos 2) in
    let excess = add64 over_tolerance concentration_load in
    unweighted risk_exposure (clamp (sub64 (pos 100) (quo64 excess (pos 100))) (pos 0) (pos 100))

abbrev pub all_factors : List Factor
all_factors = diversification ∷ concentration ∷ liquidity ∷ goal_alignment ∷ risk_exposure ∷ []

abbrev pub empty_factor : Factor → FactorScore
empty_factor f = record { factor = f; score = pos 0; weight_bps = default_weight_bps f }

abbrev pub empty_score : HealthScore
empty_score = record { score = pos 0; factors = map empty_factor all_factors }

abbrev pub default_weight : FactorScore → ℤ
default_weight f = default_weight_bps f.factor

abbrev pub score_of : FactorScore → ℤ
score_of f = f.score

-- `factors[i].WeightBps = normalised[i]`, for every i.
unfoldable pub set_weights : List FactorScore → List ℤ → List FactorScore
set_weights [] ws = []
set_weights (f ∷ fs) [] = f ∷ fs
set_weights (f ∷ fs) (w ∷ ws) =
    record { factor = f.factor; score = f.score; weight_bps = w } ∷ set_weights fs ws

unfoldable pub profile_factors : Inputs → List FactorScore
profile_factors inputs =
    if inputs.has_profile then score_goal_alignment inputs ∷ score_risk_exposure inputs ∷ [] else []

unfoldable pub compute : Inputs → HealthScore
compute inputs =
    if leb_ℤ inputs.current_value_centavos (pos 0)
    then empty_score
    else let factors =
        score_diversification inputs
        ∷ score_concentration inputs
        ∷ score_liquidity inputs
        ∷ profile_factors inputs in
      let normalised = allocate_bps (map default_weight factors) in
      record {
        score = weighted_mean_bps (map score_of factors) normalised;
        factors = set_weights factors normalised;
      }
