-- ===== src/Profile/Values.antt =====
-- internal/profile/riskprofile.go, objective.go, horizon.go.
use yield_forge.Base.{◌≡◌, ◌↔◌, Bool, true, false, ◌||◌, List, [], ◌∷◌, ◌++◌, arith, if◌then◌else◌}
use yield_forge.Base.Int.{ℤ, pos, ltb_ℤ}
use yield_forge.Base.Text.{Text, Unicode, codes, text_eq, trim_space, to_lower}
use yield_forge.Base.Result.{
  Result, ok, err, ◌>>=◌, invalid_risk_profile, invalid_objective, no_objectives, invalid_horizon,
}

-- `unset` is the zero value "".
pub data RiskProfile : Type 0 where
  conservative moderate aggressive unset : RiskProfile

unfoldable pub parse_risk_profile : Unicode → Text → Result RiskProfile
parse_risk_profile u s =
    let rp = to_lower u (trim_space s) in
    if text_eq rp (codes "conservative")
    then ok conservative
    else if text_eq rp (codes "moderate")
    then ok moderate
    else if text_eq rp (codes "aggressive")
    then ok aggressive
    else err invalid_risk_profile

pub data Objective : Type 0 where
  retirement passive_income wealth_preservation long_term_growth : Objective

abbrev pub objective_eq : Objective → Objective → Bool
objective_eq retirement retirement = true
objective_eq passive_income passive_income = true
objective_eq wealth_preservation wealth_preservation = true
objective_eq long_term_growth long_term_growth = true
objective_eq _ _ = false

pub objective_eq_iff : (a b : Objective) → (objective_eq a b ≡ true) ↔ (a ≡ b)
objective_eq_iff a b = ground arith

unfoldable pub parse_objective : Unicode → Text → Result Objective
parse_objective u s =
    let o = to_lower u (trim_space s) in
    if text_eq o (codes "retirement")
    then ok retirement
    else if text_eq o (codes "passive_income")
    then ok passive_income
    else if text_eq o (codes "wealth_preservation")
    then ok wealth_preservation
    else if text_eq o (codes "long_term_growth")
    then ok long_term_growth
    else err invalid_objective

-- `seen[o]`: whether the objective stands in the result already.
unfoldable pub seen : Objective → List Objective → Bool
seen o [] = false
seen o (p ∷ ps) = objective_eq p o || seen o ps

abbrev pub add_objective : Objective → List Objective → List Objective
add_objective o out = if seen o out then out else out ++ o ∷ []

-- The loop, with the objectives kept so far in the order first seen.
unfoldable pub collect_objectives : Unicode → List Text → List Objective → Result (List Objective)
collect_objectives u [] out = ok out
collect_objectives u (s ∷ raw) out =
    parse_objective u s >>= λ o. collect_objectives u raw (add_objective o out)

abbrev pub non_empty : List Objective → Result (List Objective)
non_empty [] = err no_objectives
non_empty (o ∷ os) = ok (o ∷ os)

unfoldable pub parse_objectives : Unicode → List Text → Result (List Objective)
parse_objectives u raw = collect_objectives u raw [] >>= non_empty

pub record Horizon : Type 0 where
  pub years : ℤ

unfoldable pub parse_horizon : ℤ → Result Horizon
parse_horizon years =
    if ltb_ℤ years (pos 1) || ltb_ℤ (pos 50) years
    then err invalid_horizon
    else ok (record { years = years })
