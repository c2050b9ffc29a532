-- ===== src/Profile/Service.antt =====
-- internal/profile/profile.go, ports.go and service.go. The clock's now is an argument.
use yield_forge.Base.{List}
use yield_forge.Base.Int.{ℤ}
use yield_forge.Base.Text.{Text, Unicode}
use yield_forge.Base.Result.{Result}
use yield_forge.Base.Effect.{Op, lift, ◌>>=◌}
use yield_forge.Marketdata.Quote.{Time}
use yield_forge.Profile.Values.{
  RiskProfile, Objective, Horizon, parse_risk_profile, parse_objectives, parse_horizon,
}

pub record InvestorProfile : Type 0 where
  pub user_id : Text
  pub risk : RiskProfile
  pub objectives : List Objective
  pub horizon : Horizon
  pub created_at : Time
  pub updated_at : Time

pub record SetProfileInput : Type 0 where
  pub risk_profile : Text
  pub objectives : List Text
  pub horizon_years : ℤ

pub record ProfileRepository (S : Type 0) : Type 0 where
  pub upsert_profile : InvestorProfile → Op S InvestorProfile
  pub get_profile_by_user_id : Text → S → Result InvestorProfile

module _ {S : Type 0} (repo : ProfileRepository S) where
  abbrev pub new_profile : Time → Text → RiskProfile → List Objective → Horizon → InvestorProfile
  new_profile now user_id risk objectives horizon = record {
    user_id = user_id;
    risk = risk;
    objectives = objectives;
    horizon = horizon;
    created_at = now;
    updated_at = now;
  }

  unfoldable pub set_profile : Unicode → Time → Text → SetProfileInput → Op S InvestorProfile
  set_profile u now user_id input s =
      (do
        risk ← lift (parse_risk_profile u input.risk_profile)
        objectives ← lift (parse_objectives u input.objectives)
        horizon ← lift (parse_horizon input.horizon_years)
        repo.upsert_profile (new_profile now user_id risk objectives horizon))
        s

  unfoldable pub get_profile : Text → S → Result InvestorProfile
  get_profile user_id s = repo.get_profile_by_user_id user_id s
