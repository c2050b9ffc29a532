-- ===== src/Profile/Postgres.antt =====
-- internal/profile/postgres/postgres.go: the repository over the table of
-- migrations/0004_profiles.up.sql. The objectives are a JSON array of texts, which is written and read
-- back as the list.
use yield_forge.Base.{Bool, ◌&&◌, Option, none, some, List, [], map, if◌then◌else◌}
use yield_forge.Base.Int.{ℤ}
use yield_forge.Base.Text.{Text, Unicode, codes, text_eq}
use yield_forge.Base.Result.{Result, ok, err, ◌>>=◌, profile_not_found}
use yield_forge.Base.Table.{has_user}
use yield_forge.Base.Unique.{find_by, upsert}
use yield_forge.Base.Effect.{Op}
use yield_forge.Base.Database.{Database, sql_error, fits_integer}
use yield_forge.Marketdata.Quote.{Time}
use yield_forge.Profile.Values.{
  RiskProfile, conservative, moderate, aggressive, unset, Objective, retirement, passive_income,
  wealth_preservation, long_term_growth, parse_risk_profile, parse_objectives, parse_horizon,
}
use yield_forge.Profile.Service.{InvestorProfile, ProfileRepository}

pub record ProfileRow : Type 0 where
  pub user_id : Text
  pub risk_profile : Text
  pub objectives : List Text
  pub horizon_years : ℤ
  pub created_at : Time
  pub updated_at : Time

-- The table, and the identifiers of the users table.
pub record ProfileTables : Type 0 where
  pub profiles : List ProfileRow
  pub users : List Text

abbrev pub row_user : ProfileRow → Text
row_user r = r.user_id

abbrev pub same_user : ProfileRow → ProfileRow → Bool
same_user r s = text_eq s.user_id r.user_id

-- The constants of riskprofile.go and objective.go.
abbrev pub risk_text : RiskProfile → Text
risk_text conservative = codes "conservative"
risk_text moderate = codes "moderate"
risk_text aggressive = codes "aggressive"
risk_text unset = []

abbrev pub objective_text : Objective → Text
objective_text retirement = codes "retirement"
objective_text passive_income = codes "passive_income"
objective_text wealth_preservation = codes "wealth_preservation"
objective_text long_term_growth = codes "long_term_growth"

-- The time of the first write stays.
abbrev pub first_created : Time → Option ProfileRow → Time
first_created at none = at
first_created at (some r) = r.created_at

module _ (db : Database) (u : Unicode) where
  abbrev pub profile_row : Text → Time → InvestorProfile → ProfileRow
  profile_row owner created p = record {
    user_id = owner;
    risk_profile = risk_text p.risk;
    objectives = map objective_text p.objectives;
    horizon_years = p.horizon.years;
    created_at = created;
    updated_at = db.timestamp p.updated_at;
  }

  abbrev pub upsert_of : Option Text → InvestorProfile → Op ProfileTables InvestorProfile
  upsert_of none p s = (err sql_error, s)
  upsert_of (some owner) p s =
      let created = first_created (db.timestamp p.created_at) (find_by row_user owner s.profiles) in
      if has_user owner s.users && fits_integer p.horizon.years
      then (
        ok (record p { created_at = created; updated_at = db.timestamp p.updated_at }),
        record s { profiles = upsert same_user (profile_row owner created p) s.profiles },
      )
      else (err sql_error, s)

  unfoldable pub upsert_profile : InvestorProfile → Op ProfileTables InvestorProfile
  upsert_profile p s = upsert_of (db.uuid p.user_id) p s

  unfoldable pub read_profile : ProfileRow → Result InvestorProfile
  read_profile r = do
    risk ← parse_risk_profile u r.risk_profile
    objectives ← parse_objectives u r.objectives
    horizon ← parse_horizon r.horizon_years
    ok (record {
      user_id = r.user_id;
      risk = risk;
      objectives = objectives;
      horizon = horizon;
      created_at = r.created_at;
      updated_at = r.updated_at;
    })

  abbrev pub found_profile : Option ProfileRow → Result InvestorProfile
  found_profile none = err profile_not_found
  found_profile (some r) = read_profile r

  abbrev pub select_profile : Option Text → ProfileTables → Result InvestorProfile
  select_profile none s = err profile_not_found
  select_profile (some owner) s = found_profile (find_by row_user owner s.profiles)

  unfoldable pub get_profile_by_user_id : Text → ProfileTables → Result InvestorProfile
  get_profile_by_user_id user_id s = select_profile (db.uuid user_id) s

  abbrev pub profile_repository : ProfileRepository ProfileTables
  profile_repository = record {
    upsert_profile = upsert_profile;
    get_profile_by_user_id = get_profile_by_user_id;
  }
