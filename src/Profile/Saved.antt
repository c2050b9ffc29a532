-- ===== src/Profile/Saved.antt =====
-- internal/profile over its table: what is saved is what is read.
use yield_forge.Base.{
  ◌&&◌, ◌||◌, some, List, [], ◌∷◌, ◌≡◌, refl, sym, ap, subst, ◌∙◌, inl, inr, arith, Bool-cases,
  if◌then◌else◌,
}
use yield_forge.Base.Int.{ℤ, pos, ltb_ℤ}
use yield_forge.Base.Text.{Text, Unicode, text_eq_iff, text_eq_refl}
use yield_forge.Base.Result.{ok, err, Result-cases, invalid_horizon}
use yield_forge.Base.Table.{has_user}
use yield_forge.Base.Unique.{find_by, upsert}
use yield_forge.Base.Database.{Database, fits_integer}
use yield_forge.Marketdata.Quote.{Time}
use yield_forge.Profile.Values.{
  RiskProfile, Objective, Horizon, parse_risk_profile, parse_objectives, parse_horizon,
}
use yield_forge.Profile.Service.{
  InvestorProfile, SetProfileInput, set_profile, get_profile, new_profile,
}
use yield_forge.Profile.Postgres.{
  ProfileRow, ProfileTables, row_user, same_user, first_created, profile_row, upsert_profile,
  read_profile, found_profile, get_profile_by_user_id, profile_repository,
}
use yield_forge.Profile.Objectives.{
  parse_objectives-IsDistinct, parse_objectives-texts, parse_risk_profile-risk_text,
}

find_by-upsert :
    (r : ProfileRow) (rs : List ProfileRow)
    → find_by row_user r.user_id (upsert same_user r rs) ≡ some r
unfolding find_by upsert
find_by-upsert r [] = ground (arith, text_eq_refl r.user_id)
find_by-upsert r (s ∷ rs) =
    ground (arith, text_eq_refl r.user_id, text_eq_iff s.user_id r.user_id, find_by-upsert r rs)

parse_horizon-years : (n : ℤ) (h : Horizon) → parse_horizon n ≡ ok h → parse_horizon h.years ≡ ok h
unfolding parse_horizon
parse_horizon-years n h = elim (Bool-cases (ltb_ℤ n (pos 1) || ltb_ℤ (pos 50) n)) [
  | inl out ↦ rw out (λ e. ground (arith, e))
  | inr within ↦ rw within (λ e.
      let same : record { years = n } ≡ h = ground (arith, e) in
      subst
        (λ x.
          (if ltb_ℤ x.years (pos 1) || ltb_ℤ (pos 50) x.years then err invalid_horizon else ok x)
          ≡ ok x)
        same (rw within refl))
]

module _ (db : Database) (u : Unicode) where
  read_profile-row :
      (now : Time) (user_id s : Text) (raw : List Text) (n : ℤ) (risk : RiskProfile)
      (objectives : List Objective) (horizon : Horizon) (created : Time)
      → parse_risk_profile u s ≡ ok risk
      → parse_objectives u raw ≡ ok objectives
      → parse_horizon n ≡ ok horizon
      → let p = new_profile (profile_repository db u) now user_id risk objectives horizon in
        read_profile db u (profile_row db u user_id created p)
        ≡ ok (record p { created_at = created; updated_at = db.timestamp now })
  unfolding read_profile
  read_profile-row now user_id s raw n risk objectives horizon created r o h =
      let kept = parse_objectives-IsDistinct u raw objectives o in
      rw
        (
          parse_risk_profile-risk_text u s risk r,
          parse_objectives-texts u objectives kept.0 kept.1,
          parse_horizon-years n horizon h,
        )
        refl

  -- Where the user's identifier is in canonical form: after a profile is set, reading it gives what the
  -- call answered, and a profile that was there before keeps its time of creation.
  pub get_profile-set_profile :
      (now : Time) (user_id : Text) (input : SetProfileInput) (s : ProfileTables)
      (p : InvestorProfile)
      → db.uuid user_id ≡ some user_id
      → (set_profile (profile_repository db u) u now user_id input s).0 ≡ ok p
      → (get_profile
            (profile_repository db u)
            user_id
            (set_profile (profile_repository db u) u now user_id input s).1
          ≡ ok p)
        × ((old : ProfileRow)
            → find_by row_user user_id s.profiles ≡ some old
            → p.created_at ≡ old.created_at)
  unfolding set_profile get_profile upsert_profile get_profile_by_user_id
  get_profile-set_profile now user_id input s p canonical =
      elim (Result-cases (parse_risk_profile u input.risk_profile)) [
        | inr (e, bad) ↦ rw bad (λ h. ground (arith, h))
        | inl (risk, r) ↦ elim (Result-cases (parse_objectives u input.objectives)) [
          | inr (e, bad) ↦ rw (r, bad) (λ h. ground (arith, h))
          | inl (objectives, o) ↦ elim (Result-cases (parse_horizon input.horizon_years)) [
            | inr (e, bad) ↦ rw (r, o, bad) (λ h. ground (arith, h))
            | inl (horizon, z) ↦
                elim (Bool-cases (has_user user_id s.users && fits_integer horizon.years)) [
                  | inr refused ↦ rw (r, o, z, canonical, refused) (λ h. ground (arith, h))
                  | inl fine ↦
                      let created =
                        first_created (db.timestamp now) (find_by row_user user_id s.profiles) in
                      let new =
                        new_profile (profile_repository db u) now user_id risk objectives horizon in
                      let row = profile_row db u user_id created new in
                      let read =
                        read_profile-row now user_id input.risk_profile input.objectives
                          input.horizon_years risk objectives horizon created r o z in
                      rw (r, o, z, canonical, fine)
                        (λ h.
                          let same : created ≡ p.created_at = ground (arith, h) in
                          (
                            ap (found_profile db u) (find_by-upsert row s.profiles) ∙ read ∙ h,
                            λ old found. sym same ∙ ap (first_created (db.timestamp now)) found,
                          ))
                ]
          ]
        ]
      ]
