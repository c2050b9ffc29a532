-- ===== src/Portfolio/Ownership.antt =====
-- internal/portfolio/service.go: what the operations hand to the repository.
use yield_forge.Base.{◌≡◌, inl, inr, refl, Bool, true, false}
use yield_forge.Base.Text.{Text, Unicode}
use yield_forge.Base.Result.{Result, err, Error, Result-cases}
use yield_forge.Marketdata.Quote.{Time}
use yield_forge.Portfolio.Holding.{FiiHolding, FixedIncomeHolding}
use yield_forge.Portfolio.Build.{
  FiiInput, FixedIncomeInput, build_fii_holding, build_fixed_income_holding,
}
use yield_forge.Portfolio.Validity.{
  FiiIsValid, FixedIncomeIsValid, build_fii_holding-IsValid, build_fixed_income_holding-IsValid,
}
use yield_forge.Portfolio.Service.{
  Repository, MacroReader, stamp_fii, stamp_fixed, create_fii_holding, update_fii_holding,
  create_fixed_income_holding, update_fixed_income_holding, rated,
}

-- One write that a caller asks for: it was refused, with the state as before, or it is what the
-- repository does with a holding that is valid and the caller's.
pub data IsWrite {H S : Type 0} (valid : H → Type 0) (owner : H → Text) (user_id : Text)
    (call : H → S → Result H × S) (s : S) (out : Result H × S) : Type 0 where
  refused : (e : Error) → out ≡ (err e, s) → IsWrite valid owner user_id call s out
  written :
      (h : H)
      → valid h
      → owner h ≡ user_id
      → out ≡ call h s
      → IsWrite valid owner user_id call s out

abbrev pub fii_owner : FiiHolding → Text
fii_owner h = h.user_id

abbrev pub fixed_owner : FixedIncomeHolding → Text
fixed_owner h = h.user_id

stamp_fii-FiiIsValid :
    (id user_id : Text) (created updated : Time) (h : FiiHolding)
    → FiiIsValid h
    → FiiIsValid (stamp_fii id user_id created updated h)
stamp_fii-FiiIsValid id user_id created updated h v = record {
  ticker_matches = v.ticker_matches;
  quantity_pos = v.quantity_pos;
  price_nonneg = v.price_nonneg;
}

-- Whatever the repository does, creating and updating a FII holding either is refused with the state
-- as before, or is the repository's write of a valid holding that belongs to the caller, for an
-- update under the id asked for.
pub fii_writes-IsWrite :
    {S : Type 0} (repo : Repository S) (u : Unicode) (now : Time) (user_id id : Text)
    (input : FiiInput) (s : S)
    → IsWrite FiiIsValid fii_owner user_id repo.create_fii s
        (create_fii_holding repo u now user_id input s)
      × IsWrite
          (λ h. FiiIsValid h × (h.id ≡ id))
          fii_owner
          user_id
          repo.update_fii
          s
          (update_fii_holding repo u now user_id id input s)
unfolding create_fii_holding update_fii_holding
fii_writes-IsWrite repo u now user_id id input s = elim (Result-cases (build_fii_holding u input)) [
  | inl (h, built) ↦
      let valid = build_fii_holding-IsValid u input h built in
      (
        written (stamp_fii h.id user_id now now h) (stamp_fii-FiiIsValid _ _ _ _ h valid) refl
            (rw built refl),
        written (stamp_fii id user_id h.created_at now h)
            (stamp_fii-FiiIsValid _ _ _ _ h valid, refl) refl (rw built refl),
      )
  | inr (e, failed) ↦ (refused e (rw failed refl), refused e (rw failed refl))
]

stamp_fixed-FixedIncomeIsValid :
    (is_create : Bool) (id user_id : Text) (now created updated : Time) (h : FixedIncomeHolding)
    → FixedIncomeIsValid is_create now h
    → FixedIncomeIsValid is_create now (stamp_fixed id user_id created updated h)
stamp_fixed-FixedIncomeIsValid is_create id user_id now created updated h v = record {
  name_given = v.name_given;
  institution_given = v.institution_given;
  invested_pos = v.invested_pos;
  rate_nonneg = v.rate_nonneg;
  indexer_known = v.indexer_known;
  maturity_fits = v.maturity_fits;
}

-- Whatever the repository does, creating and updating a fixed-income holding either is refused with
-- the state as before, or is the repository's write, with the effective rate attached to its answer,
-- of a valid holding that belongs to the caller, for an update under the id asked for; the maturity
-- of a created holding is not past.
pub fixed_writes-IsWrite :
    {S : Type 0} (repo : Repository S) (u : Unicode) (read : MacroReader) (now : Time)
    (user_id id : Text) (input : FixedIncomeInput) (s : S)
    → IsWrite
        (FixedIncomeIsValid true now)
        fixed_owner
        user_id
        (λ h t. rated repo read (repo.create_fixed h t))
        s
        (create_fixed_income_holding repo u read now user_id input s)
      × IsWrite
          (λ h. FixedIncomeIsValid false now h × (h.id ≡ id))
          fixed_owner
          user_id
          (λ h t. rated repo read (repo.update_fixed h t))
          s
          (update_fixed_income_holding repo u read now user_id id input s)
unfolding create_fixed_income_holding update_fixed_income_holding
fixed_writes-IsWrite repo u read now user_id id input s =
    let create : IsWrite (FixedIncomeIsValid true now) fixed_owner user_id
        (λ h t. rated repo read (repo.create_fixed h t)) s
        (create_fixed_income_holding repo u read now user_id input s) =
      elim (Result-cases (build_fixed_income_holding u now input true)) [
        | inl (h, built) ↦
            let valid = build_fixed_income_holding-IsValid u now input true h built in
            written (stamp_fixed h.id user_id now now h)
              (stamp_fixed-FixedIncomeIsValid true _ _ now _ _ h valid) refl (rw built refl)
        | inr (e, failed) ↦ refused e (rw failed refl)
      ] in
    let update : IsWrite (λ h. FixedIncomeIsValid false now h × (h.id ≡ id)) fixed_owner user_id
        (λ h t. rated repo read (repo.update_fixed h t)) s
        (update_fixed_income_holding repo u read now user_id id input s) =
      elim (Result-cases (build_fixed_income_holding u now input false)) [
        | inl (h, built) ↦
            let valid = build_fixed_income_holding-IsValid u now input false h built in
            written (stamp_fixed id user_id h.created_at now h)
              (stamp_fixed-FixedIncomeIsValid false _ _ now _ _ h valid, refl) refl (rw built refl)
        | inr (e, failed) ↦ refused e (rw failed refl)
      ] in
    (create, update)
