-- ===== src/Portfolio/Postgres/Runs.antt =====
-- internal/portfolio: histories of calls of the service, over the tables of its repository.
use yield_forge.Base.{◌≡◌, refl, ◌∙◌, true, false, some, List, [], ◌∷◌, inl, inr, All}
use yield_forge.Base.Text.{Text, Unicode}
use yield_forge.Base.Result.{Result, ok, err, Result-cases}
use yield_forge.Base.Database.{Database}
use yield_forge.Marketdata.Quote.{Time}
use yield_forge.Portfolio.Holding.{FixedIncomeHolding}
use yield_forge.Portfolio.Build.{
  FiiInput, FixedIncomeInput, build_fii_holding, build_fixed_income_holding,
}
use yield_forge.Portfolio.Service.{
  MacroReader, create_fii_holding, update_fii_holding, delete_fii_holding,
  create_fixed_income_holding, update_fixed_income_holding, delete_fixed_income_holding,
  list_holdings, stamp_fii, stamp_fixed, rated,
}
use yield_forge.Portfolio.Postgres.{Tables}
use yield_forge.Portfolio.Postgres.Statements.{
  create_fii, update_fii, delete_fii, create_fixed, update_fixed, delete_fixed, list_fii,
  list_fixed, postgres,
}
use yield_forge.Portfolio.Postgres.Isolation.{
  IsUntouched, IsOther, unmoved, insert_fii-IsUntouched, change_fii_of-IsUntouched,
  remove_fii-IsUntouched, insert_fixed-IsUntouched, change_fixed_of-IsUntouched,
  remove_fixed-IsUntouched,
}

-- What a user asks the service for, at a time; the listings change nothing.
pub data Call : Type 0 where
  adds_fii : FiiInput → Call
  edits_fii : Text → FiiInput → Call
  drops_fii : Text → Call
  adds_fixed : FixedIncomeInput → Call
  edits_fixed : Text → FixedIncomeInput → Call
  drops_fixed : Text → Call

pub record Request : Type 0 where
  pub user_id : Text
  pub at : Time
  pub call : Call

module _ (db : Database) (u : Unicode) (read : MacroReader) where
  abbrev pub answer : Text → Time → Call → Tables → Tables
  answer user now (adds_fii input) s = (create_fii_holding (postgres db u) u now user input s).1
  answer user now (edits_fii id input) s =
      (update_fii_holding (postgres db u) u now user id input s).1
  answer user now (drops_fii id) s = (delete_fii_holding (postgres db u) user id s).1
  answer user now (adds_fixed input) s =
      (create_fixed_income_holding (postgres db u) u read now user input s).1
  answer user now (edits_fixed id input) s =
      (update_fixed_income_holding (postgres db u) u read now user id input s).1
  answer user now (drops_fixed id) s = (delete_fixed_income_holding (postgres db u) user id s).1

  unfoldable pub run : List Request → Tables → Tables
  run [] s = s
  run (q ∷ qs) s = run qs (answer q.user_id q.at q.call s)

  module _ (other : Text) where
    rated-after :
        (out : Result FixedIncomeHolding × Tables) → (rated (postgres db u) read out).1 ≡ out.1
    rated-after (ok h, s) = refl
    rated-after (err e, s) = refl

    answer-IsUntouched :
        (user : Text) (now : Time) (c : Call) (s : Tables)
        → IsOther other (db.uuid user)
        → IsUntouched other s (answer user now c s)
    unfolding create_fii_holding update_fii_holding delete_fii_holding create_fixed_income_holding
        update_fixed_income_holding delete_fixed_income_holding create_fii update_fii delete_fii
        create_fixed update_fixed delete_fixed
    answer-IsUntouched user now (adds_fii input) s ne =
        elim (Result-cases (build_fii_holding u input)) [
          | inl (h, built) ↦
              rw (answer, built) (insert_fii-IsUntouched db u other (db.uuid user) _ s ne)
          | inr (e, failed) ↦ rw (answer, failed) (unmoved other s)
        ]
    answer-IsUntouched user now (edits_fii id input) s ne =
        elim (Result-cases (build_fii_holding u input)) [
          | inl (h, built) ↦
              rw (answer, built)
                (change_fii_of-IsUntouched db u other (db.uuid id) (db.uuid user)
                  (stamp_fii id user h.created_at now h) s ne)
          | inr (e, failed) ↦ rw (answer, failed) (unmoved other s)
        ]
    answer-IsUntouched user now (drops_fii id) s ne =
        remove_fii-IsUntouched db u other (db.uuid id) (db.uuid user) s ne
    answer-IsUntouched user now (adds_fixed input) s ne =
        elim (Result-cases (build_fixed_income_holding u now input true)) [
          | inl (h, built) ↦
              rw (answer, built, rated-after)
                (insert_fixed-IsUntouched db u other (db.uuid user) _ s ne)
          | inr (e, failed) ↦ rw (answer, failed) (unmoved other s)
        ]
    answer-IsUntouched user now (edits_fixed id input) s ne =
        elim (Result-cases (build_fixed_income_holding u now input false)) [
          | inl (h, built) ↦
              rw (answer, built, rated-after)
                (change_fixed_of-IsUntouched db u other (db.uuid id) (db.uuid user)
                  (stamp_fixed id user h.created_at now h) s ne)
          | inr (e, failed) ↦ rw (answer, failed) (unmoved other s)
        ]
    answer-IsUntouched user now (drops_fixed id) s ne =
        remove_fixed-IsUntouched db u other (db.uuid id) (db.uuid user) s ne

    run-IsUntouched :
        (qs : List Request) (s : Tables)
        → All (λ q. IsOther other (db.uuid q.user_id)) qs
        → IsUntouched other s (run qs s)
    unfolding run
    run-IsUntouched [] s a = unmoved other s
    run-IsUntouched (q ∷ qs) s (ne, a) =
        let first = answer-IsUntouched q.user_id q.at q.call s ne in
        let rest = run-IsUntouched qs (answer q.user_id q.at q.call s) a in
        record { fii = rest.fii ∙ first.fii; fixed = rest.fixed ∙ first.fixed }

  -- Where the user's identifier casts to a uuid: no history of calls of users whose identifiers do not
  -- cast to that uuid, whatever they ask for and whether it succeeds, changes what the user's listing
  -- answers.
  pub list_holdings-run :
      (user other : Text) (qs : List Request) (s : Tables)
      → db.uuid user ≡ some other
      → All (λ q. IsOther other (db.uuid q.user_id)) qs
      → list_holdings (postgres db u) read user (run qs s)
        ≡ list_holdings (postgres db u) read user s
  unfolding list_holdings list_fii list_fixed
  list_holdings-run user other qs s e a =
      let kept = run-IsUntouched other qs s a in rw (e, kept.fii, kept.fixed) refl
