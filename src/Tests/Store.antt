-- ===== src/Tests/Store.antt =====
-- internal/portfolio/service.go over a repository that keeps two lists.
use yield_forge.Base.{◌≡◌, refl, true, false, [], ◌∷◌, map}
use yield_forge.Base.Int.{pos}
use yield_forge.Base.Text.{codes}
use yield_forge.Base.Result.{ok, err, macro_not_found}
use yield_forge.Portfolio.Holding.{Holdings}
use yield_forge.Portfolio.Validity.{FiiIsValid, FixedIncomeIsValid}
use yield_forge.Portfolio.Service.{
  Repository, MacroReader, create_fii_holding, update_fii_holding, create_fixed_income_holding,
  update_fixed_income_holding, list_holdings, rated,
}
use yield_forge.Portfolio.Rates.{expected, list_holdings-expected}
use yield_forge.Portfolio.Ownership.{
  IsWrite, fii_owner, fixed_owner, fii_writes-IsWrite, fixed_writes-IsWrite,
}
use yield_forge.Tests.{plain}
use yield_forge.Tests.Portfolio.{fund_input, bond_input, bond}

-- A repository that puts every write in front and removes nothing.
abbrev lists : Repository Holdings
lists = record {
  create_fii = λ h s. (ok h, record s { fii = h ∷ s.fii });
  list_fii = λ user_id s. ok s.fii;
  update_fii = λ h s. (ok h, record s { fii = h ∷ s.fii });
  delete_fii = λ user_id id s. (ok tt, s);
  create_fixed = λ h s. (ok h, record s { fixed_income = h ∷ s.fixed_income });
  list_fixed = λ user_id s. ok s.fixed_income;
  update_fixed = λ h s. (ok h, record s { fixed_income = h ∷ s.fixed_income });
  delete_fixed = λ user_id id s. (ok tt, s);
}

-- A reader without readings.
abbrev no_readings : MacroReader
no_readings ind = err macro_not_found

abbrev start : Holdings
start = record { fii = []; fixed_income = bond ∷ [] }

list_holdings-expected_example :
    list_holdings lists no_readings (codes "u1") start
    ≡ ok (record { fii = []; fixed_income = map (expected no_readings) (bond ∷ []) })
list_holdings-expected_example =
    list_holdings-expected lists no_readings (codes "u1") start [] (bond ∷ []) refl refl

fii_writes-IsWrite_example :
    IsWrite FiiIsValid fii_owner
      (codes "u1")
      lists.create_fii
      start
      (create_fii_holding lists plain (pos 7) (codes "u1") fund_input start)
    × IsWrite
        (λ h. FiiIsValid h × (h.id ≡ codes "h1"))
        fii_owner
        (codes "u1")
        lists.update_fii
        start
        (update_fii_holding lists plain (pos 7) (codes "u1") (codes "h1") fund_input start)
fii_writes-IsWrite_example =
    fii_writes-IsWrite lists plain (pos 7) (codes "u1") (codes "h1") fund_input start

fixed_writes-IsWrite_example :
    IsWrite
      (FixedIncomeIsValid true (pos 7))
      fixed_owner
      (codes "u1")
      (λ h t. rated lists no_readings (lists.create_fixed h t))
      start
      (create_fixed_income_holding lists plain no_readings (pos 7) (codes "u1") bond_input start)
    × IsWrite
        (λ h. FixedIncomeIsValid false (pos 7) h × (h.id ≡ codes "h1"))
        fixed_owner
        (codes "u1")
        (λ h t. rated lists no_readings (lists.update_fixed h t))
        start
        (update_fixed_income_holding lists plain no_readings
          (pos 7)
          (codes "u1")
          (codes "h1")
          bond_input
          start)
fixed_writes-IsWrite_example =
    fixed_writes-IsWrite lists plain no_readings (pos 7) (codes "u1") (codes "h1") bond_input start
