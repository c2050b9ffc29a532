-- ===== src/Portfolio/Service.antt =====
-- internal/portfolio/service.go: the operations, over the repository of ports.go. The state of the
-- repository is passed from call to call; the macro reader answers as it does during one request, and
-- the clock's now is an argument.
use yield_forge.Base.{true, false, List, [], map}
use yield_forge.Base.Text.{Text, Unicode}
use yield_forge.Base.Dict.{insert}
use yield_forge.Base.Result.{Result, ok, err, ◌>>=◌}
use yield_forge.Marketdata.Indicator.{Indicator, cdi, ipca, indicator_key}
use yield_forge.Marketdata.Quote.{Time, MacroIndicator}
use yield_forge.Portfolio.Holding.{
  FiiHolding, FixedIncomeHolding, Holdings, MacroMap, resolve_effective_rate,
}
use yield_forge.Portfolio.Build.{
  FiiInput, FixedIncomeInput, build_fii_holding, build_fixed_income_holding,
}

-- `Repository`, over states S: an answer and the state after the call.
pub record Repository (S : Type 0) : Type 0 where
  pub create_fii : FiiHolding → S → Result FiiHolding × S
  pub list_fii : Text → S → Result (List FiiHolding)
  pub update_fii : FiiHolding → S → Result FiiHolding × S
  pub delete_fii : Text → Text → S → Result (Unit {0}) × S
  pub create_fixed : FixedIncomeHolding → S → Result FixedIncomeHolding × S
  pub list_fixed : Text → S → Result (List FixedIncomeHolding)
  pub update_fixed : FixedIncomeHolding → S → Result FixedIncomeHolding × S
  pub delete_fixed : Text → Text → S → Result (Unit {0}) × S

abbrev pub MacroReader : Type 0
MacroReader = Indicator → Result MacroIndicator

-- `if m, err := …; err == nil { out[ind] = m }`.
abbrev pub keep_reading : Indicator → Result MacroIndicator → MacroMap → MacroMap
keep_reading ind (ok m) out = insert ind m out
keep_reading ind (err e) out = out

unfoldable pub latest_macro : MacroReader → MacroMap
latest_macro read = keep_reading ipca (read ipca) (keep_reading cdi (read cdi) [])

abbrev pub attach_rate : MacroMap → FixedIncomeHolding → FixedIncomeHolding
attach_rate rates h = record h { effective_annual_rate_bps = resolve_effective_rate h rates }

unfoldable pub with_effective_rate : MacroReader → FixedIncomeHolding → FixedIncomeHolding
with_effective_rate read h = attach_rate (latest_macro read) h

unfoldable pub with_effective_rates :
    MacroReader → List FixedIncomeHolding → List FixedIncomeHolding
with_effective_rates read holdings = map (attach_rate (latest_macro read)) holdings

abbrev pub stamp_fii : Text → Text → Time → Time → FiiHolding → FiiHolding
stamp_fii id user_id created updated h = record h {
  id = id;
  user_id = user_id;
  created_at = created;
  updated_at = updated;
}

abbrev pub stamp_fixed : Text → Text → Time → Time → FixedIncomeHolding → FixedIncomeHolding
stamp_fixed id user_id created updated h = record h {
  id = id;
  user_id = user_id;
  created_at = created;
  updated_at = updated;
}

module _ {S : Type 0} (repo : Repository S) where
  -- A holding that was built goes to the repository, an error leaves it alone.
  abbrev pub store : {H : Type 0} → Result H → (H → S → Result H × S) → S → Result H × S
  store (ok h) call s = call h s
  store (err e) call s = (err e, s)

  unfoldable pub create_fii_holding : Unicode → Time → Text → FiiInput → S → Result FiiHolding × S
  create_fii_holding u now user_id input s =
      store (build_fii_holding u input) (λ h. repo.create_fii (stamp_fii h.id user_id now now h)) s

  unfoldable pub list_fii_holdings : Text → S → Result (List FiiHolding)
  list_fii_holdings user_id s = repo.list_fii user_id s

  unfoldable pub update_fii_holding :
      Unicode → Time → Text → Text → FiiInput → S → Result FiiHolding × S
  update_fii_holding u now user_id id input s =
      store (build_fii_holding u input)
        (λ h. repo.update_fii (stamp_fii id user_id h.created_at now h)) s

  unfoldable pub delete_fii_holding : Text → Text → S → Result (Unit {0}) × S
  delete_fii_holding user_id id s = repo.delete_fii user_id id s

  -- The effective rate is attached to what the repository answers.
  abbrev pub rated : MacroReader → Result FixedIncomeHolding × S → Result FixedIncomeHolding × S
  rated read (ok h, s) = (ok (with_effective_rate read h), s)
  rated read (err e, s) = (err e, s)

  unfoldable pub create_fixed_income_holding :
      Unicode → MacroReader → Time → Text → FixedIncomeInput → S → Result FixedIncomeHolding × S
  create_fixed_income_holding u read now user_id input s =
      store (build_fixed_income_holding u now input true)
        (λ h t. rated read (repo.create_fixed (stamp_fixed h.id user_id now now h) t)) s

  unfoldable pub list_fixed_income_holdings :
      MacroReader → Text → S → Result (List FixedIncomeHolding)
  list_fixed_income_holdings read user_id s = do
    holdings ← repo.list_fixed user_id s
    ok (with_effective_rates read holdings)

  unfoldable pub update_fixed_income_holding :
      Unicode
      → MacroReader
      → Time
      → Text
      → Text
      → FixedIncomeInput
      → S
      → Result FixedIncomeHolding × S
  update_fixed_income_holding u read now user_id id input s =
      store (build_fixed_income_holding u now input false)
        (λ h t. rated read (repo.update_fixed (stamp_fixed id user_id h.created_at now h) t)) s

  unfoldable pub delete_fixed_income_holding : Text → Text → S → Result (Unit {0}) × S
  delete_fixed_income_holding user_id id s = repo.delete_fixed user_id id s

  unfoldable pub list_holdings : MacroReader → Text → S → Result Holdings
  list_holdings read user_id s = do
    fii ← repo.list_fii user_id s
    fixed_income ← repo.list_fixed user_id s
    ok (record { fii = fii; fixed_income = with_effective_rates read fixed_income })
