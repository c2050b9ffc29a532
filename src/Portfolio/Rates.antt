-- ===== src/Portfolio/Rates.antt =====
-- internal/portfolio/service.go, ListHoldings: the effective rates of the listed holdings.
use yield_forge.Base.{◌≡◌, refl, List, [], ◌∷◌, map, arith}
use yield_forge.Base.Int.{ℤ}
use yield_forge.Base.Int64.{add64}
use yield_forge.Base.Text.{Text}
use yield_forge.Base.Dict.{lookup, insert}
use yield_forge.Base.Result.{Result, ok, err}
use yield_forge.Money.Ratio.{apply_bps}
use yield_forge.Marketdata.Indicator.{cdi, ipca, indicator_key}
use yield_forge.Marketdata.Quote.{MacroIndicator}
use yield_forge.Portfolio.Holding.{
  FiiHolding, FixedIncomeHolding, Indexer, prefixado, cdi_percentual, ipca_spread, unset,
  resolve_effective_rate,
}
use yield_forge.Portfolio.Service.{
  Repository, MacroReader, latest_macro, with_effective_rates, list_holdings,
}

-- The effective rate by the answer of the reader: a share of the CDI, a spread over the IPCA, and the
-- rate itself without a reading or without an indexer.
abbrev pub cdi_rate : ℤ → Result MacroIndicator → ℤ
cdi_rate rate (ok m) = apply_bps m.value rate
cdi_rate rate (err e) = rate

abbrev pub ipca_rate : ℤ → Result MacroIndicator → ℤ
ipca_rate rate (ok m) = add64 rate m.value
ipca_rate rate (err e) = rate

abbrev pub expected_rate : MacroReader → Indexer → ℤ → ℤ
expected_rate read prefixado rate = rate
expected_rate read unset rate = rate
expected_rate read cdi_percentual rate = cdi_rate rate (read cdi)
expected_rate read ipca_spread rate = ipca_rate rate (read ipca)

abbrev pub expected : MacroReader → FixedIncomeHolding → FixedIncomeHolding
expected read h = record h {
  effective_annual_rate_bps = expected_rate read h.indexer_type h.annual_rate_bps;
}

resolved :
    (read : MacroReader) (c i : Result MacroIndicator) (h : FixedIncomeHolding)
    → read cdi ≡ c
    → read ipca ≡ i
    → resolve_effective_rate h (latest_macro read)
      ≡ expected_rate read h.indexer_type h.annual_rate_bps
unfolding resolve_effective_rate latest_macro lookup insert
resolved read (ok c) (ok i) h e f = rw (e, f) (ground arith)
resolved read (ok c) (err i) h e f = rw (e, f) (ground arith)
resolved read (err c) (ok i) h e f = rw (e, f) (ground arith)
resolved read (err c) (err i) h e f = rw (e, f) (ground arith)

map_resolved :
    (read : MacroReader) (hs : List FixedIncomeHolding)
    → with_effective_rates read hs ≡ map (expected read) hs
unfolding with_effective_rates
map_resolved read [] = refl
map_resolved read (h ∷ hs) =
    rw (resolved read (read cdi) (read ipca) h refl refl, map_resolved read hs) refl

-- Where the repository answers both reads, the listing succeeds whatever the macro reader answers,
-- with the FII holdings as they are and every fixed-income holding in its place with its effective
-- rate: a share of the CDI, a spread over the IPCA, or the holding's own rate without a reading or an
-- indexer.
pub list_holdings-expected :
    {S : Type 0} (repo : Repository S) (read : MacroReader) (user_id : Text) (s : S)
    (fs : List FiiHolding) (xs : List FixedIncomeHolding)
    → repo.list_fii user_id s ≡ ok fs
    → repo.list_fixed user_id s ≡ ok xs
    → list_holdings repo read user_id s
      ≡ ok (record { fii = fs; fixed_income = map (expected read) xs })
unfolding list_holdings
list_holdings-expected repo read user_id s fs xs e f = rw (e, f, map_resolved read xs) refl
