-- ===== src/Tests/Advice.antt =====
-- internal/health, internal/insight and internal/rebalancing at concrete inputs.
use yield_forge.Base.{false, ℕ, ◌+◌, ◌≤◌, ◌≡◌, ◌↔◌, refl, true, List, [], ◌∷◌, map, sum, All, arith}
use yield_forge.Base.Int.{ℤ, pos}
use yield_forge.Base.Text.{codes, text_eq}
use yield_forge.Base.Result.{ok}
use yield_forge.Marketdata.Quote.{FiiQuote}
use yield_forge.Dashboard.Compute.{AssetClass, fii, fixed_income, stocks, etfs}
use yield_forge.Profile.Values.{conservative, moderate, aggressive}
use yield_forge.Money.Allocate.Shares.{sum_ℤ}
use yield_forge.Health.Compute.{Inputs, target_fii_share_bps}
use yield_forge.Health.Target.{target_fii_share_bps-band}
use yield_forge.Rebalancing.Split.{split, assign_illustrative_shares}
use yield_forge.Rebalancing.Whole.{holding, suggested_share, sum-split}
use yield_forge.Rebalancing.Illustrative.{sum-assign_illustrative_shares}
use yield_forge.Rebalancing.Candidates.{build_candidates}
use yield_forge.Rebalancing.Grounded.{IsSurfaced, build_candidates-IsGrounded}
use yield_forge.Insight.Gate.{Insight, InsightResult, Pattern, IsFit, gate, gate_iff}
use yield_forge.Tests.{plain, quote}

abbrev some_inputs : Inputs
some_inputs = record {
  current_value_centavos = pos 1000000;
  fii_value_centavos = pos 600000;
  fixed_income_value_centavos = pos 400000;
  liquid_value_centavos = pos 800000;
  holdings_count = pos 4;
  fii_sector_count = pos 2;
  largest_sector_bps = pos 7000;
  largest_class_bps = pos 6000;
  risk = moderate;
  has_profile = true;
  selic_bps = pos 1350;
  has_macro = true;
}

target_fii_share_bps-band_example :
    (a : ℕ) × (b : ℕ) × (target_fii_share_bps aggressive (pos 900) true ≡ pos a)
    × (target_fii_share_bps aggressive (pos 1350) true ≡ pos b)
    × (b ≤ a)
    × (a ≤ 7000)
    × (7000 ≤ b + 1000)
target_fii_share_bps-band_example =
    target_fii_share_bps-band aggressive 900 1350 (omega arith) (omega arith)

abbrev values : AssetClass → ℤ
values fii = pos 600000
values fixed_income = pos 400000
values stocks = pos 0
values etfs = pos 0

sum-split_example :
    sum_ℤ (
      map suggested_share
        (split (holding 1000000 values) conservative (record { centavos = pos 5000 })))
    ≡ pos 10000
sum-split_example =
    sum-split 1000000 5000 600000 400000 conservative values (omega arith) (omega arith)
      (omega arith) refl refl

sum-assign_illustrative_shares_example :
    (ss : List ℕ) × (assign_illustrative_shares 3 (pos 10000) ≡ map pos ss)
    × (sum ss ≡ 10000)
    × All (λ s. (3333 ≤ s) × (s ≤ 3334)) ss
sum-assign_illustrative_shares_example =
    sum-assign_illustrative_shares 3 10000 (omega arith) (omega arith) (omega arith)

abbrev advice : Insight
advice = record {
  category = codes "diversificacao";
  title = codes "HGLG11";
  detail = codes "Setor pouco representado";
  explanation = codes "A carteira tem um setor apenas";
}

abbrev answer : InsightResult
answer = record { insights = advice ∷ []; disclaimer = [] }

abbrev shown : InsightResult
shown = record { insights = advice ∷ []; disclaimer = codes "aviso" }

-- One expression, which matches a text that is the order alone.
abbrev patterns : List Pattern
patterns = (λ t. text_eq t (codes "compre")) ∷ []

gate_iff_example : (gate patterns (codes "aviso") (ok answer) ≡ ok shown) ↔ (
    All (IsFit patterns) (advice ∷ [])
    × (shown ≡ record { insights = advice ∷ []; disclaimer = codes "aviso" }))
gate_iff_example = gate_iff patterns (codes "aviso") answer shown

abbrev universe : List FiiQuote
universe = quote ∷ []

build_candidates-IsGrounded_example :
    IsSurfaced plain universe false
      (advice ∷ [])
      (build_candidates plain universe false (ok answer) (pos 6000) true)
build_candidates-IsGrounded_example =
    build_candidates-IsGrounded plain universe false (ok answer) (pos 6000) true
