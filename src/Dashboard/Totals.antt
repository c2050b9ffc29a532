-- ===== src/Dashboard/Totals.antt =====
-- internal/dashboard/compute.go: the summary and the shares that Compute reports.
use mathlib.Core.Path.{ap₂}
use yield_forge.Base.{◌≡◌, refl, List, [], ◌∷◌, ◌∙◌, ap, sym, subst, All}
use yield_forge.Base.Int.{ℤ, pos, ◌+ℤ◌, ◌-ℤ◌, int_laws}
use yield_forge.Base.Int64.{
  wrap64, wrap64-InInt64, add64, add64_lem, add64-wrap64, add64-wrap64_left, sub64, sub64-wrap64,
}
use yield_forge.Base.Dict.{Dict}
use yield_forge.Marketdata.Sector.{Sector}
use yield_forge.Money.Ratio.{accrue_simple_interest, share_bps}
use yield_forge.Marketdata.Quote.{Time}
use yield_forge.Portfolio.Holding.{FixedIncomeHolding, Holdings}
use yield_forge.Dashboard.Compute.{
  QuoteMap, add_fiis, add_fixed_incomes, days_between, compute, no_totals, Dashboard, allocation,
  sectors, sector_order,
}
use yield_forge.Dashboard.Reconcile.{costs, worths, incomes, unquoted, add_fiis-totals, +ℤ_assoc}
use yield_forge.Dashboard.Shares.{
  IsShared, IsShareOf, SectorIsShared, SectorHasShare, class_slices, share_bps-IsShareOf,
  sectors_from-HasShare, all-SectorsFit, SectorsFit,
}

-- The interest that a fixed-income holding has accrued by now.
abbrev pub accrued : Time → FixedIncomeHolding → ℤ
accrued now h =
    accrue_simple_interest h.invested_amount_centavos h.effective_annual_rate_bps
      (days_between h.created_at now)

abbrev pub invested_amounts : List FixedIncomeHolding → ℤ
invested_amounts [] = pos 0
invested_amounts (h ∷ hs) = h.invested_amount_centavos +ℤ invested_amounts hs

abbrev pub amounts_with_interest : Time → List FixedIncomeHolding → ℤ
amounts_with_interest now [] = pos 0
amounts_with_interest now (h ∷ hs) =
    h.invested_amount_centavos +ℤ accrued now h +ℤ amounts_with_interest now hs

add_two : (y a b : ℤ) → add64 (wrap64 y) (add64 a b) ≡ wrap64 (y +ℤ (a +ℤ b))
add_two y a b = rw (add64_lem a b) (add64-wrap64 y (a +ℤ b))

add_fixed_incomes_lem :
    (now : Time) (hs : List FixedIncomeHolding) (x y : ℤ)
    → add_fixed_incomes now hs (wrap64 x) (wrap64 y)
      ≡ (wrap64 (x +ℤ invested_amounts hs), wrap64 (y +ℤ amounts_with_interest now hs))
unfolding add_fixed_incomes
add_fixed_incomes_lem now [] x y =
    let keep = λ (z : ℤ). let e : z ≡ z +ℤ pos 0 = omega int_laws in ap wrap64 e in
    λ i. (keep x i, keep y i)
add_fixed_incomes_lem now (h ∷ hs) x y =
    let a = h.invested_amount_centavos in
    rw (add64-wrap64_left x a, add_two y a (accrued now h))
      (add_fixed_incomes_lem now hs (x +ℤ a) (y +ℤ (a +ℤ accrued now h)) ∙ λ i. (
        wrap64 (+ℤ_assoc x a (invested_amounts hs) i),
        wrap64 (+ℤ_assoc y (a +ℤ accrued now h) (amounts_with_interest now hs) i),
      ))

wrap64_zero : wrap64 (pos 0) ≡ pos 0
unfolding wrap64
wrap64_zero = refl

fixed_totals :
    (now : Time) (hs : List FixedIncomeHolding) (x t : ℤ)
    → t ≡ wrap64 x
    → add_fixed_incomes now hs t (pos 0)
      ≡ (wrap64 (x +ℤ invested_amounts hs), wrap64 (amounts_with_interest now hs))
fixed_totals now hs x t e =
    let start = ap₂ (λ (a b : ℤ). add_fixed_incomes now hs a b) e (sym wrap64_zero) in
    let zero_left : pos 0 +ℤ amounts_with_interest now hs ≡ amounts_with_interest now hs =
      omega int_laws in
    start ∙ add_fixed_incomes_lem now hs x (pos 0) ∙ λ i.
    (wrap64 (x +ℤ invested_amounts hs), wrap64 (zero_left i))

-- The figures of a summary as exact sums.
abbrev pub exact_cost : Holdings → ℤ
exact_cost holdings = costs holdings.fii +ℤ invested_amounts holdings.fixed_income

abbrev pub exact_worth : Holdings → QuoteMap → Time → ℤ
exact_worth holdings quotes now =
    worths quotes holdings.fii +ℤ amounts_with_interest now holdings.fixed_income

-- Compute calls ShareBps on parts and wholes only on which it returns.
pub record Returns (holdings : Holdings) (quotes : QuoteMap) (now : Time) : Type 0 where
  pub growth :
      IsShared
        (wrap64 (exact_worth holdings quotes now -ℤ exact_cost holdings))
        (wrap64 (exact_cost holdings))
  pub fii_class :
      IsShared (wrap64 (worths quotes holdings.fii)) (wrap64 (exact_worth holdings quotes now))
  pub fixed_class :
      IsShared
        (wrap64 (amounts_with_interest now holdings.fixed_income))
        (wrap64 (exact_worth holdings quotes now))
  pub sector_classes :
      All
        (SectorIsShared (wrap64 (worths quotes holdings.fii)))
        (compute holdings quotes now).fii_sectors

-- What `Compute` reports, as exact sums wrapped once to an int64, and the shares of these.
pub record Reports (holdings : Holdings) (quotes : QuoteMap) (now : Time) (d : Dashboard)
    : Type 0 where
  pub invested : d.summary.total_invested_centavos ≡ wrap64 (exact_cost holdings)
  pub current : d.summary.current_value_centavos ≡ wrap64 (exact_worth holdings quotes now)
  pub income : d.summary.monthly_income_centavos ≡ wrap64 (incomes quotes holdings.fii)
  pub growth :
      d.summary.growth_centavos ≡ wrap64 (exact_worth holdings quotes now -ℤ exact_cost holdings)
  pub growth_share :
      IsShareOf d.summary.growth_bps
        (wrap64 (exact_worth holdings quotes now -ℤ exact_cost holdings))
        (wrap64 (exact_cost holdings))
  pub fii_share : ℤ
  pub fii_share_is :
      IsShareOf fii_share
        (wrap64 (worths quotes holdings.fii))
        (wrap64 (exact_worth holdings quotes now))
  pub fixed_share : ℤ
  pub fixed_share_is :
      IsShareOf fixed_share
        (wrap64 (amounts_with_interest now holdings.fixed_income))
        (wrap64 (exact_worth holdings quotes now))
  pub classes :
      d.allocation
      ≡ class_slices
          (wrap64 (worths quotes holdings.fii))
          fii_share
          (wrap64 (amounts_with_interest now holdings.fixed_income))
          fixed_share
  pub sector_shares : All (SectorHasShare (wrap64 (worths quotes holdings.fii))) d.fii_sectors
  pub stale : d.stale_tickers ≡ unquoted quotes holdings.fii

sector_slices :
    (whole : ℤ) (m : Dict Sector ℤ) (fii_total : ℤ)
    → fii_total ≡ whole
    → SectorsFit m
    → All (SectorIsShared whole) (sectors m fii_total)
    → All (SectorHasShare whole) (sectors m fii_total)
unfolding sectors
sector_slices whole m fii_total same fit =
    subst (λ z. All (SectorIsShared whole) (sectors m z) → All (SectorHasShare whole) (sectors m z))
      (sym same) (sectors_from-HasShare sector_order m whole fit)

-- Where Compute calls ShareBps only on parts that are not the least int64, or on wholes that are not
-- positive: the invested total is the exact cost of all holdings, the current value their exact worth
-- at the quotes (at cost where there is none) plus the amounts with interest, the monthly income the
-- exact sum of the last dividends of the quoted holdings, the growth the difference of worth and
-- cost, each wrapped to an int64 once, whatever wrapped on the way; the growth in basis points is
-- what ShareBps returns for the growth in the invested total; the slices of the two classes hold
-- their worths and what ShareBps returns for these in the current value, the other two nothing; each
-- sector slice carries what ShareBps returns for its value in the worth of the FIIs; the stale
-- tickers are those without a quote, in the order of the holdings.
pub compute-Reports :
    (holdings : Holdings) (quotes : QuoteMap) (now : Time)
    → Returns holdings quotes now
    → Reports holdings quotes now (compute holdings quotes now)
unfolding compute allocation
compute-Reports holdings quotes now r =
    let k = add_fiis-totals quotes holdings.fii in
    let fixed = holdings.fixed_income in
    let cost = exact_cost holdings in
    let value = exact_worth holdings quotes now in
    let t = add_fiis quotes holdings.fii no_totals in
    let loop : add_fixed_incomes now fixed t.total_invested (pos 0)
        ≡ (wrap64 cost, wrap64 (amounts_with_interest now fixed)) =
      fixed_totals now fixed (costs holdings.fii) t.total_invested k.invested in
    let invested = ap (λ (p : ℤ × ℤ). p.0) loop in
    let interest = ap (λ (p : ℤ × ℤ). p.1) loop in
    let total = add64-wrap64 (worths quotes holdings.fii) (amounts_with_interest now fixed) in
    let current = ap₂ add64 k.current interest ∙ total in
    let growth = ap₂ sub64 current invested ∙ sub64-wrap64 value cost in
    let shared =
      λ (part whole : ℤ). share_bps-IsShareOf (wrap64 part) (wrap64 whole) (wrap64-InInt64 part) in
    record {
      invested = invested;
      current = current;
      income = k.income;
      growth = growth;
      growth_share =
          subst (λ (s : ℤ). IsShareOf s (wrap64 (value -ℤ cost)) (wrap64 cost))
            (sym (ap₂ share_bps growth invested)) (shared (value -ℤ cost) cost r.growth);
      fii_share = share_bps (wrap64 (worths quotes holdings.fii)) (wrap64 value);
      fii_share_is = shared (worths quotes holdings.fii) value r.fii_class;
      fixed_share = share_bps (wrap64 (amounts_with_interest now fixed)) (wrap64 value);
      fixed_share_is = shared (amounts_with_interest now fixed) value r.fixed_class;
      classes = rw (k.current, interest, total) refl;
      sector_shares =
          sector_slices (wrap64 (worths quotes holdings.fii)) t.sector_value t.fii_current k.current
            (all-SectorsFit quotes holdings.fii) r.sector_classes;
      stale = k.missing;
    }
