-- ===== src/Portfolio/Described.antt =====
-- internal/portfolio/service.go: what buildFixedIncomeHolding accepts, and into which holding.
use yield_forge.Base.{
  ◌≡◌, refl, ◌≢◌, ◌↔◌, ◌∙◌, sym, ap, Bool, true, false, Option, none, some, [], arith,
}
use yield_forge.Base.Int.{pos, ◌≤ℤ◌, ◌<ℤ◌}
use yield_forge.Base.Text.{Unicode, text_eq, text_eq_iff, trim_space}
use yield_forge.Base.Result.{ok}
use yield_forge.Marketdata.Quote.{Time}
use yield_forge.Portfolio.Holding.{
  FixedIncomeHolding, LiquidityType, daily, at_maturity, Indexer, parse_indexer,
  parse_liquidity_type, requires_maturity,
}
use yield_forge.Portfolio.Build.{
  FixedIncomeInput, build_fixed_income_holding, midnight, check_maturity,
}
use yield_forge.Portfolio.Validity.{build_fixed_income_holding_fields}

-- The holding that the input describes, with its parsed fields.
abbrev pub described_fixed_income :
    FixedIncomeInput → LiquidityType → Indexer → Option Time → FixedIncomeHolding
described_fixed_income input lt i m = record {
  id = [];
  user_id = [];
  name = trim_space input.name;
  institution = trim_space input.institution;
  invested_amount_centavos = input.invested_amount_centavos;
  annual_rate_bps = input.annual_rate_bps;
  indexer_type = i;
  effective_annual_rate_bps = pos 0;
  maturity_date = m;
  liquidity_type = lt;
  created_at = pos 0;
  updated_at = pos 0;
}

-- The maturity that a holding of the liquidity type carries, from the given one.
abbrev pub MaturityKept : Bool → Time → LiquidityType → Option Time → Option Time → Type 0
MaturityKept is_create now daily given m = m ≡ none
MaturityKept is_create now at_maturity given m =
    (t : Time) × (given ≡ some t) × (m ≡ some t) × (is_create ≡ true → midnight now ≤ℤ t)

-- The input is one that can be built, and the holding is what it describes.
pub record DescribesFixedIncome (u : Unicode) (now : Time) (input : FixedIncomeInput)
    (is_create : Bool) (h : FixedIncomeHolding) : Type 0 where
  pub name_given : trim_space input.name ≢ []
  pub institution_given : trim_space input.institution ≢ []
  pub invested_pos : pos 0 <ℤ input.invested_amount_centavos
  pub rate_nonneg : pos 0 ≤ℤ input.annual_rate_bps
  pub liquidity_parsed : parse_liquidity_type u input.liquidity_type ≡ ok h.liquidity_type
  pub indexer_parsed : parse_indexer u input.indexer_type ≡ ok h.indexer_type
  pub maturity_kept :
      MaturityKept is_create now h.liquidity_type input.maturity_date h.maturity_date
  pub described : h ≡ described_fixed_income input h.liquidity_type h.indexer_type h.maturity_date

check_maturity-kept :
    (is_create : Bool) (now : Time) (lt : LiquidityType) (given m : Option Time)
    → (check_maturity is_create now (requires_maturity lt) given ≡ ok m)
      ↔ MaturityKept is_create now lt given m
check_maturity-kept is_create now daily given m = (λ e. ground (arith, e), λ e. ap ok (sym e))
check_maturity-kept is_create now at_maturity none m =
    (λ e. absurd (ground (arith, e)), λ k. absurd (ground (arith, k.1)))
check_maturity-kept false now at_maturity (some t) m = (
  λ e. (t, refl, ground (arith, e), λ c. absurd (ground (arith, c))),
  λ k. ground (arith, k.1, k.2),
)
check_maturity-kept true now at_maturity (some t) m = (
  λ e. (t, refl, ground (arith, e), λ c. ground (arith, e)),
  λ k.
      let same : t ≡ k.0 = ground (arith, k.1) in
      let in_time : midnight now ≤ℤ k.0 = k.3 refl in
      let kept : m ≡ some k.0 = k.2 in ground (arith, same, in_time, kept),
)

build_fixed_income_holding-described_fixed_income :
    (u : Unicode) (now : Time) (input : FixedIncomeInput) (is_create : Bool) (lt : LiquidityType)
    (i : Indexer) (m : Option Time)
    → trim_space input.name ≢ []
    → trim_space input.institution ≢ []
    → pos 0 <ℤ input.invested_amount_centavos
    → pos 0 ≤ℤ input.annual_rate_bps
    → parse_liquidity_type u input.liquidity_type ≡ ok lt
    → parse_indexer u input.indexer_type ≡ ok i
    → check_maturity is_create now (requires_maturity lt) input.maturity_date ≡ ok m
    → build_fixed_income_holding u now input is_create ≡ ok (described_fixed_income input lt i m)
unfolding build_fixed_income_holding
build_fixed_income_holding-described_fixed_income u now input is_create lt i m n s a r pl pi pm =
    let name_given : text_eq (trim_space input.name) [] ≡ false =
      ground (arith, n, text_eq_iff (trim_space input.name) []) in
    let institution_given : text_eq (trim_space input.institution) [] ≡ false =
      ground (arith, s, text_eq_iff (trim_space input.institution) []) in
    rw (name_given, institution_given, pl, pi, pm) (ground (arith, a, r))

built_describes :
    (u : Unicode) (now : Time) (input : FixedIncomeInput) (is_create : Bool)
    (h : FixedIncomeHolding)
    → build_fixed_income_holding u now input is_create ≡ ok h
    → DescribesFixedIncome u now input is_create h
unfolding build_fixed_income_holding
built_describes u now input is_create h e =
    let fields = build_fixed_income_holding_fields u now input is_create h e in
    record {
      name_given = ground (arith, text_eq_iff (trim_space input.name) []);
      institution_given = ground (arith, text_eq_iff (trim_space input.institution) []);
      invested_pos = ground arith;
      rate_nonneg = ground arith;
      liquidity_parsed = ground arith;
      indexer_parsed = fields.0;
      maturity_kept =
          (check_maturity-kept is_create now h.liquidity_type input.maturity_date h.maturity_date).0
            fields.1;
      described = ground arith;
    }

-- Building succeeds exactly when the name and the institution are not blank, the amount is positive,
-- the rate is not negative, the liquidity type and the indexer parse, and a holding to maturity has
-- a maturity date, which is not before today's midnight where it is created; and then it gives the
-- holding that the input describes, without a maturity date where it is liquid daily.
pub build_fixed_income_holding_iff :
    (u : Unicode) (now : Time) (input : FixedIncomeInput) (is_create : Bool)
    (h : FixedIncomeHolding)
    → (build_fixed_income_holding u now input is_create ≡ ok h)
      ↔ DescribesFixedIncome u now input is_create h
build_fixed_income_holding_iff u now input is_create h = (
  built_describes u now input is_create h,
  λ d.
      build_fixed_income_holding-described_fixed_income u now input is_create h.liquidity_type
        h.indexer_type h.maturity_date d.name_given d.institution_given d.invested_pos d.rate_nonneg
        d.liquidity_parsed d.indexer_parsed
        ((check_maturity-kept is_create now h.liquidity_type input.maturity_date h.maturity_date).1
          d.maturity_kept)
      ∙ ap ok (sym d.described),
)
