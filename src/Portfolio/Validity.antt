-- ===== src/Portfolio/Validity.antt =====
-- internal/portfolio/service.go: the holdings that buildFIIHolding and buildFixedIncomeHolding build.
use yield_forge.Base.{
  ◌≡◌, ◌≢◌, ◌↔◌, ◌∙◌, sym, ap, inl, inr, Bool, true, false, Option, none, some, [], arith,
}
use yield_forge.Base.Int.{pos, ◌≤ℤ◌, ◌<ℤ◌}
use yield_forge.Base.Text.{Text, Unicode, text_eq}
use yield_forge.Base.Result.{Result-cases, ok}
use yield_forge.Marketdata.Ticker.{Ticker, matches_ticker, parse_ticker}
use yield_forge.Marketdata.Quote.{Time}
use yield_forge.Portfolio.Holding.{
  FiiHolding, FixedIncomeHolding, LiquidityType, daily, at_maturity, Indexer, unset, parse_quantity,
  parse_indexer, requires_maturity,
}
use yield_forge.Portfolio.Build.{
  FiiInput, FixedIncomeInput, build_fii_holding, build_fixed_income_holding, midnight,
  check_maturity,
}

pub record FiiIsValid (h : FiiHolding) : Type 0 where
  pub ticker_matches : matches_ticker h.ticker.value ≡ true
  pub quantity_pos : pos 0 <ℤ h.quantity.value
  pub price_nonneg : pos 0 ≤ℤ h.average_price_centavos

parse_ticker-matches :
    (u : Unicode) (s : Text) (t : Ticker) → parse_ticker u s ≡ ok t → matches_ticker t.value ≡ true
unfolding parse_ticker
parse_ticker-matches u s t h = ground arith

-- A FII holding that was built has a ticker of the right form, a positive quantity and an average
-- price that is not negative.
pub build_fii_holding-IsValid :
    (u : Unicode) (input : FiiInput) (h : FiiHolding)
    → build_fii_holding u input ≡ ok h
    → FiiIsValid h
unfolding build_fii_holding parse_quantity
build_fii_holding-IsValid u input h e = ground (arith, parse_ticker-matches u input.ticker h.ticker)

-- The holding that the input describes.
abbrev pub described_fii : FiiInput → Ticker → FiiHolding
described_fii input t = record {
  id = [];
  user_id = [];
  ticker = t;
  quantity = record { value = input.quantity };
  average_price_centavos = input.average_price_centavos;
  created_at = pos 0;
  updated_at = pos 0;
}

-- An input whose ticker parses, whose quantity is positive and whose average price is not negative
-- is built, into the holding that it describes.
build_fii_holding-described_fii :
    (u : Unicode) (input : FiiInput) (t : Ticker)
    → parse_ticker u input.ticker ≡ ok t
    → pos 0 <ℤ input.quantity
    → pos 0 ≤ℤ input.average_price_centavos
    → build_fii_holding u input ≡ ok (described_fii input t)
unfolding build_fii_holding parse_quantity
build_fii_holding-described_fii u input t parsed q p = rw parsed (ground (arith, q, p))

-- Building succeeds exactly when the ticker parses, the quantity is positive and the average price is
-- not negative, and then it gives the holding that the input describes.
pub build_fii_holding_iff :
    (u : Unicode) (input : FiiInput) (h : FiiHolding)
    → (build_fii_holding u input ≡ ok h) ↔ (
        (t : Ticker) × (parse_ticker u input.ticker ≡ ok t)
        × (pos 0 <ℤ input.quantity)
        × (pos 0 ≤ℤ input.average_price_centavos)
        × (h ≡ described_fii input t))
unfolding build_fii_holding parse_quantity
build_fii_holding_iff u input h = (
  λ e. elim (Result-cases (parse_ticker u input.ticker)) [
    | inr (x, bad) ↦ ground (arith, e, bad)
    | inl (t, parsed) ↦
        let q : pos 0 <ℤ input.quantity = ground (arith, e, parsed) in
        let p : pos 0 ≤ℤ input.average_price_centavos = ground (arith, e, parsed) in
        (t, parsed, q, p, ground (arith, e, build_fii_holding-described_fii u input t parsed q p))
  ],
  λ d. build_fii_holding-described_fii u input d.0 d.1 d.2 d.3 ∙ ap ok (sym d.4),
)

-- The maturity date that a liquidity type asks for.
abbrev pub MaturityFits : Bool → Time → LiquidityType → Option Time → Type 0
MaturityFits is_create now daily m = m ≡ none
MaturityFits true now at_maturity none = ⊥
MaturityFits true now at_maturity (some t) = midnight now ≤ℤ t
MaturityFits false now at_maturity none = ⊥
MaturityFits false now at_maturity (some t) = Unit

pub record FixedIncomeIsValid (is_create : Bool) (now : Time) (h : FixedIncomeHolding)
    : Type 0 where
  pub name_given : text_eq h.name [] ≡ false
  pub institution_given : text_eq h.institution [] ≡ false
  pub invested_pos : pos 0 <ℤ h.invested_amount_centavos
  pub rate_nonneg : pos 0 ≤ℤ h.annual_rate_bps
  pub indexer_known : h.indexer_type ≢ unset
  pub maturity_fits : MaturityFits is_create now h.liquidity_type h.maturity_date

parse_indexer-known : (u : Unicode) (s : Text) (i : Indexer) → parse_indexer u s ≡ ok i → i ≢ unset
unfolding parse_indexer
parse_indexer-known u s i h = ground arith

check_maturity-fits :
    (is_create : Bool) (now : Time) (lt : LiquidityType) (given m : Option Time)
    → check_maturity is_create now (requires_maturity lt) given ≡ ok m
    → MaturityFits is_create now lt m
check_maturity-fits is_create now daily given m h = ground arith
check_maturity-fits true now at_maturity none m h = ground arith
check_maturity-fits true now at_maturity (some t) none h = ground arith
check_maturity-fits true now at_maturity (some t) (some t') h = ground arith
check_maturity-fits false now at_maturity none m h = ground arith
check_maturity-fits false now at_maturity (some t) none h = ground arith
check_maturity-fits false now at_maturity (some t) (some t') h = tt

-- The three parsed fields of a holding that was built.
pub build_fixed_income_holding_fields :
    (u : Unicode) (now : Time) (input : FixedIncomeInput) (is_create : Bool)
    (h : FixedIncomeHolding)
    → build_fixed_income_holding u now input is_create ≡ ok h
    → (parse_indexer u input.indexer_type ≡ ok h.indexer_type)
      × (check_maturity is_create now (requires_maturity h.liquidity_type) input.maturity_date
          ≡ ok h.maturity_date)
unfolding build_fixed_income_holding
build_fixed_income_holding_fields u now input is_create h e = (ground arith, ground arith)

-- A fixed-income holding that was built has a name and an institution, a positive amount, a rate
-- that is not negative and a known indexer; a maturity date exactly if it is held to maturity, and
-- one that is not before today's midnight if it was built to be created.
pub build_fixed_income_holding-IsValid :
    (u : Unicode) (now : Time) (input : FixedIncomeInput) (is_create : Bool)
    (h : FixedIncomeHolding)
    → build_fixed_income_holding u now input is_create ≡ ok h
    → FixedIncomeIsValid is_create now h
unfolding build_fixed_income_holding
build_fixed_income_holding-IsValid u now input is_create h e = record {
  name_given = ground arith;
  institution_given = ground arith;
  invested_pos = ground arith;
  rate_nonneg = ground arith;
  indexer_known =
      parse_indexer-known u input.indexer_type h.indexer_type
        (build_fixed_income_holding_fields u now input is_create h e).0;
  maturity_fits =
      check_maturity-fits is_create now h.liquidity_type input.maturity_date h.maturity_date
        (build_fixed_income_holding_fields u now input is_create h e).1;
}
