-- ===== src/Dashboard/Reconcile.antt =====
-- internal/dashboard/compute.go, the loop over the FII holdings, beside exact sums.
use mathlib.Core.List.{append_assoc, append-nil}
use yield_forge.Base.{◌≡◌, refl, Option, none, some, List, [], ◌∷◌, ◌++◌, ◌∙◌, ap}
use yield_forge.Base.Int.{ℤ, pos, ◌+ℤ◌, ◌*ℤ◌, int_laws}
use yield_forge.Base.Int64.{wrap64, add64, mul64, add64-wrap64, mul64_lem}
use yield_forge.Base.Text.{Text}
use yield_forge.Base.Dict.{lookup}
use yield_forge.Marketdata.Ticker.{ticker_key}
use yield_forge.Marketdata.Sector.{sector_key}
use yield_forge.Marketdata.Quote.{FiiQuote}
use yield_forge.Portfolio.Holding.{FiiHolding}
use yield_forge.Dashboard.Compute.{QuoteMap, FiiTotals, add_fii_at, add_fiis, no_totals}

-- Price times quantity, exactly.
abbrev pub cost : FiiHolding → ℤ
cost h = h.average_price_centavos *ℤ h.quantity.value

abbrev worth_at : Option FiiQuote → FiiHolding → ℤ
worth_at none h = cost h
worth_at (some q) h = q.price_centavos *ℤ h.quantity.value

-- The worth at the quote, or the cost where there is none.
abbrev pub worth : QuoteMap → FiiHolding → ℤ
worth quotes h = worth_at (lookup h.ticker quotes) h

abbrev income_at : Option FiiQuote → FiiHolding → ℤ
income_at none h = pos 0
income_at (some q) h = q.last_dividend_centavos *ℤ h.quantity.value

abbrev stale_at : Option FiiQuote → FiiHolding → List Text → List Text
stale_at none h rest = h.ticker.value ∷ rest
stale_at (some q) h rest = rest

abbrev pub costs : List FiiHolding → ℤ
costs [] = pos 0
costs (h ∷ hs) = cost h +ℤ costs hs

abbrev pub worths : QuoteMap → List FiiHolding → ℤ
worths quotes [] = pos 0
worths quotes (h ∷ hs) = worth quotes h +ℤ worths quotes hs

-- The last dividends of the holdings that have a quote.
abbrev pub incomes : QuoteMap → List FiiHolding → ℤ
incomes quotes [] = pos 0
incomes quotes (h ∷ hs) = income_at (lookup h.ticker quotes) h +ℤ incomes quotes hs

-- The tickers with no quote, in the order of the holdings.
abbrev pub unquoted : QuoteMap → List FiiHolding → List Text
unquoted quotes [] = []
unquoted quotes (h ∷ hs) = stale_at (lookup h.ticker quotes) h (unquoted quotes hs)

pub +ℤ_assoc : (a b c : ℤ) → a +ℤ b +ℤ c ≡ a +ℤ (b +ℤ c)
+ℤ_assoc a b c = omega int_laws

add_product : (x a b : ℤ) → add64 (wrap64 x) (mul64 a b) ≡ wrap64 (x +ℤ a *ℤ b)
add_product x a b = rw (mul64_lem a b) (add64-wrap64 x (a *ℤ b))

-- What a round does to the totals, whatever the quote.
pub record Tracks (quotes : QuoteMap) (x y z : ℤ) (out : List Text) (t : FiiTotals) : Type 0 where
  pub invested : t.total_invested ≡ wrap64 x
  pub current : t.fii_current ≡ wrap64 y
  pub income : t.monthly_income ≡ wrap64 z
  pub missing : t.stale ≡ out

round-Tracks :
    (quotes : QuoteMap) (x y z : ℤ) (out : List Text) (t : FiiTotals) (h : FiiHolding)
    (o : Option FiiQuote)
    → Tracks quotes x y z out t
    → Tracks quotes
        (x +ℤ cost h)
        (y +ℤ worth_at o h)
        (z +ℤ income_at o h)
        (out ++ stale_at o h [])
        (add_fii_at o h t)
unfolding add_fii_at
round-Tracks quotes x y z out t h none k = record {
  invested = rw k.invested (add_product x h.average_price_centavos h.quantity.value);
  current = rw k.current (add_product y h.average_price_centavos h.quantity.value);
  income = k.income ∙ ap wrap64 (omega int_laws);
  missing = rw k.missing;
}
round-Tracks quotes x y z out t h (some q) k = record {
  invested = rw k.invested (add_product x h.average_price_centavos h.quantity.value);
  current = rw k.current (add_product y q.price_centavos h.quantity.value);
  income = rw k.income (add_product z q.last_dividend_centavos h.quantity.value);
  missing = rw (k.missing, append-nil);
}

stale_at-append :
    (o : Option FiiQuote) (h : FiiHolding) (rest : List Text)
    → stale_at o h [] ++ rest ≡ stale_at o h rest
stale_at-append none h rest = refl
stale_at-append (some q) h rest = refl

add_fiis-Tracks :
    (quotes : QuoteMap) (hs : List FiiHolding) (x y z : ℤ) (out : List Text) (t : FiiTotals)
    → Tracks quotes x y z out t
    → Tracks quotes
        (x +ℤ costs hs)
        (y +ℤ worths quotes hs)
        (z +ℤ incomes quotes hs)
        (out ++ unquoted quotes hs)
        (add_fiis quotes hs t)
unfolding add_fiis
add_fiis-Tracks quotes [] x y z out t k = record {
  invested = k.invested ∙ ap wrap64 (omega int_laws);
  current = k.current ∙ ap wrap64 (omega int_laws);
  income = k.income ∙ ap wrap64 (omega int_laws);
  missing = rw (append-nil out) k.missing;
}
add_fiis-Tracks quotes (h ∷ hs) x y z out t k =
    let o = lookup h.ticker quotes in
    let rest =
      add_fiis-Tracks quotes hs (x +ℤ cost h) (y +ℤ worth_at o h) (z +ℤ income_at o h)
        (out ++ stale_at o h []) (add_fii_at o h t) (round-Tracks quotes x y z out t h o k) in
    record {
      invested = rest.invested ∙ ap wrap64 (+ℤ_assoc x (cost h) (costs hs));
      current = rest.current ∙ ap wrap64 (+ℤ_assoc y (worth_at o h) (worths quotes hs));
      income = rest.income ∙ ap wrap64 (+ℤ_assoc z (income_at o h) (incomes quotes hs));
      missing =
          rest.missing
          ∙ append_assoc out (stale_at o h []) (unquoted quotes hs)
          ∙ ap (λ (s : List Text). out ++ s) (stale_at-append o h (unquoted quotes hs));
    }

pub no_totals-Tracks : (quotes : QuoteMap) → Tracks quotes (pos 0) (pos 0) (pos 0) [] no_totals
unfolding wrap64
no_totals-Tracks quotes = record { invested = refl; current = refl; income = refl; missing = refl }

-- After the loop over the FII holdings.
pub add_fiis-totals :
    (quotes : QuoteMap) (hs : List FiiHolding)
    → Tracks quotes
        (costs hs)
        (worths quotes hs)
        (incomes quotes hs)
        (unquoted quotes hs)
        (add_fiis quotes hs no_totals)
add_fiis-totals quotes hs =
    let k =
      add_fiis-Tracks quotes hs (pos 0) (pos 0) (pos 0) [] no_totals (no_totals-Tracks quotes) in
    record {
      invested = k.invested ∙ ap wrap64 (omega int_laws);
      current = k.current ∙ ap wrap64 (omega int_laws);
      income = k.income ∙ ap wrap64 (omega int_laws);
      missing = k.missing;
    }
