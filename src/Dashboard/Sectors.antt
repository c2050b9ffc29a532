-- ===== src/Dashboard/Sectors.antt =====
-- internal/dashboard/compute.go, the sector breakdown.
use mathlib.Core.Option
use yield_forge.Base.{
  ◌≡◌, refl, Option, none, some, List, [], ◌∷◌, ◌∙◌, ap, sym, Bool-cases, inl, inr, if◌then◌else◌,
}
use yield_forge.Base.Int.{ℤ, pos, ◌+ℤ◌, ◌-ℤ◌, int_laws}
use yield_forge.Base.Int64.{wrap64, add64, mul64, add64_lem, add64-wrap64_left, wrap64-add_right}
use yield_forge.Base.Dict.{Dict, lookup, lookup-insert}
use yield_forge.Marketdata.Ticker.{ticker_key}
use yield_forge.Marketdata.Sector.{
  Sector, logistics, offices, shopping, hybrid, paper, other, sector_key, sector_eq,
}
use yield_forge.Marketdata.Quote.{FiiQuote}
use yield_forge.Portfolio.Holding.{FiiHolding}
use yield_forge.Dashboard.Compute.{
  QuoteMap, FiiTotals, add_sector, add_fii_at, add_fiis, SectorSlice, sector_slice, sectors,
  sectors_from, no_totals, sector_order,
}

-- What the map holds for a sector, zero where it has no entry.
abbrev pub held : Dict Sector ℤ → Sector → ℤ
held m s = Option.get_or (lookup s m) (pos 0)

abbrev pub slice_values : List SectorSlice → ℤ
slice_values [] = pos 0
slice_values (x ∷ xs) = x.value_centavos +ℤ slice_values xs

abbrev over : List Sector → (Sector → ℤ) → ℤ
over [] f = pos 0
over (s ∷ ss) f = f s +ℤ over ss f

slice_values-slice :
    (s : Sector) (o : Option ℤ) (total : ℤ) (rest : List SectorSlice)
    → slice_values (sector_slice s o total rest) ≡ Option.get_or o (pos 0) +ℤ slice_values rest
unfolding sector_slice
slice_values-slice s none total rest = omega int_laws
slice_values-slice s (some v) total rest = refl

slice_values-sectors_from :
    (ss : List Sector) (m : Dict Sector ℤ) (total : ℤ)
    → slice_values (sectors_from ss m total) ≡ over ss (held m)
unfolding sectors_from
slice_values-sectors_from [] m total = refl
slice_values-sectors_from (s ∷ ss) m total =
    slice_values-slice s (lookup s m) total (sectors_from ss m total)
    ∙ ap (λ (z : ℤ). held m s +ℤ z) (slice_values-sectors_from ss m total)

held-add_sector :
    (s j : Sector) (c : ℤ) (m : Dict Sector ℤ)
    → held (add_sector s c m) j ≡ (if sector_eq s j then add64 (held m s) c else held m j)
unfolding add_sector
held-add_sector s j c m =
    rw (lookup-insert s j (add64 (held m s) c) m)
      (elim (Bool-cases (sector_eq s j)) [ inl same ↦ rw same | inr differs ↦ rw differs ])

-- One term of the sum is raised by c.
over_step :
    (s : Sector) (c : ℤ) (m : Dict Sector ℤ)
    → over sector_order (held (add_sector s c m))
      ≡ over sector_order (held m) -ℤ held m s +ℤ add64 (held m s) c
over_step logistics c m = rw held-add_sector (simp held-add_sector (omega int_laws))
over_step offices c m = simp held-add_sector (omega int_laws)
over_step shopping c m = simp held-add_sector (omega int_laws)
over_step hybrid c m = simp held-add_sector (omega int_laws)
over_step paper c m = simp held-add_sector (omega int_laws)
over_step other c m = simp held-add_sector (omega int_laws)

raise_term : (x g c : ℤ) → wrap64 (x -ℤ g +ℤ add64 g c) ≡ add64 (wrap64 x) c
raise_term x g c =
    rw (add64_lem g c, wrap64-add_right (x -ℤ g) (g +ℤ c), add64-wrap64_left x c)
      (ap wrap64 (omega int_laws))

-- Adding to one sector adds to the sum over all six.
over-add_sector :
    (s : Sector) (c : ℤ) (m : Dict Sector ℤ)
    → wrap64 (over sector_order (held (add_sector s c m)))
      ≡ add64 (wrap64 (over sector_order (held m))) c
over-add_sector s c m =
    ap wrap64 (over_step s c m) ∙ raise_term (over sector_order (held m)) (held m s) c

abbrev Balanced : FiiTotals → Type 0
Balanced t = t.fii_current ≡ wrap64 (over sector_order (held t.sector_value))

round-Balanced :
    (o : Option FiiQuote) (h : FiiHolding) (t : FiiTotals)
    → Balanced t
    → Balanced (add_fii_at o h t)
unfolding add_fii_at
round-Balanced none h t k =
    rw k
      (sym (over-add_sector other (mul64 h.average_price_centavos h.quantity.value) t.sector_value))
round-Balanced (some q) h t k =
    rw k (sym (over-add_sector q.sector (mul64 q.price_centavos h.quantity.value) t.sector_value))

add_fiis-Balanced :
    (quotes : QuoteMap) (hs : List FiiHolding) (t : FiiTotals)
    → Balanced t
    → Balanced (add_fiis quotes hs t)
unfolding add_fiis
add_fiis-Balanced quotes [] t k = k
add_fiis-Balanced quotes (h ∷ hs) t k =
    add_fiis-Balanced quotes hs (add_fii_at (lookup h.ticker quotes) h t)
      (round-Balanced (lookup h.ticker quotes) h t k)

no_totals-Balanced : Balanced no_totals
unfolding lookup wrap64 ◌+ℤ◌
no_totals-Balanced = refl

-- Whatever the quotes and the holdings, the values of the sector slices add up to the FII total of
-- the loop, as an int64.
pub sectors-reconcile :
    (quotes : QuoteMap) (hs : List FiiHolding) (total : ℤ)
    → let t = add_fiis quotes hs no_totals in
      wrap64 (slice_values (sectors t.sector_value total)) ≡ t.fii_current
unfolding sectors
sectors-reconcile quotes hs total =
    let t = add_fiis quotes hs no_totals in
    ap wrap64 (slice_values-sectors_from sector_order t.sector_value total)
    ∙ sym (add_fiis-Balanced quotes hs no_totals no_totals-Balanced)
