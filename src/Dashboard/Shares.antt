-- ===== src/Dashboard/Shares.antt =====
-- internal/dashboard/compute.go: the calls of ShareBps, which returns on all parts but one.
use mathlib.Core.Option
use yield_forge.Base.{
  ℕ, suc, ◌≡◌, ◌≢◌, ◌⊎◌, subst, sym, ◌∙◌, Option, none, some, List, [], ◌∷◌, All, inl, inr, arith,
  Bool-cases, Option-cases, if◌then◌else◌,
}
use yield_forge.Base.Int.{ℤ, pos, ◌+ℤ◌, ◌≤ℤ◌}
use yield_forge.Base.Int64.{InInt64, wrap64-InInt64, add64, add64_lem}
use yield_forge.Base.Dict.{Dict, lookup, lookup-insert}
use yield_forge.Money.Ratio.{share_bps, share_bps_fuel}
use yield_forge.Money.Ratio.Rounding.{min_int64, share_bps_fuel-total}
use yield_forge.Marketdata.Ticker.{ticker_key}
use yield_forge.Marketdata.Sector.{Sector, sector_key, other}
use yield_forge.Marketdata.Quote.{FiiQuote}
use yield_forge.Portfolio.Holding.{FiiHolding}
use yield_forge.Dashboard.Compute.{
  QuoteMap, FiiTotals, ClassSlice, SectorSlice, add_sector, add_fii_at, add_fiis, no_totals, fii,
  fixed_income, stocks, etfs, sector_slice, sectors_from,
}

-- The part and the whole are ones on which the source's ShareBps returns.
abbrev pub IsShared : ℤ → ℤ → Type 0
IsShared part whole = (whole ≤ℤ pos 0) ⊎ (part ≢ min_int64)

-- With two calls or more, ShareBps returns the share.
abbrev pub IsShareOf : ℤ → ℤ → ℤ → Type 0
IsShareOf share part whole = (f : ℕ) → share_bps_fuel (suc (suc f)) part whole ≡ some share

abbrev pub SectorIsShared : ℤ → SectorSlice → Type 0
SectorIsShared total s = IsShared s.value_centavos total

abbrev pub SectorHasShare : ℤ → SectorSlice → Type 0
SectorHasShare total s = IsShareOf s.share_bps s.value_centavos total

pub share_bps-IsShareOf :
    (part whole : ℤ)
    → InInt64 part
    → IsShared part whole
    → IsShareOf (share_bps part whole) part whole
unfolding share_bps
share_bps-IsShareOf part whole h (inl none_left) f = ground (arith, none_left)
share_bps-IsShareOf part whole h (inr ne) f = share_bps_fuel-total f part whole h ne

-- The four slices of the classes: the values of two and their shares, and two that hold nothing.
abbrev pub class_slices : ℤ → ℤ → ℤ → ℤ → List ClassSlice
class_slices fii_value fii_share fixed_value fixed_share =
    record { class = fii; value_centavos = fii_value; share_bps = fii_share }
    ∷ record { class = fixed_income; value_centavos = fixed_value; share_bps = fixed_share }
    ∷ record { class = stocks; value_centavos = pos 0; share_bps = pos 0 }
    ∷ record { class = etfs; value_centavos = pos 0; share_bps = pos 0 }
    ∷ []

-- Every value of the map is one of an int64.
abbrev pub SectorsFit : Dict Sector ℤ → Type 0
SectorsFit m = (s : Sector) (v : ℤ) → lookup s m ≡ some v → InInt64 v

add64-InInt64 : (a b : ℤ) → InInt64 (add64 a b)
add64-InInt64 a b = subst InInt64 (sym (add64_lem a b)) (wrap64-InInt64 (a +ℤ b))

add_sector-SectorsFit :
    (s : Sector) (c : ℤ) (m : Dict Sector ℤ) → SectorsFit m → SectorsFit (add_sector s c m)
unfolding add_sector
add_sector-SectorsFit s c m fit j v found =
    let raised = add64 (Option.get_or (lookup s m) (pos 0)) c in
    let stored : (if sector_key.beq s j then some raised else lookup j m) ≡ some v =
      sym (lookup-insert s j raised m) ∙ found in
    elim (Bool-cases (sector_key.beq s j)) [
      | inl same ↦
          let here : raised ≡ v = ground (arith, stored, same) in
          subst InInt64 here (add64-InInt64 (Option.get_or (lookup s m) (pos 0)) c)
      | inr differs ↦
          let there : lookup j m ≡ some v = ground (arith, stored, differs) in fit j v there
    ]

add_fii_at-SectorsFit :
    (o : Option FiiQuote) (h : FiiHolding) (t : FiiTotals)
    → SectorsFit t.sector_value
    → SectorsFit (add_fii_at o h t).sector_value
unfolding add_fii_at
add_fii_at-SectorsFit none h t fit = add_sector-SectorsFit other _ t.sector_value fit
add_fii_at-SectorsFit (some q) h t fit = add_sector-SectorsFit q.sector _ t.sector_value fit

add_fiis-SectorsFit :
    (quotes : QuoteMap) (hs : List FiiHolding) (t : FiiTotals)
    → SectorsFit t.sector_value
    → SectorsFit (add_fiis quotes hs t).sector_value
unfolding add_fiis
add_fiis-SectorsFit quotes [] t fit = fit
add_fiis-SectorsFit quotes (h ∷ hs) t fit =
    add_fiis-SectorsFit quotes hs (add_fii_at (lookup h.ticker quotes) h t)
      (add_fii_at-SectorsFit (lookup h.ticker quotes) h t fit)

pub all-SectorsFit :
    (quotes : QuoteMap) (hs : List FiiHolding)
    → SectorsFit (add_fiis quotes hs no_totals).sector_value
unfolding lookup
all-SectorsFit quotes hs = add_fiis-SectorsFit quotes hs no_totals (λ s v e. ground (arith, e))

pub sectors_from-HasShare :
    (ss : List Sector) (m : Dict Sector ℤ) (total : ℤ)
    → SectorsFit m
    → All (SectorIsShared total) (sectors_from ss m total)
    → All (SectorHasShare total) (sectors_from ss m total)
unfolding sectors_from sector_slice
sectors_from-HasShare [] m total fit = λ a. tt
sectors_from-HasShare (s ∷ ss) m total fit = elim (Option-cases (lookup s m)) [
  | inl missing ↦ rw missing (sectors_from-HasShare ss m total fit)
  | inr (v, found) ↦ rw found (λ a.
      (share_bps-IsShareOf v total (fit s v found) a.0, sectors_from-HasShare ss m total fit a.1))
]
