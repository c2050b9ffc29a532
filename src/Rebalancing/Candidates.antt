-- ===== src/Rebalancing/Candidates.antt =====
-- internal/rebalancing/engine.go: the grounding guard on the candidates that a provider names, and
-- their illustrative shares.
use yield_forge.Base.{
  ℕ, ◌+◌, Bool, true, false, Option, none, some, List, [], ◌∷◌, length, if◌then◌else◌,
}
use yield_forge.Base.Int.{ℤ, pos}
use yield_forge.Base.Result.{Result, ok, err, failure}
use yield_forge.Base.Text.{Text, Unicode, trim_space, to_upper}
use yield_forge.Base.Dict.{Dict, text_key, lookup, insert}
use yield_forge.Marketdata.Sector.{Sector}
use yield_forge.Marketdata.Quote.{FiiQuote}
use yield_forge.Insight.Gate.{Insight, InsightResult, is_blank}
use yield_forge.Rebalancing.Split.{assign_illustrative_shares}

pub record Candidate : Type 0 where
  pub ticker : Text
  pub sector : Sector
  pub title : Text
  pub detail : Text
  pub explanation : Text
  pub illustrative_share_bps : ℤ

unfoldable pub normalize_ticker : Unicode → Text → Text
normalize_ticker u s = to_upper u (trim_space s)

-- `tickerIndex`: a later quote replaces an earlier one of the same ticker.
unfoldable pub ticker_index : Unicode → List FiiQuote → Dict Text FiiQuote → Dict Text FiiQuote
ticker_index u [] m = m
ticker_index u (q ∷ qs) m = ticker_index u qs (insert (normalize_ticker u q.ticker.value) q m)

abbrev pub candidate : FiiQuote → Insight → Candidate
candidate q i = record {
  ticker = q.ticker.value;
  sector = q.sector;
  title = i.title;
  detail = i.detail;
  explanation = i.explanation;
  illustrative_share_bps = pos 0;
}

-- The candidates that one insight adds, by what the index answers.
abbrev pub ground_insight : Option FiiQuote → Insight → List Candidate → List Candidate
ground_insight none i rest = rest
ground_insight (some q) i rest = if is_blank i.explanation then rest else candidate q i ∷ rest

abbrev pub is_dropped : Option FiiQuote → ℕ
is_dropped none = 1
is_dropped (some q) = 0

-- The loop of `buildCandidates`: the candidates and how many were dropped for their ticker.
unfoldable pub ground_insights : Unicode → Dict Text FiiQuote → List Insight → List Candidate × ℕ
ground_insights u known [] = ([], 0)
ground_insights u known (i ∷ is) =
    let rest = ground_insights u known is in
    let found = lookup (normalize_ticker u i.title) known in
    (ground_insight found i rest.0, is_dropped found + rest.1)

-- The candidates with the shares that are written into them, one after the other.
unfoldable pub with_shares : List ℤ → List Candidate → List Candidate
with_shares [] cs = cs
with_shares (s ∷ ss) [] = []
with_shares (s ∷ ss) (c ∷ cs) = record c { illustrative_share_bps = s } ∷ with_shares ss cs

abbrev pub shared : Bool → ℤ → List Candidate → List Candidate
shared false fii_area_bps cs = cs
shared true fii_area_bps cs = with_shares (assign_illustrative_shares (length cs) fii_area_bps) cs

-- By what the insighter answers, and whether the context has ended by then.
unfoldable pub build_candidates :
    Unicode → List FiiQuote → Bool → Result InsightResult → ℤ → Bool → Result (List Candidate × ℕ)
build_candidates u universe ended (err e) fii_area_bps include_asset_shares =
    if ended then err (failure 5) else ok ([], 0)
build_candidates u universe ended (ok res) fii_area_bps include_asset_shares =
    let found = ground_insights u (ticker_index u universe []) res.insights in
    ok (shared include_asset_shares fii_area_bps found.0, found.1)
