-- ===== src/Rebalancing/Grounded.antt =====
-- internal/rebalancing/engine.go: the candidates and the universe of quotes.
use mathlib.Core.List.{Memᴰ}
use mathlib.Core.List.Memᴰ.{head, tail}
use yield_forge.Base.{
  ◌+◌, ◌≤◌, ◌≡◌, refl, Bool, true, false, suc, ℕ, some, List, [], ◌∷◌, length, All, inl, inr,
  Bool-cases, Option-cases, arith, sym, ◌∙◌, ap, ◌⊎◌,
}
use yield_forge.Base.Text.{Text, Unicode}
use yield_forge.Base.Dict.{Dict, text_key, lookup, insert, lookup-insert}
use yield_forge.Marketdata.Quote.{FiiQuote}
use yield_forge.Insight.Gate.{Insight, InsightResult, is_blank}
use yield_forge.Rebalancing.Split.{assign_illustrative_shares}
use yield_forge.Base.Int.{ℤ}
use yield_forge.Base.Result.{Result, ok, err}
use yield_forge.Rebalancing.Candidates.{
  Candidate, normalize_ticker, ticker_index, candidate, ground_insights, build_candidates,
  with_shares,
}

some_injective : (p q : FiiQuote) → some p ≡ some q → p ≡ q
some_injective p q e = cc e

ticker_index-known :
    (u : Unicode) (qs : List FiiQuote) (m : Dict Text FiiQuote) (k : Text) (q : FiiQuote)
    → lookup k (ticker_index u qs m) ≡ some q
    → (Memᴰ q qs × (normalize_ticker u q.ticker.value ≡ k)) ⊎ (lookup k m ≡ some q)
unfolding ticker_index
ticker_index-known u [] m k q h = inr h
ticker_index-known u (p ∷ qs) m k q h =
    let key = normalize_ticker u p.ticker.value in
    let later = lookup-insert key k p m in
    elim (ticker_index-known u qs (insert key p m) k q h) [
      | inl (there, named) ↦ inl (tail there, named)
      | inr old ↦ elim (Bool-cases (text_key.beq key k)) [
        | inl same ↦
            let one : some p ≡ some q = ground (arith, later, old, same) in
            let this : p ≡ q = some_injective p q one in
            inl (
              head (sym this),
              ap (λ (x : FiiQuote). normalize_ticker u x.ticker.value) (sym this)
                  ∙ (text_key.beq_iff key k).0 same,
            )
        | inr other ↦ inr (ground (arith, old, later, other))
      ]
    ]

-- A candidate that stands for a quote of the universe, under its ticker.
pub record IsGrounded (u : Unicode) (universe : List FiiQuote) (c : Candidate) : Type 0 where
  pub quote : FiiQuote
  pub known : Memᴰ quote universe
  pub ticker_is : c.ticker ≡ quote.ticker.value
  pub sector_is : c.sector ≡ quote.sector
  pub named : normalize_ticker u c.title ≡ normalize_ticker u quote.ticker.value
  pub explained : is_blank c.explanation ≡ false

ground_insights-IsGrounded :
    (u : Unicode) (qs : List FiiQuote) (is : List Insight)
    → All (IsGrounded u qs) (ground_insights u (ticker_index u qs []) is).0
unfolding ground_insights lookup
ground_insights-IsGrounded u qs [] = tt
ground_insights-IsGrounded u qs (i ∷ is) =
    let rest = ground_insights-IsGrounded u qs is in
    elim (Option-cases (lookup (normalize_ticker u i.title) (ticker_index u qs []))) [
      | inl unknown ↦ rw unknown rest
      | inr (q, found) ↦ elim (Bool-cases (is_blank i.explanation)) [
        | inl blank ↦ rw (found, blank) rest
        | inr explained ↦
            let from_index = ticker_index-known u qs [] (normalize_ticker u i.title) q found in
            let grounded : IsGrounded u qs (candidate q i) = elim from_index [
              | inl (here, named) ↦ record {
                quote = q;
                known = here;
                ticker_is = refl;
                sector_is = refl;
                named = sym named;
                explained = explained;
              }
              | inr nothing ↦ absurd (ground (arith, nothing))
            ] in
            rw (found, explained) (grounded, rest)
      ]
    ]

length-ground_insights :
    (u : Unicode) (known : Dict Text FiiQuote) (is : List Insight)
    → length (ground_insights u known is).0 + (ground_insights u known is).1 ≤ length is
unfolding ground_insights
length-ground_insights u known [] = omega arith
length-ground_insights u known (i ∷ is) =
    let rest = length-ground_insights u known is in
    elim (Option-cases (lookup (normalize_ticker u i.title) known)) [
      | inl unknown ↦ rw unknown (omega (arith, rest))
      | inr (q, found) ↦ elim (Bool-cases (is_blank i.explanation)) [
        | inl blank ↦ rw (found, blank) (omega (arith, rest))
        | inr explained ↦ rw (found, explained) (omega (arith, rest))
      ]
    ]

with_shares-IsGrounded :
    (u : Unicode) (qs : List FiiQuote) (ss : List ℤ) (cs : List Candidate)
    → All (IsGrounded u qs) cs
    → All (IsGrounded u qs) (with_shares ss cs) × (length (with_shares ss cs) ≡ length cs)
unfolding with_shares
with_shares-IsGrounded u qs [] cs a = (a, refl)
with_shares-IsGrounded u qs (s ∷ ss) [] a = (tt, refl)
with_shares-IsGrounded u qs (s ∷ ss) (c ∷ cs) (g, a) =
    let rest = with_shares-IsGrounded u qs ss cs a in
    let kept : IsGrounded u qs (record c { illustrative_share_bps = s }) = record {
      quote = g.quote;
      known = g.known;
      ticker_is = g.ticker_is;
      sector_is = g.sector_is;
      named = g.named;
      explained = g.explained;
    } in
    ((kept, rest.0), ap suc rest.1)

abbrev pub insights_of : Result InsightResult → List Insight
insights_of (ok res) = res.insights
insights_of (err e) = []

-- Grounded candidates, which with the dropped insights are no more than the insights; or an error,
-- but only where the context has ended.
abbrev pub IsSurfaced :
    Unicode → List FiiQuote → Bool → List Insight → Result (List Candidate × ℕ) → Type 0
IsSurfaced u universe ended insights (ok out) =
    All (IsGrounded u universe) out.0 × (length out.0 + out.1 ≤ length insights)
IsSurfaced u universe ended insights (err e) = ended ≡ true

-- With or without illustrative shares, every candidate that is surfaced carries ticker and sector of
-- a quote of the universe, is named by that quote's ticker, and has an explanation that is not blank;
-- candidates and dropped insights together are no more than the insights that the insighter
-- answers; and its failure is an error of the call only where the context has ended.
pub build_candidates-IsGrounded :
    (u : Unicode) (universe : List FiiQuote) (ended : Bool) (answer : Result InsightResult)
    (fii_area_bps : ℤ) (include_asset_shares : Bool)
    → IsSurfaced u universe ended
        (insights_of answer)
        (build_candidates u universe ended answer fii_area_bps include_asset_shares)
unfolding build_candidates
build_candidates-IsGrounded u qs true (err e) bps shares = refl
build_candidates-IsGrounded u qs false (err e) bps shares = (tt, omega arith)
build_candidates-IsGrounded u qs ended (ok res) bps false = (
  ground_insights-IsGrounded u qs res.insights,
  length-ground_insights u (ticker_index u qs []) res.insights,
)
build_candidates-IsGrounded u qs ended (ok res) bps true =
    let known = ticker_index u qs [] in
    let found = (ground_insights u known res.insights).0 in
    let kept =
      with_shares-IsGrounded u qs (assign_illustrative_shares (length found) bps) found
        (ground_insights-IsGrounded u qs res.insights) in
    (kept.0, omega (arith, kept.1, length-ground_insights u known res.insights))
