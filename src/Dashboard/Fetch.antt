-- ===== src/Dashboard/Fetch.antt =====
-- internal/dashboard/service.go: the quotes that the loop of GetDashboard collects.
use yield_forge.Base.{
  ◌≡◌, inl, inr, refl, subst, sym, ◌∙◌, Bool, true, false, Option, none, some, List, [], ◌∷◌, arith,
  Bool-cases, All,
}
use yield_forge.Base.Dict.{Dict, lookup, insert, lookup-insert}
use yield_forge.Base.Result.{Result, ok, err, Result-cases}
use yield_forge.Marketdata.Ticker.{Ticker, ticker_key}
use yield_forge.Marketdata.Quote.{FiiQuote}
use yield_forge.Portfolio.Holding.{FiiHolding}
use yield_forge.Dashboard.Compute.{QuoteMap}
use yield_forge.Dashboard.Service.{QuoteSource, was_fetched, is_not_found, keep_quote, fetch_quotes}

-- What the map holds for a ticker that the source was asked for.
abbrev pub IsAnswer : Result FiiQuote → Option FiiQuote → Type 0
IsAnswer (ok q) held = held ≡ some q
IsAnswer (err e) held = (is_not_found e ≡ true) × (held ≡ none)

-- The map holds the answers for the tickers that were asked for, and nothing for the others.
record IsSettled (source : QuoteSource) (fetched : Dict Ticker Bool) (quotes : QuoteMap)
    : Type 0 where
  answered :
      (t : Ticker) → was_fetched (lookup t fetched) ≡ true → IsAnswer (source t) (lookup t quotes)
  untouched : (t : Ticker) → was_fetched (lookup t fetched) ≡ false → lookup t quotes ≡ none

-- What the map holds after one answer.
keep_quote-lookup :
    (k t : Ticker) (quotes after : QuoteMap) (r : Result FiiQuote)
    → keep_quote k quotes r ≡ ok after
    → lookup k quotes ≡ none
    → IsAnswer r (lookup k after) × (ticker_key.beq k t ≡ false → lookup t after ≡ lookup t quotes)
keep_quote-lookup k t quotes after (ok q) e n =
    let held = lookup-insert k k q quotes in
    let moved : insert k q quotes ≡ after = ground (arith, e) in
    let self : ticker_key.beq k k ≡ true = (ticker_key.beq_iff k k).1 refl in
    (
      ground (arith, held, moved, self),
      λ other. ground (arith, moved, other, lookup-insert k t q quotes),
    )
keep_quote-lookup k t quotes after (err x) e n = elim (Bool-cases (is_not_found x)) [
  | inl missing ↦
      let kept : quotes ≡ after = ground (arith, e, missing) in
      ((missing, ground (arith, kept, n)), λ other. ground (arith, kept))
  | inr other ↦ absurd (ground (arith, e, other))
]

keep_quote-IsSettled :
    (source : QuoteSource) (fetched : Dict Ticker Bool) (k : Ticker) (quotes after : QuoteMap)
    → keep_quote k quotes (source k) ≡ ok after
    → was_fetched (lookup k fetched) ≡ false
    → IsSettled source fetched quotes
    → IsSettled source (insert k true fetched) after
keep_quote-IsSettled source fetched k quotes after e n inv = record {
  answered = λ t h.
      let step = keep_quote-lookup k t quotes after (source k) e (inv.untouched k n) in
      elim (Bool-cases (ticker_key.beq k t)) [
        | inl same ↦
            subst (λ x. IsAnswer (source x) (lookup x after)) ((ticker_key.beq_iff k t).0 same)
              step.0
        | inr other ↦
            subst (λ held. IsAnswer (source t) held) (sym (step.1 other))
              (inv.answered t (ground (arith, h, other, lookup-insert k t true fetched)))
      ];
  untouched = λ t h.
      let step = keep_quote-lookup k t quotes after (source k) e (inv.untouched k n) in
      elim (Bool-cases (ticker_key.beq k t)) [
        | inl same ↦ absurd (ground (arith, h, same, lookup-insert k t true fetched))
        | inr other ↦
            step.1 other
            ∙ inv.untouched t (ground (arith, h, other, lookup-insert k t true fetched))
      ];
}

-- After the loop: settled for every ticker that was asked for before or is held.
record IsComplete (source : QuoteSource) (hs : List FiiHolding) (fetched : Dict Ticker Bool)
    (quotes : QuoteMap) : Type 0 where
  asked : Dict Ticker Bool
  settled : IsSettled source asked quotes
  kept : (t : Ticker) → was_fetched (lookup t fetched) ≡ true → was_fetched (lookup t asked) ≡ true
  held : All (λ h. was_fetched (lookup h.ticker asked) ≡ true) hs

fetch_quotes-IsComplete :
    (source : QuoteSource) (hs : List FiiHolding) (fetched : Dict Ticker Bool) (asked : List Ticker)
    (quotes : QuoteMap) (out : QuoteMap × List Ticker)
    → fetch_quotes source hs fetched asked quotes ≡ ok out
    → IsSettled source fetched quotes
    → IsComplete source hs fetched out.0
unfolding fetch_quotes
fetch_quotes-IsComplete source [] fetched asked quotes out e inv =
    let same : quotes ≡ out.0 = ground (arith, e) in
    record {
      asked = fetched;
      settled = subst (IsSettled source fetched) same inv;
      kept = λ t h. h;
      held = tt;
    }
fetch_quotes-IsComplete source (h ∷ hs) fetched asked quotes out e inv =
    elim (Bool-cases (was_fetched (lookup h.ticker fetched))) [
      | inl done ↦
          let rest =
            fetch_quotes-IsComplete source hs fetched asked quotes out (ground (arith, e, done))
              inv in
          record {
            asked = rest.asked;
            settled = rest.settled;
            kept = rest.kept;
            held = (rest.kept h.ticker done, rest.held);
          }
      | inr first ↦ elim (Result-cases (keep_quote h.ticker quotes (source h.ticker))) [
        | inl (after, kept_quote) ↦
            let rest =
              fetch_quotes-IsComplete source hs (insert h.ticker true fetched) (h.ticker ∷ asked)
                after out (ground (arith, e, first, kept_quote))
                (keep_quote-IsSettled source fetched h.ticker quotes after kept_quote first inv) in
            record {
              asked = rest.asked;
              settled = rest.settled;
              kept = λ t k. rest.kept t (ground (arith, k, lookup-insert h.ticker t true fetched));
              held = (
                rest.kept h.ticker (
                    ground (
                      arith,
                      (ticker_key.beq_iff h.ticker h.ticker).1 refl,
                      lookup-insert h.ticker h.ticker true fetched,
                    )),
                rest.held,
              );
            }
        | inr (x, failed) ↦ absurd (ground (arith, e, first, failed))
      ]
    ]

answers :
    (source : QuoteSource) (asked : Dict Ticker Bool) (quotes : QuoteMap) (hs : List FiiHolding)
    → IsSettled source asked quotes
    → All (λ h. was_fetched (lookup h.ticker asked) ≡ true) hs
    → All (λ h. IsAnswer (source h.ticker) (lookup h.ticker quotes)) hs
answers source asked quotes [] inv a = tt
answers source asked quotes (h ∷ hs) inv (a, rest) =
    (inv.answered h.ticker a, answers source asked quotes hs inv rest)

-- Where the loop of a request ends without an error, the map holds for every held ticker what the
-- source answers for it: the quote, or nothing where the source has none.
pub fetch_quotes-answers :
    (source : QuoteSource) (hs : List FiiHolding) (out : QuoteMap × List Ticker)
    → fetch_quotes source hs [] [] [] ≡ ok out
    → All (λ h. IsAnswer (source h.ticker) (lookup h.ticker out.0)) hs
unfolding lookup
fetch_quotes-answers source hs out e =
    let start : IsSettled source [] [] = record {
      answered = λ t h. absurd (ground (arith, h));
      untouched = λ t h. refl;
    } in
    let complete = fetch_quotes-IsComplete source hs [] [] [] out e start in
    answers source complete.asked out.0 hs complete.settled complete.held
