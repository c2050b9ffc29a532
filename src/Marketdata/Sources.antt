-- ===== src/Marketdata/Sources.antt =====
-- internal/marketdata/ingest/composite_source.go and holdings_source.go, and marketdata/watchlist.go:
-- where the tickers of a run come from. The map of tickers by their text is a list of tickers with
-- different texts.
use yield_forge.Base.{
  ℕ, suc, ◌≤◌, Bool, true, false, ◌&&◌, ◌||◌, not, List, [], ◌∷◌, ◌≡◌, refl, ◌∙◌, arith, ltb, ◌==◌,
  if◌then◌else◌,
}
use yield_forge.Base.Text.{Text, Unicode, text_eq, text_eq_iff}
use yield_forge.Base.Result.{Result, ok, err, ◌>>=◌, failure}
use yield_forge.Base.Unique.{upsert}
use yield_forge.Marketdata.Ticker.{Ticker, parse_ticker}

-- `NewWatchlist`: the first text that is no ticker is the error.
unfoldable pub new_watchlist : Unicode → List Text → Result (List Ticker)
new_watchlist u [] = ok []
new_watchlist u (s ∷ raw) = do t ← parse_ticker u s; ts ← new_watchlist u raw; ok (t ∷ ts)

abbrev keep_parsed : Result Ticker → List Ticker → List Ticker
keep_parsed (ok t) ts = t ∷ ts
keep_parsed (err e) ts = ts

unfoldable pub parse_held : Unicode → List Text → List Ticker
parse_held u [] = []
parse_held u (s ∷ raw) = keep_parsed (parse_ticker u s) (parse_held u raw)

-- `holdingsSource.Tickers`, over what the reader of the holdings answers.
unfoldable pub held_tickers : Unicode → Result (List Text) → Result (List Ticker)
held_tickers u read = do raw ← read; ok (parse_held u raw)

abbrev pub same_text : Ticker → Ticker → Bool
same_text t s = text_eq s.value t.value

-- `seen[t.String()] = t` for each.
unfoldable pub remember : List Ticker → List Ticker → List Ticker
remember [] seen = seen
remember (t ∷ ts) seen = remember ts (upsert same_text t seen)

-- The loop over the sources: the tickers seen, and how many sources answered.
unfoldable pub collect_sources : List (Result (List Ticker)) → List Ticker → ℕ → List Ticker × ℕ
collect_sources [] seen answered = (seen, answered)
collect_sources (err e ∷ sources) seen answered = collect_sources sources seen answered
collect_sources (ok ts ∷ sources) seen answered =
    collect_sources sources (remember ts seen) (suc answered)

-- Go's `<` on strings.
abbrev pub text_less : Text → Text → Bool
text_less [] [] = false
text_less [] (d ∷ t) = true
text_less (c ∷ s) [] = false
text_less (c ∷ s) (d ∷ t) = ltb c d || ((c == d) && text_less s t)

unfoldable pub insert_sorted : Ticker → List Ticker → List Ticker
insert_sorted t [] = t ∷ []
insert_sorted t (s ∷ ts) = if text_less t.value s.value then t ∷ s ∷ ts else s ∷ insert_sorted t ts

unfoldable pub sort_tickers : List Ticker → List Ticker
sort_tickers [] = []
sort_tickers (t ∷ ts) = insert_sorted t (sort_tickers ts)

abbrev pub no_sources : List (Result (List Ticker)) → Bool
no_sources [] = true
no_sources (s ∷ sources) = false

-- The joined errors of all sources are one error.
unfoldable pub union_tickers : List (Result (List Ticker)) → Result (List Ticker)
union_tickers sources =
    let out = collect_sources sources [] 0 in
    if (out.1 == 0) && not (no_sources sources) then err (failure 3) else ok (sort_tickers out.0)

abbrev pub has_ticker : Text → List Ticker → Bool
has_ticker v [] = false
has_ticker v (t ∷ ts) = text_eq t.value v || has_ticker v ts

-- Whether one of the sources that answer has the ticker.
abbrev pub offered : Text → List (Result (List Ticker)) → Bool
offered v [] = false
offered v (err e ∷ sources) = offered v sources
offered v (ok ts ∷ sources) = has_ticker v ts || offered v sources

has_ticker-upsert :
    (v : Text) (t : Ticker) (seen : List Ticker)
    → has_ticker v (upsert same_text t seen) ≡ (text_eq t.value v || has_ticker v seen)
unfolding upsert
has_ticker-upsert v t [] = refl
has_ticker-upsert v t (s ∷ seen) = ground (
  arith,
  text_eq_iff s.value t.value,
  text_eq_iff s.value v,
  text_eq_iff t.value v,
  has_ticker-upsert v t seen,
)

has_ticker-remember :
    (v : Text) (ts seen : List Ticker)
    → has_ticker v (remember ts seen) ≡ (has_ticker v ts || has_ticker v seen)
unfolding remember
has_ticker-remember v [] seen = refl
has_ticker-remember v (t ∷ ts) seen =
    ground (arith, has_ticker-remember v ts (upsert same_text t seen), has_ticker-upsert v t seen)

has_ticker-collect_sources :
    (v : Text) (sources : List (Result (List Ticker))) (seen : List Ticker) (n : ℕ)
    → has_ticker v (collect_sources sources seen n).0 ≡ (has_ticker v seen || offered v sources)
unfolding collect_sources
has_ticker-collect_sources v [] seen n = ground arith
has_ticker-collect_sources v (err e ∷ sources) seen n = has_ticker-collect_sources v sources seen n
has_ticker-collect_sources v (ok ts ∷ sources) seen n = ground (
  arith,
  has_ticker-collect_sources v sources (remember ts seen) (suc n),
  has_ticker-remember v ts seen,
)

has_ticker-insert_sorted :
    (v : Text) (t : Ticker) (ts : List Ticker)
    → has_ticker v (insert_sorted t ts) ≡ (text_eq t.value v || has_ticker v ts)
unfolding insert_sorted
has_ticker-insert_sorted v t [] = refl
has_ticker-insert_sorted v t (s ∷ ts) = ground (arith, has_ticker-insert_sorted v t ts)

has_ticker-sort_tickers :
    (v : Text) (ts : List Ticker) → has_ticker v (sort_tickers ts) ≡ has_ticker v ts
unfolding sort_tickers
has_ticker-sort_tickers v [] = refl
has_ticker-sort_tickers v (t ∷ ts) =
    ground (arith, has_ticker-insert_sorted v t (sort_tickers ts), has_ticker-sort_tickers v ts)

-- Whether one of the sources answers.
abbrev pub answers : List (Result (List Ticker)) → Bool
answers [] = false
answers (err e ∷ sources) = answers sources
answers (ok ts ∷ sources) = true

collect_sources-counts :
    (sources : List (Result (List Ticker))) (seen : List Ticker) (n : ℕ)
    → n ≤ (collect_sources sources seen n).1
unfolding collect_sources
collect_sources-counts [] seen n = omega arith
collect_sources-counts (err e ∷ sources) seen n = collect_sources-counts sources seen n
collect_sources-counts (ok ts ∷ sources) seen n =
    omega (arith, collect_sources-counts sources (remember ts seen) (suc n))

collect_sources-answers :
    (sources : List (Result (List Ticker))) (seen : List Ticker)
    → answers sources ≡ true
    → 1 ≤ (collect_sources sources seen 0).1
unfolding collect_sources
collect_sources-answers [] seen h = ground (arith, h)
collect_sources-answers (err e ∷ sources) seen h = collect_sources-answers sources seen h
collect_sources-answers (ok ts ∷ sources) seen h =
    collect_sources-counts sources (remember ts seen) 1

-- Where one of the sources answers, their union does, and it has just the tickers that some source
-- which answers has, whatever the others do.
pub union_tickers-offered :
    (sources : List (Result (List Ticker)))
    → answers sources ≡ true
    → (out : List Ticker) × (union_tickers sources ≡ ok out)
      × ((v : Text) → has_ticker v out ≡ offered v sources)
unfolding union_tickers
union_tickers-offered sources h =
    let got = collect_sources sources [] 0 in
    let some_answered : ((got.1 == 0) && not (no_sources sources)) ≡ false =
      ground (arith, collect_sources-answers sources [] h) in
    (
      sort_tickers got.0,
      rw some_answered refl,
      λ v. has_ticker-sort_tickers v got.0 ∙ has_ticker-collect_sources v sources [] 0,
    )
