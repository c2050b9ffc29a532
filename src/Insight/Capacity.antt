-- ===== src/Insight/Capacity.antt =====
-- internal/insight/factory/memcache.go: the entries that the cache holds at any time.
use yield_forge.Base.{
  ℕ, suc, ◌≤◌, false, Option, none, some, List, [], ◌∷◌, length, ◌≡◌, refl, sym, subst, inl, inr,
  arith, Bool-cases, Option-cases,
}
use yield_forge.Base.Int.{ℤ, pos, ◌+ℤ◌, ltb_ℤ}
use yield_forge.Base.Text.{Text, text_eq}
use yield_forge.Base.Result.{Result, ok, err}
use yield_forge.Base.Unique.{
  find_by, drop_by, IsUnique, find_by-key, find_by-drop_by, drop_by-IsUnique,
}
use yield_forge.Marketdata.Quote.{Time}
use yield_forge.Insight.Gate.{InsightResult}
use yield_forge.Insight.Cache.{
  CacheEntry, MemCache, new_mem_cache, entry_key, drop_last, get, set, cache_key, served, Call,
  Hashing, generate, run,
}

-- At most n entries, of different keys.
pub record IsBounded (n : ℕ) (c : MemCache) : Type 0 where
  pub size : c.size ≡ pos n
  pub few : length c.entries ≤ n
  pub distinct : IsUnique entry_key c.entries

length-drop_by : (k : Text) (es : List CacheEntry) → length (drop_by entry_key k es) ≤ length es
unfolding drop_by
length-drop_by k [] = omega arith
length-drop_by k (e ∷ es) = ground (arith, length-drop_by k es)

length-drop_by_found :
    (k : Text) (es : List CacheEntry) (e : CacheEntry)
    → find_by entry_key k es ≡ some e
    → suc (length (drop_by entry_key k es)) ≤ length es
unfolding drop_by find_by
length-drop_by_found k [] e found = ground (arith, found)
length-drop_by_found k (f ∷ es) e found = elim (Bool-cases (text_eq f.key k)) [
  | inl here ↦ rw here (omega (arith, length-drop_by k es))
  | inr there ↦
      let later : find_by entry_key k es ≡ some e = ground (arith, found, there) in
      rw there (omega (arith, length-drop_by_found k es e later))
]

length-drop_last : (e : CacheEntry) (es : List CacheEntry) → length (drop_last (e ∷ es)) ≡ length es
length-drop_last e [] = refl
length-drop_last e (f ∷ es) = omega (arith, length-drop_last f es)

find_by-drop_last :
    (k : Text) (es : List CacheEntry)
    → find_by entry_key k es ≡ none
    → find_by entry_key k (drop_last es) ≡ none
unfolding find_by
find_by-drop_last k [] h = refl
find_by-drop_last k (e ∷ []) h = refl
find_by-drop_last k (e ∷ f ∷ es) h = elim (Bool-cases (text_eq e.key k)) [
  | inl here ↦ ground (arith, h, here)
  | inr there ↦ rw there (find_by-drop_last k (f ∷ es) (ground (arith, h, there)))
]

drop_last-IsUnique :
    (es : List CacheEntry) → IsUnique entry_key es → IsUnique entry_key (drop_last es)
unfolding IsUnique
drop_last-IsUnique [] u = tt
drop_last-IsUnique (e ∷ []) u = tt
drop_last-IsUnique (e ∷ f ∷ es) (fresh, u) =
    (find_by-drop_last e.key (f ∷ es) fresh, drop_last-IsUnique (f ∷ es) u)

-- An entry of the key in front of the others.
moved-IsUnique :
    (k : Text) (e : CacheEntry) (es : List CacheEntry)
    → e.key ≡ k
    → IsUnique entry_key es
    → IsUnique entry_key (e ∷ drop_by entry_key k es)
unfolding IsUnique
moved-IsUnique k e es same u = (
  subst (λ x. find_by entry_key x (drop_by entry_key k es) ≡ none) (sym same)
      (find_by-drop_by entry_key k es),
  drop_by-IsUnique entry_key k es u,
)

module _ (n : ℕ) where
  get-IsBounded :
      (now : Time) (key : Text) (c : MemCache) → IsBounded n c → IsBounded n (get now key c).1
  unfolding get
  get-IsBounded now key c b = elim (Option-cases (find_by entry_key key c.entries)) [
    | inl missing ↦ rw missing b
    | inr (e, found) ↦
        let fewer = length-drop_by_found key c.entries e found in
        elim (Bool-cases (ltb_ℤ now e.expires)) [
          | inl valid ↦
              rw (found, valid)
                (record {
                  size = b.size;
                  few = omega (arith, fewer, b.few);
                  distinct =
                      moved-IsUnique key e c.entries (find_by-key entry_key key c.entries e found)
                        b.distinct;
                })
          | inr over ↦
              rw (found, over)
                (record {
                  size = b.size;
                  few = omega (arith, fewer, b.few);
                  distinct = drop_by-IsUnique entry_key key c.entries b.distinct;
                })
        ]
  ]

  set-IsBounded :
      (now : Time) (key : Text) (r : InsightResult) (c : MemCache)
      → IsBounded n c
      → IsBounded n (set now key r c)
  unfolding set IsUnique
  set-IsBounded now key r c b =
      let e : CacheEntry = record { key = key; result = r; expires = now +ℤ c.ttl } in
      elim (Option-cases (find_by entry_key key c.entries)) [
        | inr (old, found) ↦
            let fewer = length-drop_by_found key c.entries old found in
            rw found (record {
              size = b.size;
              few = omega (arith, fewer, b.few);
              distinct = moved-IsUnique key e c.entries refl b.distinct;
            })
        | inl missing ↦ elim (Bool-cases (ltb_ℤ c.size (pos (suc (length c.entries))))) [
          | inl full ↦
              rw (missing, full)
                (record {
                  size = b.size;
                  few = omega (arith, length-drop_last e c.entries, b.few);
                  distinct = drop_last-IsUnique (e ∷ c.entries) (missing, b.distinct);
                })
          | inr space ↦
              let fits : ltb_ℤ (pos n) (pos (suc (length c.entries))) ≡ false =
                subst (λ z. ltb_ℤ z (pos (suc (length c.entries))) ≡ false) b.size space in
              rw (missing, space)
                (record {
                  size = b.size;
                  few = ground (arith, fits);
                  distinct = (missing, b.distinct);
                })
        ]
      ]

  served-IsBounded :
      (answered : Time) (key : Text) (answer : Result InsightResult)
      (out : Option InsightResult × MemCache)
      → IsBounded n out.1
      → IsBounded n (served answered key answer out).1
  served-IsBounded answered key answer (some r, c) b = b
  served-IsBounded answered key (ok r) (none, c) b = set-IsBounded answered key r c b
  served-IsBounded answered key (err e) (none, c) b = b

  -- After any calls of a new cache that is given room for n results, it holds at most n, of different
  -- keys.
  pub run-IsBounded :
      {F : Type 0} (hashing : Hashing F) (ttl : ℤ) (calls : List (Call F))
      → IsBounded n (run hashing calls (new_mem_cache (pos n) ttl))
  unfolding run generate IsUnique
  run-IsBounded hashing ttl [] = record { size = refl; few = omega arith; distinct = tt }
  run-IsBounded hashing ttl (call ∷ past) =
      let c = run hashing past (new_mem_cache (pos n) ttl) in
      let key = cache_key hashing call.request in
      served-IsBounded call.answered key call.answer (get call.asked key c)
        (get-IsBounded call.asked key c (run-IsBounded hashing ttl past))
