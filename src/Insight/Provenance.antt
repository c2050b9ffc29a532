-- ===== src/Insight/Provenance.antt =====
-- internal/insight/factory: where a result that is served comes from.
use yield_forge.Base.{
  true, Option, none, some, List, [], ◌∷◌, length, ◌≡◌, ◌⊎◌, refl, subst, ap, ◌∙◌, inl, inr, arith,
  All, All-map, suc, Bool-cases, Option-cases,
}
use yield_forge.Base.Int.{ℤ, pos, ◌+ℤ◌, ltb_ℤ}
use yield_forge.Base.Text.{Text}
use yield_forge.Base.Result.{Result, ok, err}
use yield_forge.Base.Unique.{find_by, find_by-key, find_by-All, drop_by-All}
use yield_forge.Marketdata.Quote.{Time}
use yield_forge.Insight.Gate.{InsightResult}
use yield_forge.Insight.Cache.{
  CacheEntry, MemCache, new_mem_cache, entry_key, drop_last, get, set, cache_key, served, Call,
  generate, run, hashed, Hashing,
}
use yield_forge.Insight.SameRequest.{IsHashable, IsSame, hashed-IsSame}
use mathlib.Core.List.{Memᴰ}
use mathlib.Core.List.Memᴰ.{head, tail}

module _ {F : Type 0} (hashing : Hashing F) (ttl : ℤ) where
  -- The entry was answered to one of the calls, for its key, and expires a lifetime later.
  record IsAnswered (past : List (Call F)) (e : CacheEntry) : Type 0 where
    call : Call F
    made : Memᴰ call past
    same_key : cache_key hashing call.request ≡ e.key
    answered : call.answer ≡ ok e.result
    until : e.expires ≡ call.answered +ℤ ttl

  record IsTraced (past : List (Call F)) (c : MemCache) : Type 0 where
    lifetime : c.ttl ≡ ttl
    entries : All (IsAnswered past) c.entries

  older :
      (call : Call F) (past : List (Call F)) (e : CacheEntry)
      → IsAnswered past e
      → IsAnswered (call ∷ past) e
  older call past e a = record {
    call = a.call;
    made = tail a.made;
    same_key = a.same_key;
    answered = a.answered;
    until = a.until;
  }

  drop_last-All : (P : CacheEntry → Type 0) (es : List CacheEntry) → All P es → All P (drop_last es)
  drop_last-All P [] a = tt
  drop_last-All P (e ∷ []) a = tt
  drop_last-All P (e ∷ f ∷ es) (p, a) = (p, drop_last-All P (f ∷ es) a)

  module _ (past : List (Call F)) where
    get-IsTraced :
        (now : Time) (key : Text) (c : MemCache) → IsTraced past c → IsTraced past (get now key c).1
    unfolding get
    get-IsTraced now key c t = elim (Option-cases (find_by entry_key key c.entries)) [
      | inl missing ↦ rw missing t
      | inr (e, found) ↦
          let rest = drop_by-All entry_key (IsAnswered past) key c.entries t.entries in
          let kept = find_by-All entry_key (IsAnswered past) key c.entries e t.entries found in
          elim (Bool-cases (ltb_ℤ now e.expires)) [
            | inl valid ↦
                rw (found, valid) (record { lifetime = t.lifetime; entries = (kept, rest) })
            | inr over ↦ rw (found, over) (record { lifetime = t.lifetime; entries = rest })
          ]
    ]

    -- What a hit gives.
    get-some :
        (now : Time) (key : Text) (c : MemCache) (r : InsightResult)
        → IsTraced past c
        → (get now key c).0 ≡ some r
        → (e : CacheEntry) × IsAnswered past e
          × (e.key ≡ key)
          × (e.result ≡ r)
          × (ltb_ℤ now e.expires ≡ true)
    unfolding get
    get-some now key c r t = elim (Option-cases (find_by entry_key key c.entries)) [
      | inl missing ↦ rw missing (λ h. ground (arith, h))
      | inr (e, found) ↦ elim (Bool-cases (ltb_ℤ now e.expires)) [
        | inr over ↦ rw (found, over) (λ h. ground (arith, h))
        | inl valid ↦
            rw (found, valid)
              (λ h. (
                e,
                find_by-All entry_key (IsAnswered past) key c.entries e t.entries found,
                find_by-key entry_key key c.entries e found,
                ground (arith, h),
                valid,
              ))
      ]
    ]

  set-IsTraced :
      (call : Call F) (past : List (Call F)) (r : InsightResult) (c : MemCache)
      → call.answer ≡ ok r
      → IsTraced past c
      → IsTraced (call ∷ past) (set call.answered (cache_key hashing call.request) r c)
  unfolding set
  set-IsTraced call past r c answered t =
      let key = cache_key hashing call.request in
      let e : CacheEntry = record { key = key; result = r; expires = call.answered +ℤ c.ttl } in
      let new : IsAnswered (call ∷ past) e = record {
        call = call;
        made = head refl;
        same_key = refl;
        answered = answered;
        until = ap (λ z. call.answered +ℤ z) t.lifetime;
      } in
      let others =
        All-map (IsAnswered past) (IsAnswered (call ∷ past)) c.entries (older call past)
          t.entries in
      elim (Option-cases (find_by entry_key key c.entries)) [
        | inr (old, found) ↦ rw found (record {
          lifetime = t.lifetime;
          entries = (new, drop_by-All entry_key (IsAnswered (call ∷ past)) key c.entries others);
        })
        | inl missing ↦ elim (Bool-cases (ltb_ℤ c.size (pos (suc (length c.entries))))) [
          | inl full ↦
              rw (missing, full)
                (record {
                  lifetime = t.lifetime;
                  entries = drop_last-All (IsAnswered (call ∷ past)) (e ∷ c.entries) (new, others);
                })
          | inr space ↦
              rw (missing, space) (record { lifetime = t.lifetime; entries = (new, others) })
        ]
      ]

  served-IsTraced :
      (call : Call F) (past : List (Call F)) (answer : Result InsightResult)
      (out : Option InsightResult × MemCache)
      → call.answer ≡ answer
      → IsTraced past out.1
      → IsTraced (call ∷ past) (served call.answered (cache_key hashing call.request) answer out).1
  served-IsTraced call past answer (some r, c) e t = record {
    lifetime = t.lifetime;
    entries = All-map _ _ c.entries (older call past) t.entries;
  }
  served-IsTraced call past (ok r) (none, c) e t = set-IsTraced call past r c e t
  served-IsTraced call past (err e) (none, c) same t = record {
    lifetime = t.lifetime;
    entries = All-map _ _ c.entries (older call past) t.entries;
  }

  run-IsTraced :
      (size : ℤ) (past : List (Call F)) → IsTraced past (run hashing past (new_mem_cache size ttl))
  unfolding run generate
  run-IsTraced size [] = record { lifetime = refl; entries = tt }
  run-IsTraced size (call ∷ past) =
      let c = run hashing past (new_mem_cache size ttl) in
      let key = cache_key hashing call.request in
      served-IsTraced call past call.answer (get call.asked key c) refl
        (get-IsTraced past call.asked key c (run-IsTraced size past))

  served-ok :
      (answered : Time) (key : Text) (answer : Result InsightResult)
      (out : Option InsightResult × MemCache) (r : InsightResult)
      → (served answered key answer out).0 ≡ ok r
      → (answer ≡ ok r) ⊎ (out.0 ≡ some r)
  served-ok answered key answer (some s, c) r h = inr (ground (arith, h))
  served-ok answered key (ok s) (none, c) r h = inl h
  served-ok answered key (err e) (none, c) r h = inl h

  -- Where no call of the past with other hashed bytes has the key of this one, no user or task of
  -- these calls holds a zero character and their facts can be written as JSON: a result that a call
  -- answers after any history of a new cache was given by the wrapped insighter, to this call, or to
  -- an earlier one of the same user with the same task and with facts of the same JSON, less than a
  -- lifetime before.
  pub generate-run :
      (size : ℤ) (past : List (Call F)) (call : Call F) (r : InsightResult)
      → ((d : Call F)
          → Memᴰ d past
          → cache_key hashing d.request ≡ cache_key hashing call.request
          → hashed hashing d.request ≡ hashed hashing call.request)
      → ((d : Call F) → Memᴰ d (call ∷ past) → IsHashable hashing d.request)
      → (generate hashing call (run hashing past (new_mem_cache size ttl))).0 ≡ ok r
      → (call.answer ≡ ok r)
        ⊎ ((d : Call F) × Memᴰ d past
            × IsSame hashing d.request call.request
            × (d.answer ≡ ok r)
            × (ltb_ℤ call.asked (d.answered +ℤ ttl) ≡ true))
  unfolding generate
  generate-run size past call r distinct hashable h =
      let c = run hashing past (new_mem_cache size ttl) in
      let key = cache_key hashing call.request in
      elim (served-ok call.answered key call.answer (get call.asked key c) r h) [
        | inl now ↦ inl now
        | inr hit ↦
            let found = get-some past call.asked key c r (run-IsTraced size past) hit in
            let a = found.1 in
            inr (
              a.call,
              a.made,
              hashed-IsSame hashing a.call.request call.request (hashable a.call (tail a.made))
                  (hashable call (head refl)) (distinct a.call a.made (a.same_key ∙ found.2)),
              a.answered ∙ ap ok found.3,
              subst (λ z. ltb_ℤ call.asked z ≡ true) a.until found.4,
            )
      ]
