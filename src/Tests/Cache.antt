-- ===== src/Tests/Cache.antt =====
-- internal/insight/factory: one user asks twice, the second time from the cache.
use yield_forge.Base.{some, ◌≡◌, ◌⊎◌, refl, subst, sym, [], ◌∷◌, true}
use yield_forge.Base.Int.{pos, ◌+ℤ◌, ltb_ℤ}
use yield_forge.Base.Text.{Text, codes}
use yield_forge.Base.Result.{ok, err, insights_unavailable}
use yield_forge.Base.Unique.{find_by, drop_by}
use yield_forge.Insight.Gate.{InsightResult}
use yield_forge.Insight.Cache.{
  InsightRequest, Hashing, Call, new_mem_cache, cache_key, generate, run, hashed, get, set,
}
use yield_forge.Insight.Capacity.{IsBounded, run-IsBounded}
use yield_forge.Insight.SameRequest.{IsHashable, IsSame}
use yield_forge.Insight.Provenance.{generate-run}
use mathlib.Core.List.{Memᴰ}
use mathlib.Core.List.Memᴰ.{head, tail}

-- Facts that are their own JSON.
abbrev hashing : Hashing Text
hashing = record { marshal = λ t. some t; digest = λ t. t }

abbrev asked_for : InsightRequest Text
asked_for = record { facts = codes "{}"; task = codes "mix"; user_id = codes "u1" }

abbrev result : InsightResult
result = record { insights = []; disclaimer = codes "no advice" }

abbrev first_call : Call Text
first_call = record { asked = pos 1; answered = pos 2; request = asked_for; answer = ok result }

-- The provider is down by now.
abbrev second_call : Call Text
second_call = record {
  asked = pos 5;
  answered = pos 6;
  request = asked_for;
  answer = err insights_unavailable;
}

run-IsBounded_example :
    IsBounded 1 (run hashing (second_call ∷ first_call ∷ []) (new_mem_cache (pos 1) (pos 10)))
run-IsBounded_example = run-IsBounded 1 hashing (pos 10) (second_call ∷ first_call ∷ [])

hit :
    (generate hashing second_call
      (run hashing (first_call ∷ []) (new_mem_cache (pos 2) (pos 10)))).0
    ≡ ok result
unfolding generate run cache_key get set find_by drop_by ◌+ℤ◌
hit = refl

no_collision :
    (d : Call Text)
    → Memᴰ d (first_call ∷ [])
    → cache_key hashing d.request ≡ cache_key hashing second_call.request
    → hashed hashing d.request ≡ hashed hashing second_call.request
unfolding cache_key
no_collision d m e = e

asked_for-IsHashable : IsHashable hashing asked_for
asked_for-IsHashable = record {
  user_clean = refl;
  task_clean = refl;
  json = codes "{}";
  marshals = refl;
}

calls-IsHashable :
    (d : Call Text) → Memᴰ d (second_call ∷ first_call ∷ []) → IsHashable hashing d.request
calls-IsHashable d (head e) = subst (λ c. IsHashable hashing c.request) (sym e) asked_for-IsHashable
calls-IsHashable d (tail (head e)) =
    subst (λ c. IsHashable hashing c.request) (sym e) asked_for-IsHashable
calls-IsHashable d (tail (tail m)) = elim m [ ]

generate-run_example :
    (second_call.answer ≡ ok result)
    ⊎ ((d : Call Text) × Memᴰ d (first_call ∷ [])
        × IsSame hashing d.request asked_for
        × (d.answer ≡ ok result)
        × (ltb_ℤ (pos 5) (d.answered +ℤ pos 10) ≡ true))
generate-run_example =
    generate-run hashing (pos 10) (pos 2) (first_call ∷ []) second_call result no_collision
      calls-IsHashable hit
