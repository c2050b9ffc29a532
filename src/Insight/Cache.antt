-- ===== src/Insight/Cache.antt =====
-- internal/insight/factory/memcache.go and cached.go: the cache of results and the insighter round
-- it. The list stands for the map too, whose elements are those of the list. A call holds the lock of
-- the cache from its start to its end, so that calls follow one another.
use yield_forge.Base.{Option, none, some, List, [], ◌∷◌, ◌++◌, length, if◌then◌else◌}
use yield_forge.Base.Int.{ℤ, pos, ◌+ℤ◌, ltb_ℤ}
use yield_forge.Base.Text.{Text}
use yield_forge.Base.Result.{Result, ok, err}
use yield_forge.Base.Unique.{find_by, drop_by}
use yield_forge.Marketdata.Quote.{Time}
use yield_forge.Insight.Gate.{InsightResult}

pub record CacheEntry : Type 0 where
  pub key : Text
  pub result : InsightResult
  pub expires : Time

-- The entries, the most recently used first.
pub record MemCache : Type 0 where
  pub ttl : ℤ
  pub size : ℤ
  pub entries : List CacheEntry

abbrev pub new_mem_cache : ℤ → ℤ → MemCache
new_mem_cache size ttl = record { ttl = ttl; size = size; entries = [] }

abbrev pub entry_key : CacheEntry → Text
entry_key e = e.key

-- The oldest entry goes.
abbrev pub drop_last : List CacheEntry → List CacheEntry
drop_last [] = []
drop_last (e ∷ []) = []
drop_last (e ∷ f ∷ es) = e ∷ drop_last (f ∷ es)

module _ (now : Time) (key : Text) where
  abbrev pub got : MemCache → Option CacheEntry → Option InsightResult × MemCache
  got c none = (none, c)
  got c (some e) =
      let rest = drop_by entry_key key c.entries in
      if ltb_ℤ now e.expires
      then (some e.result, record c { entries = e ∷ rest })
      else (none, record c { entries = rest })

  unfoldable pub get : MemCache → Option InsightResult × MemCache
  get c = got c (find_by entry_key key c.entries)

  abbrev pub placed : CacheEntry → MemCache → Option CacheEntry → List CacheEntry
  placed e c (some old) = e ∷ drop_by entry_key key c.entries
  placed e c none =
      if ltb_ℤ c.size (pos (length (e ∷ c.entries)))
      then drop_last (e ∷ c.entries)
      else e ∷ c.entries

  unfoldable pub set : InsightResult → MemCache → MemCache
  set result c =
      let e : CacheEntry = record { key = key; result = result; expires = now +ℤ c.ttl } in
      record c { entries = placed e c (find_by entry_key key c.entries) }

pub record InsightRequest (Facts : Type 0) : Type 0 where
  pub facts : Facts
  pub task : Text
  pub user_id : Text

-- `json.Marshal` on the facts, with none for its error, and SHA-256 of the bytes in hexadecimal.
pub record Hashing (Facts : Type 0) : Type 0 where
  pub marshal : Facts → Option Text
  pub digest : Text → Text

-- An error of `json.Marshal` is ignored, and leaves no text.
abbrev pub marshalled : Option Text → Text
marshalled none = []
marshalled (some t) = t

abbrev pub hashed : {F : Type 0} → Hashing F → InsightRequest F → Text
hashed hashing req = req.user_id ++ (0 ∷ (req.task ++ (0 ∷ marshalled (hashing.marshal req.facts))))

unfoldable pub cache_key : {F : Type 0} → Hashing F → InsightRequest F → Text
cache_key hashing req = hashing.digest (hashed hashing req)

-- What the wrapped insighter answers is kept at the time of its answer, an error is not.
abbrev pub keep_result :
    Time → Text → Result InsightResult → MemCache → Result InsightResult × MemCache
keep_result answered key (ok res) c = (ok res, set answered key res c)
keep_result answered key (err e) c = (err e, c)

abbrev pub served :
    Time
    → Text
    → Result InsightResult
    → Option InsightResult × MemCache
    → Result InsightResult × MemCache
served answered key answer (some res, c) = (ok res, c)
served answered key answer (none, c) = keep_result answered key answer c

-- A request, asked and answered at two readings of the clock, and what the wrapped insighter answers
-- if it is called.
pub record Call (Facts : Type 0) : Type 0 where
  pub asked : Time
  pub answered : Time
  pub request : InsightRequest Facts
  pub answer : Result InsightResult

unfoldable pub generate :
    {F : Type 0} → Hashing F → Call F → MemCache → Result InsightResult × MemCache
generate hashing call c =
    let key = cache_key hashing call.request in
    served call.answered key call.answer (get call.asked key c)

-- The calls, the latest first.
unfoldable pub run : {F : Type 0} → Hashing F → List (Call F) → MemCache → MemCache
run hashing [] c = c
run hashing (call ∷ past) c = (generate hashing call (run hashing past c)).1
