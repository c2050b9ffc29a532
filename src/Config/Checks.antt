-- ===== src/Config/Checks.antt =====
-- internal/platform/config/config.go: what a block passes that appends no problem.
use yield_forge.Base.{
  Bool, true, false, ◌^◌, ◌&&◌, ◌||◌, not, List, [], ◌∷◌, ◌++◌, ◌≡◌, ◌≢◌, refl, sym, subst, inl,
  inr, arith, All, Bool-cases,
}
use yield_forge.Base.Int.{ℤ, pos, ltb_ℤ, leb_ℤ, ◌≤ℤ◌, ◌<ℤ◌}
use yield_forge.Base.Text.{Text, codes, text_eq, text_eq_iff, to_lower}
use yield_forge.Config.{
  Config, Library, finite, required, not_http_url, is_below_zero, is_above_one, Reason, Problem,
  one_of, not_positive, unknown_value, default_app_env, valid_otel_exporter_kinds,
  valid_insighter_providers, valid_market_data_providers, valid_log_levels, default_log_level,
}
use yield_forge.Config.Env.{Env, Read, value, bad, get_string, get_int, get_float, no_text}
use yield_forge.Config.Blocks.{
  problem_if, checked, named, level_or_default, load_log_level, format_or_default, load_log_format,
  load_database_url, load_port, load_exporter_kind, load_sample_ratio, load_insighter_provider,
  load_groq_key, load_base_url, load_cache_size, load_market_data_provider, load_pool_size,
  positive, is_http_url, default_format, loaded, concat, report,
}

pub append-[] {ℓ} : {A : Type ℓ} (xs ys : List A) → xs ++ ys ≡ [] → (xs ≡ []) × (ys ≡ [])
append-[] [] ys h = (refl, h)
append-[] (x ∷ xs) ys h = ground (arith, h)

problem_if-[] : (b : Bool) (key : Text) (r : Reason) → problem_if b key r ≡ [] → b ≡ false
problem_if-[] true key r h = ground (arith, h)
problem_if-[] false key r h = refl

checked-[] :
    {A : Type 0} (refused : A → Bool) (key : Text) (zero_value : A) (r : Read A)
    → (checked refused key zero_value r).problems ≡ []
    → refused (checked refused key zero_value r).result ≡ false
checked-[] refused key zero_value (bad p) h = ground (arith, h)
checked-[] refused key zero_value (value a) h =
    let fine = problem_if-[] (refused a) key _ h in rw fine fine

named-[] :
    (valid : List Text) (key name : Text)
    → (named valid key name).problems ≡ []
    → one_of valid name ≡ true
named-[] valid key name h =
    ground (arith, problem_if-[] (not (one_of valid name)) key unknown_value h)

no_text-false : (s : Text) → no_text s ≡ false → s ≢ []
no_text-false [] h = ground (arith, h)
no_text-false (c ∷ s) h = λ e. ground (arith, e)

pub positive-[] : (key : Text) (d : ℤ) → positive key d ≡ [] → pos 0 <ℤ d
positive-[] key d h = ground (arith, problem_if-[] (leb_ℤ d (pos 0)) key not_positive h)

level_or_default-valid : (level : Text) → one_of valid_log_levels (level_or_default level).0 ≡ true
level_or_default-valid level = elim (Bool-cases (one_of valid_log_levels level)) [
  | inl known ↦ rw known known
  | inr unknown ↦ rw unknown refl
]

-- What a number, a ratio or a format passes when its test does not refuse it.
true_of_opposite : (b : Bool) → not b ≡ false → b ≡ true
true_of_opposite true h = refl
true_of_opposite false h = ground (arith, h)

in_port_range :
    (n : ℤ) → (ltb_ℤ n (pos 1) || ltb_ℤ (pos 65535) n) ≡ false → (pos 1 ≤ℤ n) × (n ≤ℤ pos 65535)
in_port_range n h = (ground (arith, h), ground (arith, h))

at_least : (m n : ℤ) → ltb_ℤ n m ≡ false → m ≤ℤ n
at_least m n h = ground (arith, h)

neither : (a b : Bool) → (a || b) ≡ false → (a ≡ false) × (b ≡ false)
neither true b h = ground (arith, h)
neither false b h = (refl, h)

second_false : (a b : Bool) → a ≡ true → (a && b) ≡ false → b ≡ false
second_false true b e h = h
second_false false b e h = ground (arith, e)

abbrev pub json_or_text : List Text
json_or_text = codes "json" ∷ codes "text" ∷ []

default_format-valid : (app_env : Text) → one_of json_or_text (default_format app_env) ≡ true
default_format-valid app_env = elim (Bool-cases (text_eq app_env default_app_env)) [
  | inl dev ↦ rw dev refl
  | inr other ↦ rw other refl
]

format_or_default-valid :
    (app_env format : Text)
    → one_of json_or_text (format_or_default (default_format app_env) format).0 ≡ true
format_or_default-valid app_env format =
    let kept : Text → Type 0 =
      λ f. one_of json_or_text (format_or_default (default_format app_env) f).0 ≡ true in
    elim (Bool-cases (text_eq format (codes "json"))) [
      | inl json ↦ subst kept (sym ((text_eq_iff format (codes "json")).0 json)) refl
      | inr no_json ↦ elim (Bool-cases (text_eq format (codes "text"))) [
        | inl text ↦ subst kept (sym ((text_eq_iff format (codes "text")).0 text)) refl
        | inr no_text ↦ rw (no_json, no_text) (default_format-valid app_env)
      ]
    ]

module _ (lib : Library) (env : Env) where
  pub load_port-[] :
      (load_port env).problems ≡ []
      → (pos 1 ≤ℤ (load_port env).result) × ((load_port env).result ≤ℤ pos 65535)
  unfolding load_port
  load_port-[] h = in_port_range (load_port env).result (
      checked-[] (λ n. ltb_ℤ n (pos 1) || ltb_ℤ (pos 65535) n) (codes "APP_PORT") (pos 0)
        (get_int (codes "APP_PORT") (pos 8080) env) h)

  pub load_log_level-valid : one_of valid_log_levels (load_log_level lib env).0 ≡ true
  unfolding load_log_level
  load_log_level-valid =
      level_or_default-valid
        (to_lower lib.unicode (get_string (codes "LOG_LEVEL") default_log_level env))

  pub load_log_format-valid :
      (app_env : Text)
      → one_of (codes "json" ∷ codes "text" ∷ []) (load_log_format lib app_env env).0 ≡ true
  unfolding load_log_format
  load_log_format-valid app_env =
      format_or_default-valid app_env
        (to_lower lib.unicode (get_string (codes "LOG_FORMAT") (default_format app_env) env))

  pub load_database_url-[] :
      (load_database_url env).problems ≡ [] → (load_database_url env).result ≢ []
  unfolding load_database_url
  load_database_url-[] h = no_text-false (get_string (codes "DATABASE_URL") [] env) (
      problem_if-[] (no_text (get_string (codes "DATABASE_URL") [] env)) (codes "DATABASE_URL")
        required h)

  pub load_sample_ratio-[] :
      (load_sample_ratio lib env).problems ≡ []
      → (is_below_zero (load_sample_ratio lib env).result ≡ false)
        × (is_above_one (load_sample_ratio lib env).result ≡ false)
  unfolding load_sample_ratio
  load_sample_ratio-[] h =
      neither (is_below_zero (load_sample_ratio lib env).result)
        (is_above_one (load_sample_ratio lib env).result)
        (checked-[] (λ r. is_below_zero r || is_above_one r) (codes "OTEL_TRACE_SAMPLE_RATIO")
          (finite (pos 0))
          (get_float lib (codes "OTEL_TRACE_SAMPLE_RATIO") (finite (pos (2 ^ 1074))) env) h)

  pub load_exporter_kind-[] :
      (endpoint : Text)
      → (load_exporter_kind lib endpoint env).problems ≡ []
      → one_of valid_otel_exporter_kinds (load_exporter_kind lib endpoint env).result ≡ true
  unfolding load_exporter_kind
  load_exporter_kind-[] endpoint h =
      named-[] valid_otel_exporter_kinds (codes "OTEL_EXPORTER_KIND")
        (load_exporter_kind lib endpoint env).result h

  pub load_insighter_provider-[] :
      (load_insighter_provider lib env).problems ≡ []
      → one_of valid_insighter_providers (load_insighter_provider lib env).result ≡ true
  unfolding load_insighter_provider
  load_insighter_provider-[] h =
      named-[] valid_insighter_providers (codes "INSIGHTER_PROVIDER")
        (load_insighter_provider lib env).result h

  pub load_groq_key-[] :
      (provider : Text)
      → (load_groq_key provider env).problems ≡ []
      → provider ≡ codes "groq"
      → (load_groq_key provider env).result ≢ []
  unfolding load_groq_key
  load_groq_key-[] provider h e =
      let key = get_string (codes "INSIGHTER_GROQ_API_KEY") [] env in
      let groq = (text_eq_iff provider (codes "groq")).1 e in
      let fine =
        problem_if-[] (text_eq provider (codes "groq") && no_text key)
          (codes "INSIGHTER_GROQ_API_KEY") required h in
      no_text-false key (second_false (text_eq provider (codes "groq")) (no_text key) groq fine)

  pub load_base_url-[] :
      (key default : Text)
      → (load_base_url lib key default env).problems ≡ []
      → is_http_url (lib.parse_url (load_base_url lib key default env).result) ≡ true
  unfolding load_base_url
  load_base_url-[] key default h =
      let good = is_http_url (lib.parse_url (get_string key default env)) in
      true_of_opposite good (problem_if-[] (not good) key not_http_url h)

  pub load_cache_size-[] :
      (load_cache_size env).problems ≡ [] → pos 1 ≤ℤ (load_cache_size env).result
  unfolding load_cache_size
  load_cache_size-[] h = at_least (pos 1) (load_cache_size env).result (
      checked-[] (λ n. ltb_ℤ n (pos 1)) (codes "INSIGHTER_CACHE_SIZE") (pos 0)
        (get_int (codes "INSIGHTER_CACHE_SIZE") (pos 256) env) h)

  pub load_market_data_provider-[] :
      (load_market_data_provider lib env).problems ≡ []
      → one_of valid_market_data_providers (load_market_data_provider lib env).result ≡ true
  unfolding load_market_data_provider
  load_market_data_provider-[] h =
      named-[] valid_market_data_providers (codes "MARKETDATA_PROVIDER")
        (load_market_data_provider lib env).result h

  pub load_pool_size-[] :
      (key : Text) (default : ℤ)
      → (load_pool_size key default env).problems ≡ []
      → pos 0 ≤ℤ (load_pool_size key default env).result
  unfolding load_pool_size
  load_pool_size-[] key default h =
      at_least (pos 0) (load_pool_size key default env).result
        (checked-[] (λ n. ltb_ℤ n (pos 0)) key (pos 0) (get_int key default env) h)

pub report-loaded :
    (ps : List Problem) (c cfg : Config) → report ps c ≡ loaded cfg → (ps ≡ []) × (c ≡ cfg)
report-loaded [] c cfg h = (refl, ground (arith, h))
report-loaded (p ∷ ps) c cfg h = ground (arith, h)

pub concat-[] : (pss : List (List Problem)) → concat pss ≡ [] → All (λ ps. ps ≡ []) pss
concat-[] [] h = tt
concat-[] (ps ∷ pss) h = let both = append-[] ps (concat pss) h in (both.0, concat-[] pss both.1)
