-- ===== src/Config/Blocks.antt =====
-- internal/platform/config/config.go: the blocks of Load. A block gives the value that it sets and the
-- problems that it appends.
use yield_forge.Base.{
  ◌^◌, Bool, true, false, ◌&&◌, ◌||◌, not, Option, none, some, List, [], ◌∷◌, ◌++◌, if◌then◌else◌,
}
use yield_forge.Base.Int.{ℤ, pos, ltb_ℤ, leb_ℤ}
use yield_forge.Base.Text.{Text, codes, text_eq, to_lower}
use yield_forge.Config.{
  Config, Library, Url, Float, finite, is_below_zero, is_above_one, Reason, Problem, not_http_url,
  out_of_range, required, unknown_value, not_positive, Warning, unknown_log_level,
  unknown_log_format, cleartext, default_app_env, default_log_level, one_of,
  valid_otel_exporter_kinds, valid_insighter_providers, valid_market_data_providers,
  valid_log_levels,
}
use yield_forge.Config.Env.{
  Env, Read, value, bad, get_string, get_int, get_float, get_bool, get_duration, no_text,
}

pub record Block (A : Type 0) : Type 0 where
  pub result : A
  pub problems : List Problem

abbrev pub problem : Text → Reason → List Problem
problem key reason = record { key = key; reason = reason } ∷ []

-- `if … { errs = append(errs, …) }`.
abbrev pub problem_if : Bool → Text → Reason → List Problem
problem_if b key reason = if b then problem key reason else []

-- A value that a test refuses is not stored, nor one that does not parse: the field stays at zero.
module _ {A : Type 0} where
  abbrev pub checked : (A → Bool) → Text → A → Read A → Block A
  checked refused key zero_value (bad p) = record { result = zero_value; problems = p ∷ [] }
  checked refused key zero_value (value a) = record {
    result = if refused a then zero_value else a;
    problems = problem_if (refused a) key out_of_range;
  }

  abbrev pub stored : A → Read A → Block A
  stored zero_value (bad p) = record { result = zero_value; problems = p ∷ [] }
  stored zero_value (value a) = record { result = a; problems = [] }

unfoldable pub load_port : Env → Block ℤ
load_port env =
    checked (λ n. ltb_ℤ n (pos 1) || ltb_ℤ (pos 65535) n) (codes "APP_PORT") (pos 0)
      (get_int (codes "APP_PORT") (pos 8080) env)

abbrev pub level_or_default : Text → Text × List Warning
level_or_default level =
    if one_of valid_log_levels level
    then (level, [])
    else (default_log_level, unknown_log_level level ∷ [])

unfoldable pub load_log_level : Library → Env → Text × List Warning
load_log_level lib env =
    level_or_default (to_lower lib.unicode (get_string (codes "LOG_LEVEL") default_log_level env))

abbrev pub default_format : Text → Text
default_format app_env = if text_eq app_env default_app_env then codes "text" else codes "json"

abbrev pub format_or_default : Text → Text → Text × List Warning
format_or_default default format =
    if text_eq format (codes "json") || text_eq format (codes "text")
    then (format, [])
    else (default, unknown_log_format format ∷ [])

unfoldable pub load_log_format : Library → Text → Env → Text × List Warning
load_log_format lib app_env env =
    let default = default_format app_env in
    format_or_default default (to_lower lib.unicode (get_string (codes "LOG_FORMAT") default env))

unfoldable pub load_database_url : Env → Block Text
load_database_url env =
    let url = get_string (codes "DATABASE_URL") [] env in
    record { result = url; problems = problem_if (no_text url) (codes "DATABASE_URL") required }

abbrev pub kind_or_default : Text → Text → Text
kind_or_default endpoint kind =
    if no_text kind then (if no_text endpoint then codes "none" else codes "otlp") else kind

-- A name that must be one of a list; it is stored all the same.
abbrev pub named : List Text → Text → Text → Block Text
named valid key name = record {
  result = name;
  problems = problem_if (not (one_of valid name)) key unknown_value;
}

unfoldable pub load_exporter_kind : Library → Text → Env → Block Text
load_exporter_kind lib endpoint env = named valid_otel_exporter_kinds (codes "OTEL_EXPORTER_KIND") (
    kind_or_default endpoint
      (to_lower lib.unicode (get_string (codes "OTEL_EXPORTER_KIND") [] env)))

unfoldable pub load_sample_ratio : Library → Env → Block Float
load_sample_ratio lib env =
    checked (λ r. is_below_zero r || is_above_one r) (codes "OTEL_TRACE_SAMPLE_RATIO")
      (finite (pos 0))
      (get_float lib (codes "OTEL_TRACE_SAMPLE_RATIO") (finite (pos (2 ^ 1074))) env)

unfoldable pub load_insighter_provider : Library → Env → Block Text
load_insighter_provider lib env =
    named valid_insighter_providers (codes "INSIGHTER_PROVIDER")
      (to_lower lib.unicode (get_string (codes "INSIGHTER_PROVIDER") (codes "ollama") env))

unfoldable pub load_groq_key : Text → Env → Block Text
load_groq_key provider env =
    let key = get_string (codes "INSIGHTER_GROQ_API_KEY") [] env in
    record {
      result = key;
      problems =
          problem_if (text_eq provider (codes "groq") && no_text key)
            (codes "INSIGHTER_GROQ_API_KEY") required;
    }

abbrev pub is_http_url : Option Url → Bool
is_http_url none = false
is_http_url (some u) =
    not (no_text u.host) && (text_eq u.scheme (codes "http") || text_eq u.scheme (codes "https"))

abbrev pub is_https : Option Url → Bool
is_https none = false
is_https (some u) = text_eq u.scheme (codes "https")

unfoldable pub load_base_url : Library → Text → Text → Env → Block Text
load_base_url lib key default env =
    let url = get_string key default env in
    record {
      result = url;
      problems = problem_if (not (is_http_url (lib.parse_url url))) key not_http_url;
    }

unfoldable pub groq_warnings : Library → Text → Text → List Warning
groq_warnings lib provider url =
    let parsed = lib.parse_url url in
    if is_http_url parsed && text_eq provider (codes "groq") && not (is_https parsed)
    then cleartext (codes "INSIGHTER_GROQ_BASE_URL") ∷ []
    else []

unfoldable pub load_cache_size : Env → Block ℤ
load_cache_size env =
    checked (λ n. ltb_ℤ n (pos 1)) (codes "INSIGHTER_CACHE_SIZE") (pos 0)
      (get_int (codes "INSIGHTER_CACHE_SIZE") (pos 256) env)

unfoldable pub load_market_data_provider : Library → Env → Block Text
load_market_data_provider lib env =
    named valid_market_data_providers (codes "MARKETDATA_PROVIDER")
      (to_lower lib.unicode (get_string (codes "MARKETDATA_PROVIDER") (codes "fake") env))

unfoldable pub load_scheduler_enabled : Library → Env → Block Bool
load_scheduler_enabled lib env =
    stored false (get_bool lib (codes "MARKETDATA_SCHEDULER_ENABLED") true env)

unfoldable pub load_pool_size : Text → ℤ → Env → Block ℤ
load_pool_size key default env =
    checked (λ n. ltb_ℤ n (pos 0)) key (pos 0) (get_int key default env)

unfoldable pub load_duration : Library → Text → ℤ → Env → Block ℤ
load_duration lib key default env = stored (pos 0) (get_duration lib key default env)

abbrev pub positive : Text → ℤ → List Problem
positive key d = problem_if (leb_ℤ d (pos 0)) key not_positive

pub data Loaded : Type 0 where
  loaded : Config → Loaded
  invalid : List Problem → Loaded

-- `if len(errs) > 0`.
abbrev pub report : List Problem → Config → Loaded
report [] cfg = loaded cfg
report (p ∷ ps) cfg = invalid (p ∷ ps)

abbrev pub concat : List (List Problem) → List Problem
concat [] = []
concat (ps ∷ pss) = ps ++ concat pss
