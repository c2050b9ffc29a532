-- ===== src/Config.antt =====
-- internal/platform/config/config.go: the configuration and what its methods answer. Messages are
-- left out: a problem is the variable it is about and the reason.
pub mod Env
pub mod Blocks
pub mod Load
pub mod DotEnv
pub mod Checks
pub mod Validity
use yield_forge.Base.{
  ℕ, ◌*◌, ◌^◌, Bool, true, false, ◌||◌, not, Option, none, some, List, [], ◌∷◌, ◌++◌, if◌then◌else◌,
}
use yield_forge.Base.Int.{ℤ, pos, ltb_ℤ}
use yield_forge.Base.Text.{Text, Unicode, codes, text_eq}

-- A float64: not a number, one of the infinities, or a multiple of 2 ^ -1074.
pub data Float : Type 0 where
  nan plus_infinity minus_infinity : Float
  finite : ℤ → Float

abbrev pub is_below_zero : Float → Bool
is_below_zero nan = false
is_below_zero plus_infinity = false
is_below_zero minus_infinity = true
is_below_zero (finite z) = ltb_ℤ z (pos 0)

abbrev pub is_above_one : Float → Bool
is_above_one nan = false
is_above_one plus_infinity = true
is_above_one minus_infinity = false
is_above_one (finite z) = ltb_ℤ (pos (2 ^ 1074)) z

pub record Url : Type 0 where
  pub scheme : Text
  pub host : Text
  pub path : Text

-- `url.Parse`, `strconv.ParseFloat`, `strconv.ParseBool` and `time.ParseDuration`.
pub record Library : Type 0 where
  pub unicode : Unicode
  pub parse_url : Text → Option Url
  pub parse_float : Text → Option Float
  pub parse_bool : Text → Option Bool
  pub parse_duration : Text → Option ℤ

pub data Reason : Type 0 where
  not_integer not_number not_boolean not_duration not_http_url : Reason
  out_of_range required unknown_value not_positive : Reason

pub record Problem : Type 0 where
  pub key : Text
  pub reason : Reason

pub data Warning : Type 0 where
  unknown_log_level unknown_log_format : Text → Warning
  cleartext : Text → Warning

pub record Config : Type 0 where
  pub app_env : Text
  pub port : ℤ
  pub log_level : Text
  pub log_format : Text
  pub read_timeout : ℤ
  pub write_timeout : ℤ
  pub idle_timeout : ℤ
  pub shutdown_timeout : ℤ
  pub database_url : Text
  pub db_max_open_conns : ℤ
  pub db_max_idle_conns : ℤ
  pub db_conn_max_lifetime : ℤ
  pub db_conn_max_idle_time : ℤ
  pub db_connect_timeout : ℤ
  pub session_ttl : ℤ
  pub auth_cookie_name : Text
  pub otel_service_name : Text
  pub otel_exporter_kind : Text
  pub otel_exporter_endpoint : Text
  pub otel_exporter_headers : Text
  pub otel_trace_sample_ratio : Float
  pub insighter_provider : Text
  pub insighter_ollama_base_url : Text
  pub insighter_ollama_model : Text
  pub insighter_groq_base_url : Text
  pub insighter_groq_api_key : Text
  pub insighter_groq_model : Text
  pub insighter_timeout : ℤ
  pub insighter_cache_ttl : ℤ
  pub insighter_cache_size : ℤ
  pub market_data_provider : Text
  pub market_data_fundamentus_base_url : Text
  pub market_data_yahoo_base_url : Text
  pub market_data_bcb_base_url : Text
  pub market_data_watchlist : List Text
  pub market_data_refresh_interval : ℤ
  pub market_data_timeout : ℤ
  pub market_data_scheduler_enabled : Bool
  pub warnings : List Warning

abbrev pub second : ℕ
second = 10 ^ 9

abbrev pub minute : ℕ
minute = 60 * second

abbrev pub hour : ℕ
hour = 60 * minute

abbrev pub default_app_env : Text
default_app_env = codes "dev"

abbrev pub default_log_level : Text
default_log_level = codes "info"

abbrev pub one_of : List Text → Text → Bool
one_of [] s = false
one_of (v ∷ vs) s = text_eq v s || one_of vs s

abbrev pub valid_otel_exporter_kinds : List Text
valid_otel_exporter_kinds = codes "otlp" ∷ codes "stdout" ∷ codes "none" ∷ []

abbrev pub valid_insighter_providers : List Text
valid_insighter_providers = codes "ollama" ∷ codes "groq" ∷ codes "fake" ∷ []

abbrev pub valid_market_data_providers : List Text
valid_market_data_providers = codes "fake" ∷ codes "live" ∷ []

abbrev pub valid_log_levels : List Text
valid_log_levels = codes "debug" ∷ codes "info" ∷ codes "warn" ∷ codes "error" ∷ []

abbrev pub is_dev : Config → Bool
is_dev c = text_eq c.app_env (codes "dev")

abbrev pub cookie_secure : Config → Bool
cookie_secure c = not (is_dev c)

abbrev pub telemetry_enabled : Config → Bool
telemetry_enabled c = not (text_eq c.otel_exporter_kind (codes "none"))

abbrev redacted : Option Url → Text
redacted none = codes "[unparseable DATABASE_URL]"
redacted (some u) = u.scheme ++ codes "://" ++ u.host ++ u.path

abbrev redacted_url : Library → Text → Text
redacted_url lib [] = []
redacted_url lib (c ∷ s) = redacted (lib.parse_url (c ∷ s))

abbrev pub redacted_database_url : Library → Config → Text
redacted_database_url lib c = redacted_url lib c.database_url

abbrev pub mask_secret : Text → Text
mask_secret [] = []
mask_secret (c ∷ s) = codes "[REDACTED]"
