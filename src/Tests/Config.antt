-- ===== src/Tests/Config.antt =====
-- internal/platform/config with only the database URL set, and lines of a .env file.
use yield_forge.Base.{none, some, List, [], ◌∷◌, ◌≡◌, refl}
use yield_forge.Base.Text.{Text, codes, trim_space, before}
use yield_forge.Base.Dict.{lookup, insert, text_key}
use yield_forge.Config.{Library}
use yield_forge.Config.Env.{
  Env, env_value, get_string, get_int, get_float, get_bool, get_duration, load_dot_env,
  parse_dot_env_value,
}
use yield_forge.Config.Blocks.{
  loaded, load_port, load_database_url, load_exporter_kind, load_sample_ratio,
  load_insighter_provider, load_groq_key, load_base_url, load_cache_size, load_market_data_provider,
  load_scheduler_enabled, load_pool_size, load_duration,
}
use yield_forge.Config.Load.{load, config, problems}
use yield_forge.Config.Validity.{IsValid, load-IsValid}
use yield_forge.Config.DotEnv.{load_dot_env-set}
use yield_forge.Tests.{plain}

-- A URL parser that takes what stands before the colon, and parsers that read nothing.
abbrev library : Library
library = record {
  unicode = plain;
  parse_url = λ t. some (record { scheme = before b':' t; host = t; path = [] });
  parse_float = λ t. none;
  parse_bool = λ t. none;
  parse_duration = λ t. none;
}

abbrev environment : Env
environment = (codes "DATABASE_URL", codes "postgres://db") ∷ []

load_defaults : load library [] environment ≡ loaded (config library environment)
unfolding load problems load_dot_env load_port load_database_url load_exporter_kind
    load_sample_ratio load_insighter_provider load_groq_key load_base_url load_cache_size
    load_market_data_provider load_scheduler_enabled load_pool_size load_duration env_value
    get_string get_int get_float get_bool get_duration lookup
load_defaults = refl

load-IsValid_example : IsValid library (config library environment)
load-IsValid_example =
    load-IsValid library [] environment (config library environment) load_defaults

abbrev lines : List Text
lines = codes "# local" ∷ codes "DATABASE_URL=other" ∷ codes "APP_PORT=9090  # here" ∷ []

set_before : lookup (codes "DATABASE_URL") environment ≡ some (codes "postgres://db")
unfolding lookup
set_before = refl

load_dot_env-set_example :
    lookup (codes "DATABASE_URL") (load_dot_env lines environment) ≡ some (codes "postgres://db")
load_dot_env-set_example =
    load_dot_env-set lines (codes "DATABASE_URL") (codes "postgres://db") environment set_before

-- The comment behind a value is dropped.
seeded : lookup (codes "APP_PORT") (load_dot_env lines environment) ≡ some (codes "9090")
unfolding lookup insert load_dot_env trim_space parse_dot_env_value
seeded = refl
