-- ===== src/Config/Load.antt =====
-- internal/platform/config/config.go: Load puts its blocks together in their order.
use yield_forge.Base.{◌*◌, Bool, List, [], ◌∷◌, ◌++◌}
use yield_forge.Base.Int.{ℤ, pos}
use yield_forge.Base.Text.{Text, codes}
use yield_forge.Config.{
  Config, Library, Float, Problem, Warning, second, minute, hour, default_app_env,
}
use yield_forge.Config.Env.{Env, get_string, split_and_trim, load_dot_env}
use yield_forge.Config.Blocks.{
  Block, Loaded, load_port, load_log_level, load_log_format, load_database_url, load_exporter_kind,
  load_sample_ratio, load_insighter_provider, load_groq_key, load_base_url, groq_warnings,
  load_cache_size, load_market_data_provider, load_scheduler_enabled, load_pool_size, load_duration,
  positive, concat, report,
}

-- The blocks over one environment, by the fields that they set.
module _ (lib : Library) (env : Env) where
  abbrev pub app_env : Text
  app_env = get_string (codes "APP_ENV") default_app_env env

  abbrev pub log_level : Text × List Warning
  log_level = load_log_level lib env

  abbrev pub log_format : Text × List Warning
  log_format = load_log_format lib app_env env

  abbrev pub endpoint : Text
  endpoint = get_string (codes "OTEL_EXPORTER_OTLP_ENDPOINT") [] env

  abbrev pub port : Block ℤ
  port = load_port env

  abbrev pub database_url : Block Text
  database_url = load_database_url env

  abbrev pub exporter_kind : Block Text
  exporter_kind = load_exporter_kind lib endpoint env

  abbrev pub sample_ratio : Block Float
  sample_ratio = load_sample_ratio lib env

  abbrev pub provider : Block Text
  provider = load_insighter_provider lib env

  abbrev pub groq_key : Block Text
  groq_key = load_groq_key provider.result env

  abbrev pub ollama_url : Block Text
  ollama_url =
      load_base_url lib (codes "INSIGHTER_OLLAMA_BASE_URL") (codes "http://localhost:11434") env

  abbrev pub groq_url : Block Text
  groq_url =
      load_base_url lib (codes "INSIGHTER_GROQ_BASE_URL") (codes "https://api.groq.com/openai/v1")
        env

  abbrev pub cache_size : Block ℤ
  cache_size = load_cache_size env

  abbrev pub market_provider : Block Text
  market_provider = load_market_data_provider lib env

  abbrev pub fundamentus_url : Block Text
  fundamentus_url =
      load_base_url lib (codes "MARKETDATA_FUNDAMENTUS_BASE_URL")
        (codes "https://www.fundamentus.com.br") env

  abbrev pub yahoo_url : Block Text
  yahoo_url =
      load_base_url lib (codes "MARKETDATA_YAHOO_BASE_URL")
        (codes "https://query1.finance.yahoo.com") env

  abbrev pub bcb_url : Block Text
  bcb_url =
      load_base_url lib (codes "MARKETDATA_BCB_BASE_URL")
        (codes "https://api.bcb.gov.br/dados/serie") env

  abbrev pub scheduler : Block Bool
  scheduler = load_scheduler_enabled lib env

  abbrev pub open_conns : Block ℤ
  open_conns = load_pool_size (codes "DB_MAX_OPEN_CONNS") (pos 10) env

  abbrev pub idle_conns : Block ℤ
  idle_conns = load_pool_size (codes "DB_MAX_IDLE_CONNS") (pos 5) env

  abbrev pub read : Block ℤ
  read = load_duration lib (codes "HTTP_READ_TIMEOUT") (pos (10 * second)) env

  abbrev pub write : Block ℤ
  write = load_duration lib (codes "HTTP_WRITE_TIMEOUT") (pos (10 * second)) env

  abbrev pub idle : Block ℤ
  idle = load_duration lib (codes "HTTP_IDLE_TIMEOUT") (pos (60 * second)) env

  abbrev pub shutdown : Block ℤ
  shutdown = load_duration lib (codes "SHUTDOWN_TIMEOUT") (pos (10 * second)) env

  abbrev pub lifetime : Block ℤ
  lifetime = load_duration lib (codes "DB_CONN_MAX_LIFETIME") (pos (30 * minute)) env

  abbrev pub idle_time : Block ℤ
  idle_time = load_duration lib (codes "DB_CONN_MAX_IDLE_TIME") (pos (5 * minute)) env

  abbrev pub connect : Block ℤ
  connect = load_duration lib (codes "DB_CONNECT_TIMEOUT") (pos (5 * second)) env

  abbrev pub session : Block ℤ
  session = load_duration lib (codes "SESSION_TTL") (pos (168 * hour)) env

  abbrev pub generation : Block ℤ
  generation = load_duration lib (codes "INSIGHTER_TIMEOUT") (pos (30 * second)) env

  abbrev pub cache_ttl : Block ℤ
  cache_ttl = load_duration lib (codes "INSIGHTER_CACHE_TTL") (pos (30 * minute)) env

  abbrev pub refresh : Block ℤ
  refresh = load_duration lib (codes "MARKETDATA_REFRESH_INTERVAL") (pos (24 * hour)) env

  abbrev pub request : Block ℤ
  request = load_duration lib (codes "MARKETDATA_TIMEOUT") (pos (15 * second)) env

  -- The messages in the order of the blocks.
  abbrev pub setting_problems : List (List Problem)
  setting_problems =
      port.problems ∷ database_url.problems ∷ exporter_kind.problems ∷ sample_ratio.problems
      ∷ provider.problems ∷ groq_key.problems ∷ ollama_url.problems ∷ groq_url.problems
      ∷ cache_size.problems ∷ []

  abbrev pub source_problems : List (List Problem)
  source_problems =
      market_provider.problems ∷ fundamentus_url.problems ∷ yahoo_url.problems ∷ bcb_url.problems
      ∷ scheduler.problems ∷ open_conns.problems ∷ idle_conns.problems ∷ []

  abbrev pub duration_problems : List (List Problem)
  duration_problems =
      read.problems ∷ write.problems ∷ idle.problems ∷ shutdown.problems ∷ lifetime.problems
      ∷ idle_time.problems ∷ connect.problems ∷ session.problems ∷ generation.problems
      ∷ cache_ttl.problems ∷ refresh.problems ∷ request.problems ∷ []

  abbrev pub sign_problems : List (List Problem)
  sign_problems =
      positive (codes "INSIGHTER_TIMEOUT") generation.result
      ∷ positive (codes "INSIGHTER_CACHE_TTL") cache_ttl.result
      ∷ positive (codes "MARKETDATA_REFRESH_INTERVAL") refresh.result
      ∷ positive (codes "MARKETDATA_TIMEOUT") request.result
      ∷ []

  unfoldable pub problems : List Problem
  problems =
      concat setting_problems
      ++ (concat source_problems ++ (concat duration_problems ++ concat sign_problems))

  unfoldable pub config : Config
  config = record {
    app_env = app_env;
    port = port.result;
    log_level = log_level.0;
    log_format = log_format.0;
    read_timeout = read.result;
    write_timeout = write.result;
    idle_timeout = idle.result;
    shutdown_timeout = shutdown.result;
    database_url = database_url.result;
    db_max_open_conns = open_conns.result;
    db_max_idle_conns = idle_conns.result;
    db_conn_max_lifetime = lifetime.result;
    db_conn_max_idle_time = idle_time.result;
    db_connect_timeout = connect.result;
    session_ttl = session.result;
    auth_cookie_name = get_string (codes "AUTH_COOKIE_NAME") (codes "yf_session") env;
    otel_service_name = get_string (codes "OTEL_SERVICE_NAME") (codes "yield-forge") env;
    otel_exporter_kind = exporter_kind.result;
    otel_exporter_endpoint = endpoint;
    otel_exporter_headers = get_string (codes "OTEL_EXPORTER_OTLP_HEADERS") [] env;
    otel_trace_sample_ratio = sample_ratio.result;
    insighter_provider = provider.result;
    insighter_ollama_base_url = ollama_url.result;
    insighter_ollama_model = get_string (codes "INSIGHTER_OLLAMA_MODEL") (codes "llama3.1") env;
    insighter_groq_base_url = groq_url.result;
    insighter_groq_api_key = groq_key.result;
    insighter_groq_model =
        get_string (codes "INSIGHTER_GROQ_MODEL") (codes "llama-3.1-8b-instant") env;
    insighter_timeout = generation.result;
    insighter_cache_ttl = cache_ttl.result;
    insighter_cache_size = cache_size.result;
    market_data_provider = market_provider.result;
    market_data_fundamentus_base_url = fundamentus_url.result;
    market_data_yahoo_base_url = yahoo_url.result;
    market_data_bcb_base_url = bcb_url.result;
    market_data_watchlist = split_and_trim (get_string (codes "MARKETDATA_WATCHLIST") [] env);
    market_data_refresh_interval = refresh.result;
    market_data_timeout = request.result;
    market_data_scheduler_enabled = scheduler.result;
    warnings = log_level.1 ++ log_format.1 ++ groq_warnings lib provider.result groq_url.result;
  }

-- The lines of the .env file seed the environment first.
unfoldable pub load : Library → List Text → Env → Loaded
load lib lines env =
    let seeded = load_dot_env lines env in report (problems lib seeded) (config lib seeded)
