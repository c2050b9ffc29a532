-- ===== src/Config/Validity.antt =====
-- internal/platform/config/config.go: what a configuration that Load returns satisfies.
use yield_forge.Base.{true, false, List, [], ◌∷◌, ◌++◌, ◌≡◌, ◌≢◌, subst, All}
use yield_forge.Base.Int.{pos, ◌≤ℤ◌, ◌<ℤ◌}
use yield_forge.Base.Text.{Text, codes}
use yield_forge.Config.{
  Config, Library, is_below_zero, is_above_one, one_of, valid_otel_exporter_kinds,
  valid_insighter_providers, valid_market_data_providers, valid_log_levels,
}
use yield_forge.Config.Env.{Env, load_dot_env}
use yield_forge.Config.Blocks.{is_http_url, loaded, concat}
use yield_forge.Config.Load.{
  load, config, problems, setting_problems, source_problems, duration_problems, sign_problems,
}
use yield_forge.Config.Checks.{
  append-[], positive-[], report-loaded, concat-[], load_port-[], load_log_level-valid,
  load_log_format-valid, load_database_url-[], load_sample_ratio-[], load_exporter_kind-[],
  load_insighter_provider-[], load_groq_key-[], load_base_url-[], load_cache_size-[],
  load_market_data_provider-[], load_pool_size-[],
}
use yield_forge.Config.Load.{app_env, endpoint, provider, generation, cache_ttl, refresh, request}

pub record IsValid (lib : Library) (c : Config) : Type 0 where
  pub port : (pos 1 ≤ℤ c.port) × (c.port ≤ℤ pos 65535)
  pub log_level : one_of valid_log_levels c.log_level ≡ true
  pub log_format : one_of (codes "json" ∷ codes "text" ∷ []) c.log_format ≡ true
  pub database_url : c.database_url ≢ []
  pub exporter_kind : one_of valid_otel_exporter_kinds c.otel_exporter_kind ≡ true
  pub sample_ratio :
      (is_below_zero c.otel_trace_sample_ratio ≡ false)
      × (is_above_one c.otel_trace_sample_ratio ≡ false)
  pub provider : one_of valid_insighter_providers c.insighter_provider ≡ true
  pub groq_key : c.insighter_provider ≡ codes "groq" → c.insighter_groq_api_key ≢ []
  pub ollama_url : is_http_url (lib.parse_url c.insighter_ollama_base_url) ≡ true
  pub groq_url : is_http_url (lib.parse_url c.insighter_groq_base_url) ≡ true
  pub cache_size : pos 1 ≤ℤ c.insighter_cache_size
  pub market_provider : one_of valid_market_data_providers c.market_data_provider ≡ true
  pub fundamentus_url : is_http_url (lib.parse_url c.market_data_fundamentus_base_url) ≡ true
  pub yahoo_url : is_http_url (lib.parse_url c.market_data_yahoo_base_url) ≡ true
  pub bcb_url : is_http_url (lib.parse_url c.market_data_bcb_base_url) ≡ true
  pub pools : (pos 0 ≤ℤ c.db_max_open_conns) × (pos 0 ≤ℤ c.db_max_idle_conns)
  pub insighter_times : (pos 0 <ℤ c.insighter_timeout) × (pos 0 <ℤ c.insighter_cache_ttl)
  pub market_times : (pos 0 <ℤ c.market_data_refresh_interval) × (pos 0 <ℤ c.market_data_timeout)

module _ (lib : Library) (env : Env) where
  -- No block appended a problem.
  record IsClean : Type 0 where
    settings : All (λ ps. ps ≡ []) (setting_problems lib env)
    sources : All (λ ps. ps ≡ []) (source_problems lib env)
    durations : All (λ ps. ps ≡ []) (duration_problems lib env)
    signs : All (λ ps. ps ≡ []) (sign_problems lib env)

  problems-IsClean : problems lib env ≡ [] → IsClean
  unfolding problems
  problems-IsClean h =
      let first =
        append-[] (concat (setting_problems lib env))
          (concat (source_problems lib env)
            ++ (concat (duration_problems lib env) ++ concat (sign_problems lib env)))
          h in
      let second =
        append-[] (concat (source_problems lib env))
          (concat (duration_problems lib env) ++ concat (sign_problems lib env)) first.1 in
      let third =
        append-[] (concat (duration_problems lib env)) (concat (sign_problems lib env)) second.1 in
      record {
        settings = concat-[] (setting_problems lib env) first.0;
        sources = concat-[] (source_problems lib env) second.0;
        durations = concat-[] (duration_problems lib env) third.0;
        signs = concat-[] (sign_problems lib env) third.1;
      }

  config-IsValid : IsClean → IsValid lib (config lib env)
  unfolding config
  config-IsValid c = record {
    port = load_port-[] lib env c.settings.0;
    log_level = load_log_level-valid lib env;
    log_format = load_log_format-valid lib env (app_env lib env);
    database_url = load_database_url-[] lib env c.settings.1.0;
    exporter_kind = load_exporter_kind-[] lib env (endpoint lib env) c.settings.1.1.0;
    sample_ratio = load_sample_ratio-[] lib env c.settings.1.1.1.0;
    provider = load_insighter_provider-[] lib env (c.settings.1.1.1.1.0);
    groq_key = load_groq_key-[] lib env (provider lib env).result c.settings.1.1.1.1.1.0;
    ollama_url =
        load_base_url-[] lib env (codes "INSIGHTER_OLLAMA_BASE_URL")
          (codes "http://localhost:11434") c.settings.1.1.1.1.1.1.0;
    groq_url =
        load_base_url-[] lib env (codes "INSIGHTER_GROQ_BASE_URL")
          (codes "https://api.groq.com/openai/v1") c.settings.1.1.1.1.1.1.1.0;
    cache_size = load_cache_size-[] lib env c.settings.1.1.1.1.1.1.1.1.0;
    market_provider = load_market_data_provider-[] lib env c.sources.0;
    fundamentus_url =
        load_base_url-[] lib env (codes "MARKETDATA_FUNDAMENTUS_BASE_URL")
          (codes "https://www.fundamentus.com.br") c.sources.1.0;
    yahoo_url =
        load_base_url-[] lib env (codes "MARKETDATA_YAHOO_BASE_URL")
          (codes "https://query1.finance.yahoo.com") c.sources.1.1.0;
    bcb_url =
        load_base_url-[] lib env (codes "MARKETDATA_BCB_BASE_URL")
          (codes "https://api.bcb.gov.br/dados/serie") c.sources.1.1.1.0;
    pools = (
      load_pool_size-[] lib env (codes "DB_MAX_OPEN_CONNS") (pos 10) c.sources.1.1.1.1.1.0,
      load_pool_size-[] lib env (codes "DB_MAX_IDLE_CONNS") (pos 5) c.sources.1.1.1.1.1.1.0,
    );
    insighter_times = (
      positive-[] (codes "INSIGHTER_TIMEOUT") (generation lib env).result c.signs.0,
      positive-[] (codes "INSIGHTER_CACHE_TTL") (cache_ttl lib env).result c.signs.1.0,
    );
    market_times = (
      positive-[] (codes "MARKETDATA_REFRESH_INTERVAL") (refresh lib env).result c.signs.1.1.0,
      positive-[] (codes "MARKETDATA_TIMEOUT") (request lib env).result c.signs.1.1.1.0,
    );
  }

-- A configuration that Load returns has a port from 1 to 65535, a known log level and format, a
-- database URL, a known exporter and known providers, a Groq key where the provider is Groq, http or
-- https base URLs that name a host, a cache of at least one entry, pools that are not negative, and
-- four lifetimes and timeouts that are positive; its sample ratio is not below zero and not above one.
pub load-IsValid :
    (lib : Library) (lines : List Text) (env : Env) (cfg : Config)
    → load lib lines env ≡ loaded cfg
    → IsValid lib cfg
unfolding load
load-IsValid lib lines env cfg h =
    let seeded = load_dot_env lines env in
    let done = report-loaded (problems lib seeded) (config lib seeded) cfg h in
    subst (λ c. IsValid lib c) done.1
      (config-IsValid lib seeded (problems-IsClean lib seeded done.0))
