-- ===== src/Config/Defaults.antt =====
-- The structs of parser/configs and their default values (cache_config.go, parses_config.go,
-- parsers_manager_config.go, health_check_config.go). Durations and sizes are numbers of nanoseconds
-- and of items, none of them negative.
use job_parser.Base.{ℕ, ◌*◌, String, Bool, true, Option, some}
use job_parser.Breaker.{CircuitBreakerConfig}

-- `time.Second`
abbrev pub second : ℕ
second = 1_000_000_000

pub record SearchCacheConfig : Type 0 where
  pub search_cache_ttl : ℕ
  pub search_cache_clean_up : ℕ

pub record VacancyCacheConfig : Type 0 where
  pub vacancy_cache_ttl : ℕ
  pub vacancy_cache_clean_up : ℕ

pub record VacancyDetailsCacheConfig : Type 0 where
  pub vac_det_cache_ttl : ℕ
  pub vac_det_cache_clean_up : ℕ

pub record CachesConfig : Type 0 where
  pub num_of_shards : ℕ
  pub search_cache_config : SearchCacheConfig
  pub vacancy_cache_config : VacancyCacheConfig
  pub vacancy_details_cache_config : VacancyDetailsCacheConfig
  pub max_memory_usage_mb : ℕ

unfoldable pub default_cache_config : CachesConfig
default_cache_config = record {
  num_of_shards = 7;
  search_cache_config = record {
    search_cache_ttl = 60 * second;
    search_cache_clean_up = 30 * second;
  };
  vacancy_cache_config = record {
    vacancy_cache_ttl = 60 * second;
    vacancy_cache_clean_up = 30 * second;
  };
  vacancy_details_cache_config = record {
    vac_det_cache_ttl = 60 * second;
    vac_det_cache_clean_up = 30 * second;
  };
  max_memory_usage_mb = 0;
}

pub record ParserInstanceConfig : Type 0 where
  pub enabled : Bool
  pub base_url : String
  pub health_end_point : String
  pub api_key : String
  pub timeout : ℕ
  pub rate_limit : ℕ
  pub max_concurrent : ℕ
  pub circuit_breaker : CircuitBreakerConfig
  pub max_idle_conns : ℕ
  pub idle_conn_timeout : ℕ
  pub tls_handshake_timeout : ℕ
  pub response_header_timeout : ℕ
  pub expect_continue_timeout : ℕ

-- A `*ParserInstanceConfig` that is nil is `none`.
pub record ParsersConfig : Type 0 where
  pub hh : Option ParserInstanceConfig
  pub super_job : Option ParserInstanceConfig

abbrev usual_breaker : CircuitBreakerConfig
usual_breaker = record {
  failure_threshold = 5;
  success_threshold = 3;
  half_open_max_requests = 2;
  reset_timeout = 10 * second;
  window_duration = 10 * second;
}

-- The two literals of DefaultParsersConfig, which differ in the URL.
abbrev pub default_site : String → ParserInstanceConfig
default_site url = record {
  enabled = true;
  base_url = url;
  health_end_point = "";
  api_key = "";
  timeout = 30 * second;
  rate_limit = 2 * second;
  max_concurrent = 10;
  circuit_breaker = usual_breaker;
  max_idle_conns = 5;
  idle_conn_timeout = 90 * second;
  tls_handshake_timeout = 10 * second;
  response_header_timeout = 5 * second;
  expect_continue_timeout = 1 * second;
}

unfoldable pub default_parsers_config : ParsersConfig
default_parsers_config = record {
  hh = some (default_site "https://api.hh.ru/vacancies");
  super_job = some (default_site "https://api.superjob.ru/2.0/vacancies/");
}

pub record ParserManagerConfig : Type 0 where
  pub max_concurrent_parsers : ℕ
  pub circuit_breaker_cfg : CircuitBreakerConfig
  pub health_check_interval : ℕ

unfoldable pub default_parsers_manager_config : ParserManagerConfig
default_parsers_manager_config = record {
  max_concurrent_parsers = 0;
  circuit_breaker_cfg = usual_breaker;
  health_check_interval = 0;
}

pub record HealthCheckClientConfig : Type 0 where
  pub time_out : ℕ
  pub max_idle_conns : ℕ
  pub idle_conn_timeout : ℕ
  pub tls_handshake_timeout : ℕ
  pub expect_continue_timeout : ℕ
  pub max_conn_per_host : ℕ

pub record HealthCheckConfig : Type 0 where
  pub request_time_out : ℕ
  pub initialization_timeout : ℕ
  pub health_check_interval : ℕ
  pub health_check_client_config : HealthCheckClientConfig

unfoldable pub default_health_check_config : HealthCheckConfig
default_health_check_config = record {
  request_time_out = 5 * second;
  initialization_timeout = 10 * second;
  health_check_interval = 15 * second;
  health_check_client_config = record {
    time_out = 5 * second;
    max_idle_conns = 10;
    idle_conn_timeout = 30 * second;
    tls_handshake_timeout = 3 * second;
    expect_continue_timeout = second;
    max_conn_per_host = 2;
  };
}
