-- ===== src/Sites/Settings.antt =====
-- What a site's parser is made of: BaseConfig and createHTTPClient of
-- parser/internal/parser/base_parser.go.
use job_parser.Base.{ℕ, String}
use job_parser.Base.Http.{HttpClient}
use job_parser.Breaker.{CircuitBreakerConfig}

pub record BaseConfig : Type 0 where
  pub name : String
  pub base_url : String
  pub health_end_point : String
  pub api_key : String
  pub timeout : ℕ
  pub rate_limit : ℕ
  pub max_concurrent : ℕ
  pub circuit_breaker_cfg : CircuitBreakerConfig
  pub max_idle_conns : ℕ
  pub idle_conn_timeout : ℕ
  pub tls_handshake_timeout : ℕ
  pub response_header_timeout : ℕ
  pub expect_continue_timeout : ℕ

unfoldable pub create_http_client : BaseConfig → HttpClient
create_http_client config = record {
  timeout = config.timeout;
  max_conns_per_host = config.max_concurrent;
  max_idle_conns_per_host = config.max_idle_conns;
  idle_conn_timeout = config.idle_conn_timeout;
  tls_handshake_timeout = config.tls_handshake_timeout;
  response_header_timeout = config.response_header_timeout;
  expect_continue_timeout = config.expect_continue_timeout;
}
