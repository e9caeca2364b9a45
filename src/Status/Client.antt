-- ===== src/Status/Client.antt =====
-- The client of the health checks: NewHttpHealthCheckClient of
-- parser/internal/parsers_status_manager/health_check_client.go.
use job_parser.Base.{ℕ, Option, none, some}
use job_parser.Base.Http.{HttpClient}
use job_parser.Config.Defaults.{HealthCheckConfig, default_health_check_config}

pub record HttpHealthCheckClient : Type 0 where
  pub client : HttpClient
  pub timeout : ℕ

client_of : HealthCheckConfig → HttpHealthCheckClient
client_of conf =
    let c = conf.health_check_client_config in
    record {
      client = record {
        timeout = c.time_out;
        max_conns_per_host = c.max_conn_per_host;
        max_idle_conns_per_host = c.max_idle_conns;
        idle_conn_timeout = c.idle_conn_timeout;
        tls_handshake_timeout = c.tls_handshake_timeout;
        response_header_timeout = 0;
        expect_continue_timeout = c.expect_continue_timeout;
      };
      timeout = conf.request_time_out;
    }

unfoldable pub new_http_health_check_client : Option HealthCheckConfig → HttpHealthCheckClient
unfolding client_of default_health_check_config
new_http_health_check_client none = client_of default_health_check_config
new_http_health_check_client (some conf) = client_of conf
