-- ===== src/Base/Http.antt =====
-- `http.Client` with its transport, as far as the program sets them. A setting that is left out is 0,
-- which net/http takes as "no limit" or its default.
use Prim.Native.Nat.{ℕ}

pub record HttpClient : Type 0 where
  pub timeout : ℕ
  pub max_conns_per_host : ℕ
  pub max_idle_conns_per_host : ℕ
  pub idle_conn_timeout : ℕ
  pub tls_handshake_timeout : ℕ
  pub response_header_timeout : ℕ
  pub expect_continue_timeout : ℕ
