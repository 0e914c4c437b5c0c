-- ===== src/Config/Generator/Main/Laws.antt =====
-- The data of the main template have an argument for every directive.
use nginx_operator.Base.{
  none, some, some, Option, inl, Bool, ◌⊎◌, false, inr, ◌≡◌, refl, ◌≢◌, String, ◌==◌, eq_iff, true,
  arith, if◌then◌else◌,
}
use nginx_operator.Base.Int.{ℤ, is_positive}
use nginx_operator.Api.Server.{NginxServer, NginxGlobalConfig}
use nginx_operator.Config.Data.{MainConfigData}
use nginx_operator.Config.Generator.Main.{
  given_text, given_number, main_defaults, override_main, apply_global, main_config_data,
}

pub record IsComplete (d : MainConfigData) : Type 0 where
  pub worker_processes : d.worker_processes ≢ ""
  pub error_log_level : d.error_log_level ≢ ""
  pub keepalive_timeout : d.keepalive_timeout ≢ ""
  pub client_max_body_size : d.client_max_body_size ≢ ""
  pub server_tokens : (d.server_tokens ≡ "on") ⊎ (d.server_tokens ≡ "off")
  pub worker_connections : is_positive d.worker_connections ≡ true
  pub keepalive_requests : is_positive d.keepalive_requests ≡ true
  pub gzip_min_length : is_positive d.gzip_min_length ≡ true

given_text-ne : (v field : String) → field ≢ "" → given_text v field ≢ ""
given_text-ne v field h = ground (arith, eq_iff v "")

given_number-positive :
    (v field : ℤ) → is_positive field ≡ true → is_positive (given_number v field) ≡ true
given_number-positive v field h = ground arith

literal : (s : String) → (s == "") ≡ false → s ≢ ""
literal s h = ground (arith, eq_iff s "")

main_defaults-IsComplete : (server : NginxServer) → IsComplete (main_defaults server)
unfolding main_defaults
main_defaults-IsComplete server = record {
  worker_processes = literal _ refl;
  error_log_level = literal _ refl;
  keepalive_timeout = literal _ refl;
  client_max_body_size = literal _ refl;
  server_tokens = inr refl;
  worker_connections = refl;
  keepalive_requests = refl;
  gzip_min_length = refl;
}

tokens :
    (shown : Bool) (field : String)
    → (field ≡ "on") ⊎ (field ≡ "off")
    → ((if shown then "on" else field) ≡ "on") ⊎ ((if shown then "on" else field) ≡ "off")
tokens true field h = inl refl
tokens false field h = h

override_main-IsComplete :
    (gc : NginxGlobalConfig) (d : MainConfigData) → IsComplete d → IsComplete (override_main gc d)
unfolding override_main
override_main-IsComplete gc d c = record {
  worker_processes = given_text-ne gc.worker_processes d.worker_processes c.worker_processes;
  error_log_level = given_text-ne gc.error_log_level d.error_log_level c.error_log_level;
  keepalive_timeout = given_text-ne gc.keepalive_timeout d.keepalive_timeout c.keepalive_timeout;
  client_max_body_size =
      given_text-ne gc.client_max_body_size d.client_max_body_size c.client_max_body_size;
  server_tokens = tokens gc.server_tokens d.server_tokens c.server_tokens;
  worker_connections =
      given_number-positive gc.worker_connections d.worker_connections c.worker_connections;
  keepalive_requests =
      given_number-positive gc.keepalive_requests d.keepalive_requests c.keepalive_requests;
  gzip_min_length = given_number-positive gc.gzip_min_length d.gzip_min_length c.gzip_min_length;
}

apply_global-IsComplete :
    (o : Option NginxGlobalConfig) (d : MainConfigData)
    → IsComplete d
    → IsComplete (apply_global o d)
unfolding apply_global
apply_global-IsComplete none d c = c
apply_global-IsComplete (some gc) d c = override_main-IsComplete gc d c

-- Whatever the specification sets, the worker, log, keepalive and body size directives get an
-- argument that is not empty, `server_tokens` gets `on` or `off`, and the connection, request and
-- gzip length limits are positive.
pub main_config_data-IsComplete : (server : NginxServer) → IsComplete (main_config_data server)
unfolding main_config_data
main_config_data-IsComplete server =
    apply_global-IsComplete server.spec.global_config (main_defaults server)
      (main_defaults-IsComplete server)
