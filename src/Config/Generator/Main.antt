-- ===== src/Config/Generator/Main.antt =====
-- `GenerateMainConfig` of internal/config/generator.go.
pub mod Laws
use nginx_operator.Base.{
  String, ◌==◌, Bool, true, false, Option, none, some, Result, ok, if◌then◌else◌, is_cons,
}
use nginx_operator.Base.Int.{ℤ, pos, is_positive}
use nginx_operator.Base.Text.{join}
use nginx_operator.Api.Server.{NginxServer, NginxGlobalConfig}
use nginx_operator.Config.Data.{MainConfigData}
use nginx_operator.Config.Templates.Main.{main_config_template}

-- The composite literal with the defaults.
unfoldable pub main_defaults : NginxServer → MainConfigData
main_defaults server = record {
  worker_processes = "auto";
  worker_connections = pos 1024;
  error_log_level = "warn";
  server_tokens = "off";
  keepalive_timeout = "65s";
  keepalive_requests = pos 100;
  client_max_body_size = "1m";
  access_log_enabled = true;
  access_log_format = "";
  gzip_enabled = true;
  gzip_types =
      "text/plain text/css application/json application/javascript text/xml application/xml image/svg+xml";
  gzip_min_length = pos 256;
  custom_main_snippet = "";
  custom_http_snippet = "";
  tls = server.spec.tls;
  monitoring = server.spec.monitoring;
}

-- `if v != "" { field = v }` and `if v > 0 { field = v }`
abbrev pub given_text : String → String → String
given_text v field = if v == "" then field else v

abbrev pub given_number : ℤ → ℤ → ℤ
given_number v field = if is_positive v then v else field

-- The block under `if gc != nil`.
unfoldable pub override_main : NginxGlobalConfig → MainConfigData → MainConfigData
override_main gc d = record d {
  worker_processes = given_text gc.worker_processes d.worker_processes;
  worker_connections = given_number gc.worker_connections d.worker_connections;
  error_log_level = given_text gc.error_log_level d.error_log_level;
  keepalive_timeout = given_text gc.keepalive_timeout d.keepalive_timeout;
  keepalive_requests = given_number gc.keepalive_requests d.keepalive_requests;
  client_max_body_size = given_text gc.client_max_body_size d.client_max_body_size;
  server_tokens = if gc.server_tokens then "on" else d.server_tokens;
  access_log_enabled = gc.access_log_enabled;
  access_log_format = given_text gc.access_log_format d.access_log_format;
  gzip_enabled = gc.gzip_enabled;
  gzip_types = if is_cons gc.gzip_types then join " " gc.gzip_types else d.gzip_types;
  gzip_min_length = given_number gc.gzip_min_length d.gzip_min_length;
  custom_main_snippet = gc.custom_main_snippet;
  custom_http_snippet = gc.custom_http_snippet;
}

unfoldable pub apply_global : Option NginxGlobalConfig → MainConfigData → MainConfigData
unfolding override_main
apply_global none d = d
apply_global (some gc) d = override_main gc d

unfoldable pub main_config_data : NginxServer → MainConfigData
main_config_data server = apply_global server.spec.global_config (main_defaults server)

unfoldable pub generate_main_config : NginxServer → Result String
generate_main_config server = ok (main_config_template (main_config_data server))
