-- ===== src/Config/Data.antt =====
-- The data that internal/config/generator.go hands to the templates.
use nginx_operator.Base.{String, Bool, List, Option}
use nginx_operator.Base.Int.{ℤ}
use nginx_operator.Api.Server.{NginxTlsSpec, NginxMonitoringSpec}
use nginx_operator.Api.Route.{
  NginxRouteTlsSpec, NginxRateLimitSpec, NginxAccessControlSpec, NginxHeadersSpec, NginxCorsSpec,
  NginxStaticContentSpec, NginxReturnSpec, NginxProxySettingsSpec,
}
use nginx_operator.Api.Upstream.{NginxBackendSpec}

pub record MainConfigData : Type 0 where
  pub worker_processes : String
  pub worker_connections : ℤ
  pub error_log_level : String
  pub server_tokens : String
  pub keepalive_timeout : String
  pub keepalive_requests : ℤ
  pub client_max_body_size : String
  pub access_log_enabled : Bool
  pub access_log_format : String
  pub gzip_enabled : Bool
  pub gzip_types : String
  pub gzip_min_length : ℤ
  pub custom_main_snippet : String
  pub custom_http_snippet : String
  pub tls : Option NginxTlsSpec
  pub monitoring : Option NginxMonitoringSpec

pub record LocationData : Type 0 where
  pub path : String
  pub upstream_name : String
  pub proxy_pass : String
  pub static_content : Option NginxStaticContentSpec
  pub return : Option NginxReturnSpec
  pub proxy_settings : Option NginxProxySettingsSpec
  pub rate_limit : Option NginxRateLimitSpec
  pub headers : Option NginxHeadersSpec
  pub custom_location_snippet : String
  pub rate_limit_zone_name : String

pub record RouteConfigData : Type 0 where
  pub server_name : String
  pub listen_port : ℤ
  pub https_port : ℤ
  pub proxy_protocol : Bool
  pub tls : Option NginxRouteTlsSpec
  pub locations : List LocationData
  pub rate_limit : Option NginxRateLimitSpec
  pub access_control : Option NginxAccessControlSpec
  pub headers : Option NginxHeadersSpec
  pub cors : Option NginxCorsSpec
  pub custom_server_snippet : String
  pub rate_limit_zone_name : String

pub record UpstreamConfigData : Type 0 where
  pub name : String
  pub algorithm : String
  pub random_two_choices : Bool
  pub backends : List NginxBackendSpec
  pub keepalive : ℤ
  pub keepalive_timeout : String
  pub keepalive_requests : ℤ
  pub custom_snippet : String
