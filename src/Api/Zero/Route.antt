-- ===== src/Api/Zero/Route.antt =====
-- The zero values of api/v1alpha1/nginxroute_types.go.
use nginx_operator.Base.{false, [], none}
use nginx_operator.Base.Int.{pos}
use nginx_operator.Api.Route.{
  NginxListenSpec, NginxRouteTlsSpec, NginxStaticContentSpec, NginxReturnSpec,
  NginxProxySettingsSpec, NginxRateLimitSpec, NginxHeadersSpec, NginxLocationSpec,
  NginxAccessControlSpec, NginxCorsSpec, NginxRouteSpec, NginxRouteStatus, NginxRoute,
}
use nginx_operator.Api.Zero.Meta.{zero_object_meta}

abbrev pub zero_nginx_listen_spec : NginxListenSpec
zero_nginx_listen_spec = record { port = pos 0; https_port = pos 0; proxy_protocol = false }

abbrev pub zero_nginx_route_tls_spec : NginxRouteTlsSpec
zero_nginx_route_tls_spec = record { enabled = false; secret_name = ""; redirect_http = false }

abbrev pub zero_nginx_static_content_spec : NginxStaticContentSpec
zero_nginx_static_content_spec = record { root = ""; index = []; try_files = ""; autoindex = false }

abbrev pub zero_nginx_return_spec : NginxReturnSpec
zero_nginx_return_spec = record { code = pos 0; body = "" }

abbrev pub zero_nginx_proxy_settings_spec : NginxProxySettingsSpec
zero_nginx_proxy_settings_spec = record {
  connect_timeout = "";
  send_timeout = "";
  read_timeout = "";
  buffer_size = "";
  buffers = "";
  set_headers = [];
  web_socket = false;
  next_upstream = "";
  next_upstream_tries = pos 0;
}

abbrev pub zero_nginx_rate_limit_spec : NginxRateLimitSpec
zero_nginx_rate_limit_spec = record {
  enabled = false;
  zone = "";
  rate = "";
  burst = pos 0;
  no_delay = false;
  key = "";
}

abbrev pub zero_nginx_headers_spec : NginxHeadersSpec
zero_nginx_headers_spec = record { add = []; remove = []; security_headers = false }

abbrev pub zero_nginx_location_spec : NginxLocationSpec
zero_nginx_location_spec = record {
  path = "";
  upstream_ref = "";
  proxy_pass = "";
  static_content = none;
  return = none;
  proxy_settings = none;
  rate_limit = none;
  headers = none;
  custom_location_snippet = "";
}

abbrev pub zero_nginx_access_control_spec : NginxAccessControlSpec
zero_nginx_access_control_spec = record { allow = []; deny = [] }

abbrev pub zero_nginx_cors_spec : NginxCorsSpec
zero_nginx_cors_spec = record {
  enabled = false;
  allow_origins = [];
  allow_methods = [];
  allow_headers = [];
  expose_headers = [];
  max_age = pos 0;
  allow_credentials = false;
}

abbrev pub zero_nginx_route_spec : NginxRouteSpec
zero_nginx_route_spec = record {
  server_ref = "";
  server_name = "";
  listen = none;
  tls = none;
  locations = [];
  rate_limit = none;
  access_control = none;
  headers = none;
  cors = none;
  custom_server_snippet = "";
  priority = pos 0;
}

abbrev pub zero_nginx_route_status : NginxRouteStatus
zero_nginx_route_status = record {
  conditions = [];
  config_hash = "";
  last_applied_time = none;
  observed_generation = pos 0;
}

abbrev pub zero_nginx_route : NginxRoute
zero_nginx_route = record {
  meta = zero_object_meta;
  spec = zero_nginx_route_spec;
  status = zero_nginx_route_status;
}
