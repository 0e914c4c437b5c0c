-- ===== src/Api/Zero/Upstream.antt =====
-- The zero values of api/v1alpha1/nginxupstream_types.go.
use nginx_operator.Base.{false, [], none}
use nginx_operator.Base.Int.{pos}
use nginx_operator.Api.Upstream.{
  NginxBackendSpec, NginxLoadBalancingSpec, NginxHealthCheckSpec, NginxServiceDiscoverySpec,
  NginxUpstreamSpec, NginxUpstreamStatus, NginxUpstream,
}
use nginx_operator.Api.Zero.Meta.{zero_object_meta}

abbrev pub zero_nginx_backend_spec : NginxBackendSpec
zero_nginx_backend_spec = record {
  address = "";
  port = pos 0;
  weight = pos 0;
  max_connections = pos 0;
  max_fails = pos 0;
  fail_timeout = "";
  backup = false;
  down = false;
}

abbrev pub zero_nginx_load_balancing_spec : NginxLoadBalancingSpec
zero_nginx_load_balancing_spec = record { algorithm = ""; random_two_choices = false }

abbrev pub zero_nginx_health_check_spec : NginxHealthCheckSpec
zero_nginx_health_check_spec = record {
  enabled = false;
  path = "";
  interval = "";
  timeout = "";
  healthy_threshold = pos 0;
  unhealthy_threshold = pos 0;
  expected_status = pos 0;
}

abbrev pub zero_nginx_service_discovery_spec : NginxServiceDiscoverySpec
zero_nginx_service_discovery_spec = record {
  enabled = false;
  service_name = "";
  service_port = pos 0;
  namespace = "";
}

abbrev pub zero_nginx_upstream_spec : NginxUpstreamSpec
zero_nginx_upstream_spec = record {
  server_ref = "";
  backends = [];
  load_balancing = none;
  health_check = none;
  keepalive = pos 0;
  keepalive_timeout = "";
  keepalive_requests = pos 0;
  service_discovery = none;
  custom_upstream_snippet = "";
}

abbrev pub zero_nginx_upstream_status : NginxUpstreamStatus
zero_nginx_upstream_status = record {
  conditions = [];
  active_backends = pos 0;
  total_backends = pos 0;
  config_hash = "";
  last_applied_time = none;
  observed_generation = pos 0;
  discovered_endpoints = [];
}

abbrev pub zero_nginx_upstream : NginxUpstream
zero_nginx_upstream = record {
  meta = zero_object_meta;
  spec = zero_nginx_upstream_spec;
  status = zero_nginx_upstream_status;
}
