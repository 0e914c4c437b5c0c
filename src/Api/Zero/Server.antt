-- ===== src/Api/Zero/Server.antt =====
-- The zero values of api/v1alpha1/nginxserver_types.go.
use nginx_operator.Base.{false, [], none}
use nginx_operator.Base.Int.{pos}
use nginx_operator.Api.Server.{
  NginxServicePort, NginxServiceSpec, NginxTlsSpec, NginxGlobalConfig, NginxMonitoringSpec,
  NginxAutoscalingSpec, NginxPdbSpec, NginxServerSpec, NginxServerStatus, NginxServer,
}
use nginx_operator.Api.Zero.Meta.{zero_object_meta}

abbrev pub zero_nginx_service_port : NginxServicePort
zero_nginx_service_port = record { name = ""; port = pos 0; target_port = pos 0; protocol = "" }

abbrev pub zero_nginx_service_spec : NginxServiceSpec
zero_nginx_service_spec = record {
  type = "";
  ports = [];
  annotations = [];
  load_balancer_ip = "";
  external_traffic_policy = "";
}

abbrev pub zero_nginx_tls_spec : NginxTlsSpec
zero_nginx_tls_spec = record {
  enabled = false;
  secret_name = "";
  protocols = [];
  ciphers = "";
  prefer_server_ciphers = false;
  session_cache = "";
  session_timeout = "";
}

abbrev pub zero_nginx_global_config : NginxGlobalConfig
zero_nginx_global_config = record {
  worker_processes = "";
  worker_connections = pos 0;
  keepalive_timeout = "";
  keepalive_requests = pos 0;
  client_max_body_size = "";
  server_tokens = false;
  error_log_level = "";
  access_log_format = "";
  access_log_enabled = false;
  gzip_enabled = false;
  gzip_types = [];
  gzip_min_length = pos 0;
  custom_main_snippet = "";
  custom_http_snippet = "";
}

abbrev pub zero_nginx_monitoring_spec : NginxMonitoringSpec
zero_nginx_monitoring_spec = record {
  enabled = false;
  port = pos 0;
  path = "";
  service_monitor = false;
}

abbrev pub zero_nginx_autoscaling_spec : NginxAutoscalingSpec
zero_nginx_autoscaling_spec = record {
  enabled = false;
  min_replicas = none;
  max_replicas = pos 0;
  target_cpu_utilization_percentage = none;
  target_memory_utilization_percentage = none;
}

abbrev pub zero_nginx_pdb_spec : NginxPdbSpec
zero_nginx_pdb_spec = record { enabled = false; min_available = none; max_unavailable = none }

abbrev pub zero_nginx_server_spec : NginxServerSpec
zero_nginx_server_spec = record {
  replicas = none;
  image = "";
  image_pull_policy = "";
  image_pull_secrets = [];
  resources = "";
  reloader_resources = "";
  service = none;
  tls = none;
  global_config = none;
  monitoring = none;
  autoscaling = none;
  pod_disruption_budget = none;
  node_selector = [];
  tolerations = [];
  affinity = none;
  topology_spread_constraints = [];
  extra_volumes = [];
  extra_volume_mounts = [];
  extra_env_vars = [];
  pod_annotations = [];
  pod_labels = [];
  security_context = none;
  container_security_context = none;
}

abbrev pub zero_nginx_server_status : NginxServerStatus
zero_nginx_server_status = record {
  conditions = [];
  ready_replicas = pos 0;
  available_replicas = pos 0;
  config_hash = "";
  last_reload_time = none;
  observed_generation = pos 0;
  route_count = pos 0;
  upstream_count = pos 0;
}

abbrev pub zero_nginx_server : NginxServer
zero_nginx_server = record {
  meta = zero_object_meta;
  spec = zero_nginx_server_spec;
  status = zero_nginx_server_status;
}
