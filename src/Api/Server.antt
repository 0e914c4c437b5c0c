-- ===== src/Api/Server.antt =====
-- The types of api/v1alpha1/nginxserver_types.go, field by field; the list type of the API is `List`.
use nginx_operator.Base.{String, Bool, List, Option}
use nginx_operator.Base.Int.{ℤ}
use nginx_operator.Base.Dict.{Dict}
use nginx_operator.Api.Meta.{Opaque, Time, Condition, ObjectMeta}

pub record NginxServicePort : Type 0 where
  pub name : String
  pub port : ℤ
  pub target_port : ℤ
  pub protocol : String

pub record NginxServiceSpec : Type 0 where
  pub type : String
  pub ports : List NginxServicePort
  pub annotations : Dict String
  pub load_balancer_ip : String
  pub external_traffic_policy : String

pub record NginxTlsSpec : Type 0 where
  pub enabled : Bool
  pub secret_name : String
  pub protocols : List String
  pub ciphers : String
  pub prefer_server_ciphers : Bool
  pub session_cache : String
  pub session_timeout : String

pub record NginxGlobalConfig : Type 0 where
  pub worker_processes : String
  pub worker_connections : ℤ
  pub keepalive_timeout : String
  pub keepalive_requests : ℤ
  pub client_max_body_size : String
  pub server_tokens : Bool
  pub error_log_level : String
  pub access_log_format : String
  pub access_log_enabled : Bool
  pub gzip_enabled : Bool
  pub gzip_types : List String
  pub gzip_min_length : ℤ
  pub custom_main_snippet : String
  pub custom_http_snippet : String

pub record NginxMonitoringSpec : Type 0 where
  pub enabled : Bool
  pub port : ℤ
  pub path : String
  pub service_monitor : Bool

pub record NginxAutoscalingSpec : Type 0 where
  pub enabled : Bool
  pub min_replicas : Option ℤ
  pub max_replicas : ℤ
  pub target_cpu_utilization_percentage : Option ℤ
  pub target_memory_utilization_percentage : Option ℤ

pub record NginxPdbSpec : Type 0 where
  pub enabled : Bool
  pub min_available : Option ℤ
  pub max_unavailable : Option ℤ

pub record NginxServerSpec : Type 0 where
  pub replicas : Option ℤ
  pub image : String
  pub image_pull_policy : String
  pub image_pull_secrets : List Opaque
  pub resources : Opaque
  pub reloader_resources : Opaque
  pub service : Option NginxServiceSpec
  pub tls : Option NginxTlsSpec
  pub global_config : Option NginxGlobalConfig
  pub monitoring : Option NginxMonitoringSpec
  pub autoscaling : Option NginxAutoscalingSpec
  pub pod_disruption_budget : Option NginxPdbSpec
  pub node_selector : Dict String
  pub tolerations : List Opaque
  pub affinity : Option Opaque
  pub topology_spread_constraints : List Opaque
  pub extra_volumes : List Opaque
  pub extra_volume_mounts : List Opaque
  pub extra_env_vars : List Opaque
  pub pod_annotations : Dict String
  pub pod_labels : Dict String
  pub security_context : Option Opaque
  pub container_security_context : Option Opaque

pub record NginxServerStatus : Type 0 where
  pub conditions : List Condition
  pub ready_replicas : ℤ
  pub available_replicas : ℤ
  pub config_hash : String
  pub last_reload_time : Option Time
  pub observed_generation : ℤ
  pub route_count : ℤ
  pub upstream_count : ℤ

pub record NginxServer : Type 0 where
  pub meta : ObjectMeta
  pub spec : NginxServerSpec
  pub status : NginxServerStatus
