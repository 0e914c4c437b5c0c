-- ===== src/Api/Upstream.antt =====
-- The types of api/v1alpha1/nginxupstream_types.go, field by field; the list type of the API is `List`.
use nginx_operator.Base.{String, Bool, List, Option}
use nginx_operator.Base.Int.{ℤ}
use nginx_operator.Api.Meta.{Time, Condition, ObjectMeta}

pub record NginxBackendSpec : Type 0 where
  pub address : String
  pub port : ℤ
  pub weight : ℤ
  pub max_connections : ℤ
  pub max_fails : ℤ
  pub fail_timeout : String
  pub backup : Bool
  pub down : Bool

pub record NginxLoadBalancingSpec : Type 0 where
  pub algorithm : String
  pub random_two_choices : Bool

pub record NginxHealthCheckSpec : Type 0 where
  pub enabled : Bool
  pub path : String
  pub interval : String
  pub timeout : String
  pub healthy_threshold : ℤ
  pub unhealthy_threshold : ℤ
  pub expected_status : ℤ

pub record NginxServiceDiscoverySpec : Type 0 where
  pub enabled : Bool
  pub service_name : String
  pub service_port : ℤ
  pub namespace : String

pub record NginxUpstreamSpec : Type 0 where
  pub server_ref : String
  pub backends : List NginxBackendSpec
  pub load_balancing : Option NginxLoadBalancingSpec
  pub health_check : Option NginxHealthCheckSpec
  pub keepalive : ℤ
  pub keepalive_timeout : String
  pub keepalive_requests : ℤ
  pub service_discovery : Option NginxServiceDiscoverySpec
  pub custom_upstream_snippet : String

pub record NginxUpstreamStatus : Type 0 where
  pub conditions : List Condition
  pub active_backends : ℤ
  pub total_backends : ℤ
  pub config_hash : String
  pub last_applied_time : Option Time
  pub observed_generation : ℤ
  pub discovered_endpoints : List String

pub record NginxUpstream : Type 0 where
  pub meta : ObjectMeta
  pub spec : NginxUpstreamSpec
  pub status : NginxUpstreamStatus
