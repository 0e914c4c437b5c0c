-- ===== src/Nginx/Objects.antt =====
-- The Kubernetes objects that internal/nginx/manager.go builds, with the fields that it sets.
use nginx_operator.Base.{String, Bool, List, Option}
use nginx_operator.Base.Int.{ℤ}
use nginx_operator.Base.Dict.{Dict}
use nginx_operator.Api.Meta.{ObjectMeta, Opaque}

pub record ContainerPort : Type 0 where
  pub name : String
  pub container_port : ℤ
  pub protocol : String

-- A mount that the program builds, or one that the specification gives.
pub data VolumeMount : Type 0 where
  mount : (name mount_path sub_path : String) (read_only : Bool) → VolumeMount
  given_mount : Opaque → VolumeMount

-- A volume over a ConfigMap, or one that the specification gives.
pub data Volume : Type 0 where
  config_map_volume :
      (name config_map : String) (items : List (String × String)) (optional : Option Bool) → Volume
  given_volume : Opaque → Volume

-- A probe by HTTP GET.
pub record Probe : Type 0 where
  pub path : String
  pub port : ℤ
  pub scheme : String
  pub initial_delay_seconds : ℤ
  pub period_seconds : ℤ
  pub timeout_seconds : ℤ
  pub failure_threshold : ℤ

pub data SecurityContext : Type 0 where
  run_as : (user group : ℤ) → SecurityContext
  given_context : Opaque → SecurityContext

pub record Container : Type 0 where
  pub name : String
  pub image : String
  pub image_pull_policy : String
  pub args : List String
  pub ports : List ContainerPort
  pub resources : Opaque
  pub volume_mounts : List VolumeMount
  pub liveness_probe : Option Probe
  pub readiness_probe : Option Probe
  pub security_context : Option SecurityContext
  pub env : List Opaque

pub record PodSpec : Type 0 where
  pub containers : List Container
  pub volumes : List Volume
  pub image_pull_secrets : List Opaque
  pub node_selector : Dict String
  pub tolerations : List Opaque
  pub affinity : Option Opaque
  pub topology_spread_constraints : List Opaque
  pub security_context : Option Opaque
  pub termination_grace_period_seconds : ℤ

pub record DeploymentSpec : Type 0 where
  pub replicas : ℤ
  pub match_labels : Dict String
  pub strategy : String
  pub max_unavailable : ℤ
  pub max_surge : ℤ
  pub template_labels : Dict String
  pub template_annotations : Dict String
  pub pod : PodSpec

pub record DeploymentStatus : Type 0 where
  pub replicas : ℤ
  pub ready_replicas : ℤ
  pub available_replicas : ℤ

pub record Deployment : Type 0 where
  pub meta : ObjectMeta
  pub spec : DeploymentSpec
  pub status : DeploymentStatus

pub record ServicePort : Type 0 where
  pub name : String
  pub port : ℤ
  pub target_port : ℤ
  pub protocol : String

pub record ServiceSpec : Type 0 where
  pub type : String
  pub selector : Dict String
  pub ports : List ServicePort
  pub load_balancer_ip : String
  pub external_traffic_policy : String

pub record Service : Type 0 where
  pub meta : ObjectMeta
  pub spec : ServiceSpec

pub record ConfigMap : Type 0 where
  pub meta : ObjectMeta
  pub entries : Dict String
