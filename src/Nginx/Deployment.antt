-- ===== src/Nginx/Deployment.antt =====
-- `BuildDeployment` of internal/nginx/manager.go.
pub mod Laws
pub mod Mounts
use nginx_operator.Base.{
  String, ◌<>◌, ◌==◌, Bool, true, false, List, [], ◌∷◌, ◌++◌, map, Option, none, some,
  if◌then◌else◌, is_cons,
}
use nginx_operator.Base.Int.{ℤ, pos, is_positive}
use nginx_operator.Base.Dict.{Dict, insert_all}
use nginx_operator.Api.Server.{NginxServer, NginxTlsSpec, NginxMonitoringSpec}
use nginx_operator.Nginx.Objects.{
  ContainerPort, VolumeMount, mount, given_mount, Volume, config_map_volume, given_volume, Probe,
  SecurityContext, run_as, given_context, Container, DeploymentSpec, Deployment,
}
use nginx_operator.Nginx.Labels.{
  deployment_name, config_map_name, conf_d_config_map_name, build_labels, selector_labels,
  managed_meta,
}

-- The names, paths and images.
abbrev pub config_volume_name : String
config_volume_name = "nginx-config"

abbrev pub conf_d_volume_name : String
conf_d_volume_name = "nginx-confd"

abbrev pub config_mount_path : String
config_mount_path = "/etc/nginx/nginx.conf"

abbrev pub conf_d_mount_path : String
conf_d_mount_path = "/etc/nginx/conf.d"

abbrev pub default_nginx_image : String
default_nginx_image = "nginx:1.27-alpine"

abbrev pub reloader_image : String
reloader_image = "ghcr.io/devops-click/nginx-operator-reloader"

abbrev pub nginx_container_name : String
nginx_container_name = "nginx"

abbrev pub reloader_container_name : String
reloader_container_name = "config-reloader"

-- `v != nil && v.Enabled`
abbrev pub tls_on : Option NginxTlsSpec → Bool
tls_on none = false
tls_on (some tls) = tls.enabled

abbrev pub tcp_port : String → ℤ → ContainerPort
tcp_port name port = record { name = name; container_port = port; protocol = "TCP" }

unfoldable pub metrics_ports : Option NginxMonitoringSpec → List ContainerPort
metrics_ports none = []
metrics_ports (some m) =
    if m.enabled
    then tcp_port "metrics" (if is_positive m.port then m.port else pos 9113) ∷ []
    else []

unfoldable pub build_container_ports : NginxServer → List ContainerPort
unfolding metrics_ports
build_container_ports server =
    tcp_port "http" (pos 80)
      ∷ (if tls_on server.spec.tls then tcp_port "https" (pos 443) ∷ [] else [])
    ++ metrics_ports server.spec.monitoring

-- The two mounts that both containers have.
abbrev pub config_mounts : List VolumeMount
config_mounts =
    mount config_volume_name config_mount_path "nginx.conf" true
    ∷ mount conf_d_volume_name conf_d_mount_path "" true
    ∷ []

abbrev pub health_probe : ℤ → ℤ → ℤ → Probe
health_probe delay period timeout = record {
  path = "/healthz";
  port = pos 8080;
  scheme = "HTTP";
  initial_delay_seconds = delay;
  period_seconds = period;
  timeout_seconds = timeout;
  failure_threshold = pos 3;
}

abbrev pub pull_policy : NginxServer → String
pull_policy server =
    if server.spec.image_pull_policy == "" then "IfNotPresent" else server.spec.image_pull_policy

unfoldable pub nginx_container : NginxServer → Container
nginx_container server = record {
  name = nginx_container_name;
  image = if server.spec.image == "" then default_nginx_image else server.spec.image;
  image_pull_policy = pull_policy server;
  args = [];
  ports = build_container_ports server;
  resources = server.spec.resources;
  volume_mounts = config_mounts ++ map given_mount server.spec.extra_volume_mounts;
  liveness_probe = some (health_probe (pos 10) (pos 10) (pos 5));
  readiness_probe = some (health_probe (pos 5) (pos 5) (pos 3));
  security_context = elim server.spec.container_security_context [
    | none ↦ none
    | some context ↦ some (given_context context)
  ];
  env = server.spec.extra_env_vars;
}

unfoldable pub reloader_container : NginxServer → String → Container
reloader_container server reloader_tag = record {
  name = reloader_container_name;
  image = reloader_image <> ":" <> reloader_tag;
  image_pull_policy = pull_policy server;
  args =
      "--watch-dir=/etc/nginx/conf.d" ∷ "--nginx-binary=/usr/sbin/nginx" ∷ "--reload-timeout=30s"
      ∷ [];
  ports = [];
  resources = server.spec.reloader_resources;
  volume_mounts = config_mounts;
  liveness_probe = none;
  readiness_probe = none;
  security_context = some (run_as (pos 0) (pos 0));
  env = [];
}

unfoldable pub build_volumes : NginxServer → List Volume
build_volumes server =
    config_map_volume config_volume_name (config_map_name server)
      (("nginx.conf", "nginx.conf") ∷ []) none
    ∷ config_map_volume conf_d_volume_name (conf_d_config_map_name server) [] (some true)
    ∷ map given_volume server.spec.extra_volumes

-- `podLabels`: the labels of the object, and those of the specification over them.
unfoldable pub pod_labels : NginxServer → Dict String
pod_labels server = insert_all server.spec.pod_labels (insert_all (build_labels server) [])

unfoldable pub build_deployment : NginxServer → String → Deployment
build_deployment server reloader_tag = record {
  meta = managed_meta server (deployment_name server);
  spec = record {
    replicas = elim server.spec.replicas [ none ↦ pos 1 | some n ↦ n ];
    match_labels = selector_labels server;
    strategy = "RollingUpdate";
    max_unavailable = pos 0;
    max_surge = pos 1;
    template_labels = pod_labels server;
    template_annotations = insert_all server.spec.pod_annotations [];
    pod = record {
      containers = nginx_container server ∷ reloader_container server reloader_tag ∷ [];
      volumes = build_volumes server;
      image_pull_secrets = server.spec.image_pull_secrets;
      node_selector = server.spec.node_selector;
      tolerations = server.spec.tolerations;
      affinity = server.spec.affinity;
      topology_spread_constraints = server.spec.topology_spread_constraints;
      security_context = server.spec.security_context;
      termination_grace_period_seconds = pos 30;
    };
  };
  status = record { replicas = pos 0; ready_replicas = pos 0; available_replicas = pos 0 };
}
