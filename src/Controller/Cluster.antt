-- ===== src/Controller/Cluster.antt =====
-- What internal/controller uses of controller-runtime, of apimachinery and of the API server.
use nginx_operator.Base.{String, Bool, ℕ, Option, List, [], ◌∷◌, Result}
use nginx_operator.Base.Dict.{Dict}
use nginx_operator.Api.Meta.{ObjectMeta, Time}
use nginx_operator.Api.Server.{NginxServer}
use nginx_operator.Api.Route.{NginxRoute}
use nginx_operator.Api.Upstream.{NginxUpstream}
use nginx_operator.Nginx.Objects.{ConfigMap, Deployment, DeploymentSpec, Service, ServicePort}
use nginx_operator.Controller.Run.{Run}

-- `ctrl.Result`, and the error that `Reconcile` returns with it. Times are in seconds.
pub record Verdict : Type 0 where
  pub requeue : Bool
  pub requeue_after : ℕ
  pub error : Option String

-- The outcome of `Get`; `not_found` is an error of which `apierrors.IsNotFound` holds.
pub data Answer (A : Type 0) : Type 0 where
  found : A → Answer A
  not_found : (problem : String) → Answer A
  failed : (problem : String) → Answer A

-- `corev1.Endpoints`: the IP addresses of each subset.
pub record Endpoints : Type 0 where
  pub subsets : List (List String)

-- A write, with the object as it is sent.
pub data Write : Type 0 where
  update_server update_server_status : NginxServer → Write
  update_route update_route_status : NginxRoute → Write
  update_upstream update_upstream_status : NginxUpstream → Write
  create_config_map update_config_map : ConfigMap → Write
  create_deployment update_deployment : Deployment → Write
  create_service update_service : Service → Write

-- Reads take a namespace and a name. A write changes the world and may end in an error; whatever
-- else happens in the cluster is a part of the world too.
pub record Cluster (W : Type 0) : Type 0 where
  pub get_server : String → String → W → Answer NginxServer
  pub get_route : String → String → W → Answer NginxRoute
  pub get_upstream : String → String → W → Answer NginxUpstream
  pub get_endpoints : String → String → W → Answer Endpoints
  pub get_config_map : String → String → W → Answer ConfigMap
  pub get_deployment : String → String → W → Answer Deployment
  pub get_service : String → String → W → Answer Service
  pub list_routes : String → W → Result (List NginxRoute)
  pub list_upstreams : String → W → Result (List NginxUpstream)
  pub apply : Write → W → W × Option String
  pub clock : W → W × Time
  -- `Format(time.RFC3339Nano)`
  pub format_time : Time → String
  -- `controllerutil`
  pub contains_finalizer : ObjectMeta → String → Bool
  pub add_finalizer : ObjectMeta → String → ObjectMeta
  pub remove_finalizer : ObjectMeta → String → ObjectMeta
  pub set_controller_reference : NginxServer → ObjectMeta → Result ObjectMeta
  -- `equality.Semantic.DeepEqual`
  pub equal_entries : Dict String → Dict String → Bool
  pub equal_deployment_specs : DeploymentSpec → DeploymentSpec → Bool
  pub equal_ports : List ServicePort → List ServicePort → Bool
  -- `sha256.Sum256`, in hexadecimal digits
  pub sha256_hex : String → String

module _ {W : Type 0} (cluster : Cluster W) where
  -- One write, and its error.
  unfoldable pub send : Write → Run W Write (Option String)
  send write w =
      let (next, problem) = cluster.apply write w in
      record { world = next; calls = write ∷ []; value = problem }

  -- `metav1.Now()`
  unfoldable pub read_clock : Run W Write Time
  read_clock w =
      let (next, now) = cluster.clock w in record { world = next; calls = []; value = now }
