-- ===== src/Controller/System/Laws.antt =====
-- Which ConfigMaps stand in the cluster after reconciliations of internal/controller.
use nginx_operator.Controller.System.{ChangesAsSent, IsOurs}
use nginx_operator.Base.{◌≡◌, ◌⊎◌, String}
use nginx_operator.Nginx.Objects.{ConfigMap}
use nginx_operator.Controller.Cluster.{Cluster, found}
use nginx_operator.Controller.Server.Objects.Desired.{KeepsKeys}
use nginx_operator.Controller.Server.Reconcile.Watched.{NamesConfigMaps}
use nginx_operator.Controller.Route.Laws as RouteLaws
use nginx_operator.Controller.Upstream.Reconcile.Laws as UpstreamLaws

module _ {W : Type 0} (cluster : Cluster W) (keys : KeepsKeys cluster)
    (names : NamesConfigMaps cluster) (laws : ChangesAsSent cluster) (reloader_tag version : String)
    (start : W) where
  -- What a read finds, it found at the start, or it is such a ConfigMap.
  abbrev Holds : W → Type 0
  Holds w =
      (namespace name : String) (kept : ConfigMap)
      → cluster.get_config_map namespace name w ≡ found kept
      → (cluster.get_config_map namespace name start ≡ found kept) ⊎ IsOurs cluster kept
