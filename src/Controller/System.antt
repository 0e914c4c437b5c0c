-- ===== src/Controller/System.antt =====
-- Reconciliations of the three controllers of internal/controller, in any order.
pub mod Fair
pub mod Laws
use nginx_operator.Base.{◌≡◌, refl, ◌∙◌, sym, subst, ◌⊎◌, inl, inr, String, [], ◌∷◌, All, All-map}
use nginx_operator.Api.Server.{NginxServer}
use nginx_operator.Api.Route.{NginxRoute}
use nginx_operator.Api.Upstream.{NginxUpstream}
use nginx_operator.Nginx.Objects.{ConfigMap}
use nginx_operator.Nginx.Labels.{managed_meta, config_map_name}
use nginx_operator.Controller.Cluster.{
  Cluster, Write, found, create_config_map, update_config_map, create_deployment, update_deployment,
  create_service, update_service, update_server, update_server_status, update_route,
  update_route_status, update_upstream, update_upstream_status,
}
use nginx_operator.Controller.Trace.{trace_invariant}
use nginx_operator.Controller.Trace.Server.{reconcile-Traces}
use nginx_operator.Controller.Trace.Route.{reconcile_route-Traces}
use nginx_operator.Controller.Trace.Upstream.{reconcile_upstream-Traces}
use nginx_operator.Controller.Server.Objects.Laws.{WritesEntries, WritesHash, WritesService}
use nginx_operator.Controller.Server.Objects.Desired.{KeepsKeys}
use nginx_operator.Controller.Server.Status.Laws.{WritesStatus}
use nginx_operator.Controller.Server.Reconcile.{reconcile}
use nginx_operator.Controller.Server.Reconcile.Laws.{
  IsReady, IsConfig, IsJustified, of_metadata, of_status, of_object, reconcile-IsJustified,
}
use nginx_operator.Controller.Server.Reconcile.Watched.{NamesConfigMaps}
use nginx_operator.Controller.Route.{reconcile as reconcile_route}
use nginx_operator.Controller.Route.Laws as RouteLaws
use nginx_operator.Controller.Upstream.Reconcile.{reconcile as reconcile_upstream}
use nginx_operator.Controller.Upstream.Reconcile.Laws as UpstreamLaws

-- A write of a ConfigMap with the entries and the key of the one that was found, and no other write.
abbrev pub Carries : ConfigMap → Write → Type 0
Carries kept (create_config_map cm) =
    (kept.entries ≡ cm.entries)
    × (kept.meta.namespace ≡ cm.meta.namespace)
    × (kept.meta.name ≡ cm.meta.name)
Carries kept (update_config_map cm) =
    (kept.entries ≡ cm.entries)
    × (kept.meta.namespace ≡ cm.meta.namespace)
    × (kept.meta.name ≡ cm.meta.name)
Carries kept _ = ⊥

module _ {W : Type 0} (cluster : Cluster W) where
  module _ (reloader_tag version : String) (start : W) where
    -- The states of the cluster that reconciliations reach, while others change anything but
    -- ConfigMaps.
    pub data Reaches : W → Type 0 where
      started : Reaches start
      by_server :
          (namespace name : String) {w : W}
          → Reaches w
          → Reaches (reconcile cluster reloader_tag version namespace name w).world
      by_route :
          (namespace name : String) {w : W}
          → Reaches w
          → Reaches (reconcile_route cluster namespace name w).world
      by_upstream :
          (namespace name : String) {w : W}
          → Reaches w
          → Reaches (reconcile_upstream cluster namespace name w).world
      by_others :
          {w v : W}
          → Reaches w
          → ((namespace name : String)
              → cluster.get_config_map namespace name v ≡ cluster.get_config_map namespace name w)
          → Reaches v

  -- The ConfigMaps change only as they are written: what a read finds after a write it found before,
  -- or the write carries it; and the clock changes none.
  pub record ChangesAsSent : Type 0 where
    pub written :
        (write : Write) (w : W) (namespace name : String) (kept : ConfigMap)
        → cluster.get_config_map namespace name (cluster.apply write w).0 ≡ found kept
        → (cluster.get_config_map namespace name w ≡ found kept) ⊎ Carries kept write
    pub timed :
        (w : W) (namespace name : String) (kept : ConfigMap)
        → cluster.get_config_map namespace name (cluster.clock w).0 ≡ found kept
        → cluster.get_config_map namespace name w ≡ found kept

  -- The ConfigMap is the main one of a server that may be served, and holds a configuration that is
  -- generated from it, with routes and upstreams that name it.
  pub record IsOurs (kept : ConfigMap) : Type 0 where
    pub server : NginxServer
    pub text : String
    pub entries : kept.entries ≡ ("nginx.conf", text) ∷ []
    pub namespace : kept.meta.namespace ≡ server.meta.namespace
    pub name : kept.meta.name ≡ config_map_name server
    pub ready : IsReady cluster server
    pub config : IsConfig cluster server text
