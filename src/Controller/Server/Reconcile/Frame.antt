-- ===== src/Controller/Server/Reconcile/Frame.antt =====
-- Reads that the steps of internal/controller/nginxserver_controller.go leave as they are.
use nginx_operator.Base.{◌≡◌, ◌≢◌, String, ℕ}
use nginx_operator.Api.Server.{NginxServer}
use nginx_operator.Nginx.Objects.{Deployment, Service}
use nginx_operator.Controller.Run.Leaves.{Leaves, return-Leaves, ask-Leaves, bind-Leaves}
use nginx_operator.Controller.Wiring.{Kind}
use nginx_operator.Controller.Cluster.{
  Cluster, Write, update_server, update_server_status, update_route, update_route_status,
  update_upstream, update_upstream_status, create_config_map, update_config_map, create_deployment,
  update_deployment, create_service, update_service,
}
use nginx_operator.Controller.Server.Objects.{
  write_deployment, write_service, reconcile_deployment, reconcile_service,
}
use nginx_operator.Controller.Server.Objects.Kept.{
  send-Leaves, read_clock-Leaves, create_or_update-Leaves, owned-Leaves,
}
use nginx_operator.Controller.Server.Status.{update_status}

abbrev pub kind_of : Write → Kind
kind_of (update_server s) = Kind.server
kind_of (update_server_status s) = Kind.server
kind_of (update_route r) = Kind.route
kind_of (update_route_status r) = Kind.route
kind_of (update_upstream u) = Kind.upstream
kind_of (update_upstream_status u) = Kind.upstream
kind_of (create_config_map c) = Kind.config_map
kind_of (update_config_map c) = Kind.config_map
kind_of (create_deployment d) = Kind.deployment
kind_of (update_deployment d) = Kind.deployment
kind_of (create_service s) = Kind.service
kind_of (update_service s) = Kind.service

module _ {W : Type 0} (cluster : Cluster W) where
  -- Only a write of its kind, and not the time, changes what a read of objects finds.
  abbrev pub IsApart : {A : Type 0} → Kind → (String → String → W → A) → Type 0
  IsApart kind get =
      ((write : Write) (w : W) (namespace name : String)
        → kind_of write ≢ kind
        → get namespace name (cluster.apply write w).0 ≡ get namespace name w)
      × ((w : W) (namespace name : String)
          → get namespace name (cluster.clock w).0 ≡ get namespace name w)

  module _ {B : Type 0} (see : W → B) where
    reconcile_deployment-Leaves :
        (tag : String) (server : NginxServer) (config_hash : String)
        → ((d : Deployment) (w : W) → see (cluster.apply (create_deployment d) w).0 ≡ see w)
        → ((d : Deployment) (w : W) → see (cluster.apply (update_deployment d) w).0 ≡ see w)
        → Leaves see (reconcile_deployment cluster tag server config_hash)
    unfolding reconcile_deployment write_deployment
    reconcile_deployment-Leaves tag server config_hash h k =
        owned-Leaves cluster see server _ _ _ (λ meta.
          bind-Leaves see _ _ (ask-Leaves see _)
            (λ answer. create_or_update-Leaves cluster _ _ _ _ see answer (h _) (λ e. k _)))

    reconcile_service-Leaves :
        (server : NginxServer)
        → ((s : Service) (w : W) → see (cluster.apply (create_service s) w).0 ≡ see w)
        → ((s : Service) (w : W) → see (cluster.apply (update_service s) w).0 ≡ see w)
        → Leaves see (reconcile_service cluster server)
    unfolding reconcile_service write_service
    reconcile_service-Leaves server h k = owned-Leaves cluster see server _ _ _ (λ meta.
        bind-Leaves see _ _ (ask-Leaves see _)
          (λ answer. create_or_update-Leaves cluster _ _ _ _ see answer (h _) (λ e. k _)))

    update_status-Leaves :
        (server : NginxServer) (config_hash : String) (routes upstreams : ℕ)
        → ((s : NginxServer) (w : W) → see (cluster.apply (update_server_status s) w).0 ≡ see w)
        → ((w : W) → see (cluster.clock w).0 ≡ see w)
        → Leaves see (update_status cluster server config_hash routes upstreams)
    unfolding update_status
    update_status-Leaves server config_hash routes upstreams h k =
        bind-Leaves see _ _ (ask-Leaves see _) (λ answer.
          bind-Leaves see _ _ (read_clock-Leaves cluster see k) (λ now.
            bind-Leaves see _ _ (read_clock-Leaves cluster see k) (λ t1.
              bind-Leaves see _ _ (read_clock-Leaves cluster see k) (λ t2.
                bind-Leaves see _ _ (read_clock-Leaves cluster see k) (λ t3.
                  bind-Leaves see _ _ (send-Leaves cluster see _ (h _))
                    (λ problem. return-Leaves see _))))))

  module _ {A : Type 0} (kind : Kind) (get : String → String → W → A) (apart : IsApart kind get)
      (namespace name : String) (w : W) where
    pub get-reconcile_deployment :
        (tag : String) (server : NginxServer) (config_hash : String)
        → Kind.deployment ≢ kind
        → get namespace name (reconcile_deployment cluster tag server config_hash w).world
          ≡ get namespace name w
    get-reconcile_deployment tag server config_hash other =
        (reconcile_deployment-Leaves (get namespace name) tag server config_hash
            (λ d v. apart.0 (create_deployment d) v namespace name other)
            (λ d v. apart.0 (update_deployment d) v namespace name other)).kept
          w

    pub get-reconcile_service :
        (server : NginxServer)
        → Kind.service ≢ kind
        → get namespace name (reconcile_service cluster server w).world ≡ get namespace name w
    get-reconcile_service server other =
        (reconcile_service-Leaves (get namespace name) server
            (λ s v. apart.0 (create_service s) v namespace name other)
            (λ s v. apart.0 (update_service s) v namespace name other)).kept
          w

    pub get-update_status :
        (server : NginxServer) (config_hash : String) (routes upstreams : ℕ)
        → Kind.server ≢ kind
        → get namespace name (update_status cluster server config_hash routes upstreams w).world
          ≡ get namespace name w
    get-update_status server config_hash routes upstreams other =
        (update_status-Leaves (get namespace name) server config_hash routes upstreams
            (λ s v. apart.0 (update_server_status s) v namespace name other)
            (λ v. apart.1 v namespace name)).kept
          w
