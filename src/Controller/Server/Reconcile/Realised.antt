-- ===== src/Controller/Server/Reconcile/Realised.antt =====
-- The state of the cluster that internal/controller/nginxserver_controller.go promises, and that a
-- reconciliation without an error brings it about.
use nginx_operator.Controller.Server.Reconcile.Frame.{
  IsApart, get-reconcile_deployment, get-reconcile_service, get-update_status,
}
use nginx_operator.Base.{
  ok, ◌≡◌, refl, ◌∙◌, subst, sym, String, ℕ, true, List, [], ◌∷◌, Option, none, some,
}
use nginx_operator.Api.Server.{NginxServer}
use nginx_operator.Api.Route.{NginxRoute}
use nginx_operator.Api.Upstream.{NginxUpstream}
use nginx_operator.Config.Generator.Full.{generate_full_config, hash}
use nginx_operator.Nginx.Objects.{DeploymentSpec}
use nginx_operator.Nginx.Labels.{config_map_name, deployment_name, service_name}
use nginx_operator.Nginx.Service.{build_service}
use nginx_operator.Controller.Run.{Run, return, ◌>>=◌}
use nginx_operator.Controller.Wiring.{Kind}
use nginx_operator.Controller.Cluster.{Cluster, Verdict, Write}
use nginx_operator.Controller.Verdicts.{unless_failed}
use nginx_operator.Controller.Server.Objects.{
  list_upstreams_for_server, list_routes_for_server, desired_deployment, effective_tag,
  reconcile_config_map, reconcile_deployment, reconcile_service,
}
use nginx_operator.Controller.Server.Objects.Kept.{Finds}
use nginx_operator.Controller.Server.Objects.Settled.{KeepsConfigMaps}
use nginx_operator.Controller.Server.Objects.Desired.{
  KeepsDeployments, IsDeployed, KeepsServices, IsExposed, KeepsKeys, reconcile_config_map-Finds,
  reconcile_deployment-Finds, reconcile_service-Finds,
}
use nginx_operator.Controller.Server.Status.{update_status}
use nginx_operator.Controller.Server.Reconcile.{apply_config}

module _ {W : Type 0} (cluster : Cluster W) where
  -- The cluster keeps what it is sent, completes the specifications of Deployments by `complete`,
  -- and nobody else writes the three objects meanwhile.
  pub record IsKeeping (complete : DeploymentSpec → DeploymentSpec) : Type 0 where
    pub keys : KeepsKeys cluster
    pub config_maps : KeepsConfigMaps cluster
    pub deployments : KeepsDeployments cluster complete
    pub services : KeepsServices cluster
    pub config_maps_apart : IsApart cluster Kind.config_map cluster.get_config_map
    pub deployments_apart : IsApart cluster Kind.deployment cluster.get_deployment
    pub services_apart : IsApart cluster Kind.service cluster.get_service

  -- What is promised: under the names of the server stand a ConfigMap with the configuration, a
  -- Deployment with the wanted specification, which has the hash of the configuration in it, and a
  -- Service with the wanted ports, type and selector.
  pub record IsRealised (complete : DeploymentSpec → DeploymentSpec) (tag : String)
      (server : NginxServer) (text : String) (w : W) : Type 0 where
    pub config_map :
        Finds
          (λ kept. cluster.equal_entries kept.entries (("nginx.conf", text) ∷ []) ≡ true)
          (cluster.get_config_map server.meta.namespace (config_map_name server) w)
    pub deployment :
        Finds
          (IsDeployed cluster complete
            (desired_deployment server tag (cluster.sha256_hex text)).spec)
          (cluster.get_deployment server.meta.namespace (deployment_name server) w)
    pub service :
        Finds
          (IsExposed cluster (build_service server))
          (cluster.get_service server.meta.namespace (service_name server) w)

  -- What holds at the end of the rest, if it ran, holds at the end of the whole.
  unless_failed_to :
      (P : W → Type 0) (prefix : String) (rest : Run W Write Verdict) (problem : Option String)
      (w : W)
      → (problem ≡ none → (rest w).value.error ≡ none → P (rest w).world)
      → (unless_failed prefix rest problem w).value.error ≡ none
      → P (unless_failed prefix rest problem w).world
  unfolding unless_failed return
  unless_failed_to P prefix rest none w at_end fine = at_end refl fine
  unless_failed_to P prefix rest (some problem) w at_end fine = cc

  module _ (tag : String) (server : NginxServer) (text : String) (routes upstreams : ℕ)
      (w : W) where
    -- The worlds between the steps.
    abbrev with_config_map : W
    with_config_map = (reconcile_config_map cluster server text w).world

    abbrev with_deployment : W
    with_deployment =
        (reconcile_deployment cluster tag server (cluster.sha256_hex text) with_config_map).world

    abbrev with_service : W
    with_service = (reconcile_service cluster server with_deployment).world

    -- If the three steps pass, their objects stand there when the status is written.
    realise :
        (complete : DeploymentSpec → DeploymentSpec)
        → IsKeeping complete
        → (reconcile_config_map cluster server text w).value ≡ none
        → (reconcile_deployment cluster tag server (cluster.sha256_hex text) with_config_map).value
          ≡ none
        → (reconcile_service cluster server with_deployment).value ≡ none
        → IsRealised complete tag server text
            (update_status cluster server
              (cluster.sha256_hex text)
              routes
              upstreams
              with_service).world
    realise complete laws p1 p2 p3 = record {
      config_map =
          subst (Finds _)
            (sym (
              get-update_status cluster Kind.config_map cluster.get_config_map
                laws.config_maps_apart _ _ with_service server _ routes upstreams (cc)
              ∙ get-reconcile_service cluster Kind.config_map cluster.get_config_map
                  laws.config_maps_apart _ _ with_deployment server (cc)
              ∙ get-reconcile_deployment cluster Kind.config_map cluster.get_config_map
                  laws.config_maps_apart _ _ with_config_map tag server _ (cc)))
            (reconcile_config_map-Finds cluster laws.keys laws.config_maps server text w p1);
      deployment =
          subst (Finds _)
            (sym (
              get-update_status cluster Kind.deployment cluster.get_deployment
                laws.deployments_apart _ _ with_service server _ routes upstreams (cc)
              ∙ get-reconcile_service cluster Kind.deployment cluster.get_deployment
                  laws.deployments_apart _ _ with_deployment server (cc)))
            (reconcile_deployment-Finds cluster laws.keys complete laws.deployments tag server _
              with_config_map p2);
      service =
          subst (Finds _)
            (sym (
              get-update_status cluster Kind.service cluster.get_service laws.services_apart _ _
                with_service server _ routes upstreams (cc)))
            (reconcile_service-Finds cluster laws.keys laws.services server with_deployment p3);
    }

  module _ (complete : DeploymentSpec → DeploymentSpec) where
    -- In a cluster that keeps what it is sent, applying a configuration without an error brings
    -- about what is promised for the server: the ConfigMap with the configuration, the wanted
    -- Deployment with its hash, and the wanted Service, all three at the end.
    pub apply_config-IsRealised :
        IsKeeping complete
        → (reloader_tag version : String) (server : NginxServer) (routes : List NginxRoute)
          (upstreams : List NginxUpstream) (text : String) (w : W)
        → (apply_config cluster reloader_tag version server routes upstreams text w).value.error
          ≡ none
        → IsRealised complete
            (effective_tag reloader_tag version)
            server
            text
            (apply_config cluster reloader_tag version server routes upstreams text w).world
    unfolding apply_config ◌>>=◌ hash
    apply_config-IsRealised laws reloader_tag version server routes upstreams text w fine =
        let P = IsRealised complete (effective_tag reloader_tag version) server text in
        unless_failed_to P _ _ _ _
          (λ p1 f1.
            unless_failed_to P _ _ _ _
              (λ p2 f2.
                unless_failed_to P _ _ _ _
                  (λ p3 f3. realise _ server text _ _ w complete laws p1 p2 p3) f2)
              f1)
          fine

  -- What step 6 is given and what it makes: the routes and the upstreams that name the server, and
  -- the configuration of the server with them.
  pub record IsGenerated (server : NginxServer) (text : String) (w : W) : Type 0 where
    pub routes : List NginxRoute
    pub upstreams : List NginxUpstream
    pub listed_routes : (list_routes_for_server cluster server w).value ≡ ok routes
    pub listed_upstreams : (list_upstreams_for_server cluster server w).value ≡ ok upstreams
    pub generated : generate_full_config server routes upstreams ≡ ok text
