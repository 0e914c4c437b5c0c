-- ===== src/Controller/Server/Objects/Desired.antt =====
-- The objects that internal/controller/nginxserver_controller.go wants for a server, and what its
-- three functions leave of them in a cluster that keeps what is written.
use nginx_operator.Base.{◌≡◌, refl, ◌⊎◌, inl, inr, subst, String, true, [], ◌∷◌, Option, none, ok}
use nginx_operator.Api.Server.{NginxServer}
use nginx_operator.Nginx.Objects.{Deployment, DeploymentSpec, Service}
use nginx_operator.Nginx.Labels.{config_map_name, deployment_name, service_name}
use nginx_operator.Nginx.ConfigMaps.{build_config_map}
use nginx_operator.Nginx.Deployment.{build_deployment}
use nginx_operator.Nginx.Service.{build_service}
use nginx_operator.Controller.Run.{Run, ask, ◌>>=◌}
use nginx_operator.Controller.Cluster.{
  Answer, Cluster, Write, create_deployment, update_deployment, create_service, update_service,
}
use nginx_operator.Controller.Server.Objects.{
  owned, ObjectMeta, merge_deployment, merge_service, same_service, desired_deployment,
  write_deployment, write_service, reconcile_config_map, reconcile_deployment, reconcile_service,
}
use nginx_operator.Controller.Server.Objects.Kept.{
  Finds, Finds-at, Keeps, Keeps-Secures, create_or_update-Finds, owned_passed,
}
use nginx_operator.Controller.Server.Objects.Settled.{KeepsConfigMaps, write_config_map-IsStored}

module _ {W : Type 0} (cluster : Cluster W) where
  -- `complete` fills in what a specification leaves open, as the API server does.
  module _ (complete : DeploymentSpec → DeploymentSpec) where
    abbrev pub KeepsDeployments : Type 0
    KeepsDeployments =
        Keeps cluster cluster.get_deployment (λ d. d.meta) create_deployment update_deployment
          (λ kept d. kept.spec ≡ complete d.spec)

    -- The specification as the API server completes it, or one that the controller takes for equal.
    abbrev pub IsDeployed : DeploymentSpec → Deployment → Type 0
    IsDeployed spec kept =
        (kept.spec ≡ complete spec) ⊎ (cluster.equal_deployment_specs kept.spec spec ≡ true)

    write_deployment-IsDeployed :
        KeepsDeployments
        → (desired : Deployment) (w : W) → (write_deployment cluster desired w).value ≡ none
        → Finds (IsDeployed desired.spec) (
            cluster.get_deployment desired.meta.namespace desired.meta.name
              (write_deployment cluster desired w).world)
    unfolding write_deployment ◌>>=◌ ask merge_deployment
    write_deployment-IsDeployed laws desired w fine =
        create_or_update-Finds cluster _ _ _ _ _ _ _ w
          (Keeps-Secures cluster cluster.get_deployment (λ d. d.meta) create_deployment
            update_deployment (λ kept d. kept.spec ≡ complete d.spec) desired _
            (λ existing. merge_deployment existing desired) (IsDeployed desired.spec) laws
            (λ existing. (refl, refl)) (λ kept h. inl h) (λ existing kept h. inl h)
            (λ existing e. inr e))
          refl fine

  -- The three parts of a Service's specification that the controller sets.
  abbrev pub SameParts : Service → Service → Type 0
  SameParts kept s =
      (kept.spec.ports ≡ s.spec.ports)
      × (kept.spec.type ≡ s.spec.type)
      × (kept.spec.selector ≡ s.spec.selector)

  abbrev pub KeepsServices : Type 0
  KeepsServices =
      Keeps cluster cluster.get_service (λ s. s.meta) create_service update_service SameParts

  abbrev pub IsExposed : Service → Service → Type 0
  IsExposed desired kept = SameParts kept desired ⊎ (same_service cluster kept desired ≡ true)

  write_service-IsExposed :
      KeepsServices
      → (desired : Service) (w : W) → (write_service cluster desired w).value ≡ none
      → Finds (IsExposed desired) (
          cluster.get_service desired.meta.namespace desired.meta.name
            (write_service cluster desired w).world)
  unfolding write_service ◌>>=◌ ask merge_service
  write_service-IsExposed laws desired w fine =
      create_or_update-Finds cluster _ _ _ _ _ _ _ w
        (Keeps-Secures cluster cluster.get_service (λ s. s.meta) create_service update_service
          SameParts desired _ (λ existing. merge_service existing desired) (IsExposed desired) laws
          (λ existing. (refl, refl)) (λ kept h. inl h) (λ existing kept h. inl h)
          (λ existing e. inr e))
        refl fine

  -- `SetControllerReference` leaves the key of an object as it is.
  abbrev pub KeepsKeys : Type 0
  KeepsKeys =
      (server : NginxServer) (meta meta' : ObjectMeta)
      → cluster.set_controller_reference server meta ≡ ok meta'
      → (meta'.namespace ≡ meta.namespace) × (meta'.name ≡ meta.name)

  -- What the rest of a function leaves at the key that it is given, the whole leaves at the key of
  -- the object that was built.
  owned-Finds :
      {A : Type 0} (get : String → String → W → Answer A) (P : A → Type 0) (server : NginxServer)
      (kind : String) (meta : ObjectMeta) (continue : ObjectMeta → Run W Write (Option String))
      (w : W)
      → KeepsKeys
      → ((meta' : ObjectMeta)
          → (continue meta' w).value ≡ none
          → Finds P (get meta'.namespace meta'.name (continue meta' w).world))
      → (owned cluster server kind meta continue w).value ≡ none
      → Finds P (get meta.namespace meta.name (owned cluster server kind meta continue w).world)
  owned-Finds get P server kind meta continue w keys rest fine =
      let (meta', set, e) = owned_passed cluster server kind meta continue w fine in
      let (space, name) = keys server meta meta' set in
      rw e (Finds-at get P _ space name (rest meta' (subst (λ m. (m w).value ≡ none) e fine)))

  module _ (keys : KeepsKeys) where
    pub reconcile_config_map-Finds :
        KeepsConfigMaps cluster
        → (server : NginxServer) (text : String) (w : W)
        → (reconcile_config_map cluster server text w).value ≡ none
        → Finds
            (λ kept. cluster.equal_entries kept.entries (("nginx.conf", text) ∷ []) ≡ true)
            (cluster.get_config_map server.meta.namespace
              (config_map_name server)
              (reconcile_config_map cluster server text w).world)
    unfolding reconcile_config_map build_config_map
    reconcile_config_map-Finds laws server text w =
        owned-Finds cluster.get_config_map _ server _ _ _ w keys
          (λ meta. write_config_map-IsStored cluster laws _ w)

    pub reconcile_deployment-Finds :
        (complete : DeploymentSpec → DeploymentSpec)
        → KeepsDeployments complete
        → (tag : String) (server : NginxServer) (config_hash : String) (w : W)
        → (reconcile_deployment cluster tag server config_hash w).value ≡ none
        → Finds (IsDeployed complete (desired_deployment server tag config_hash).spec) (
            cluster.get_deployment server.meta.namespace
              (deployment_name server)
              (reconcile_deployment cluster tag server config_hash w).world)
    unfolding reconcile_deployment desired_deployment build_deployment
    reconcile_deployment-Finds complete laws tag server config_hash w =
        owned-Finds cluster.get_deployment _ server _ _ _ w keys
          (λ meta. write_deployment-IsDeployed complete laws _ w)

    pub reconcile_service-Finds :
        KeepsServices
        → (server : NginxServer) (w : W) → (reconcile_service cluster server w).value ≡ none
        → Finds (IsExposed (build_service server)) (
            cluster.get_service server.meta.namespace
              (service_name server)
              (reconcile_service cluster server w).world)
    unfolding reconcile_service build_service
    reconcile_service-Finds laws server w =
        owned-Finds cluster.get_service _ server _ _ _ w keys
          (λ meta. write_service-IsExposed laws _ w)
