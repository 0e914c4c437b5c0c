-- ===== src/Controller/Server/Reconcile/Rest.antt =====
-- What a reconciliation of internal/controller/nginxserver_controller.go still has to do where the
-- objects of the server stand.
use nginx_operator.Controller.Wiring.{Kind}
use nginx_operator.Controller.Server.Reconcile.Frame.{get-reconcile_deployment}
use nginx_operator.Controller.Cluster.{Verdict}
use nginx_operator.Base.{
  ◌∙◌, ap, ◌++◌, some, false, sym, subst, ◌≡◌, refl, inl, inr, String, eq_refl, true, List, [], ◌∷◌,
  Option, none, ok, length,
}
use nginx_operator.Base.Dict.{Dict}
use nginx_operator.Api.Meta.{ObjectMeta}
use nginx_operator.Api.Server.{NginxServer}
use nginx_operator.Api.Route.{NginxRoute}
use nginx_operator.Api.Upstream.{NginxUpstream}
use nginx_operator.Config.Generator.Full.{hash}
use nginx_operator.Nginx.Objects.{Deployment, DeploymentSpec, Service, ServicePort}
use nginx_operator.Nginx.Labels.{config_map_name, deployment_name, service_name}
use nginx_operator.Nginx.ConfigMaps.{build_config_map}
use nginx_operator.Nginx.Deployment.{build_deployment}
use nginx_operator.Nginx.Service.{build_service}
use nginx_operator.Controller.Run.{Run, return, ask, ◌>>=◌}
use nginx_operator.Controller.Cluster.{update_deployment, Write, Cluster, Answer}
use nginx_operator.Controller.Verdicts.{unless_failed}
use nginx_operator.Controller.Server.Objects.{
  merge_deployment, desired_deployment, effective_tag, same_service, write_config_map,
  write_deployment, write_service, owned, reconcile_config_map, reconcile_deployment,
  reconcile_service,
}
use nginx_operator.Controller.Server.Objects.Kept.{
  create_or_update_writes, Finds, Finds-map, create_or_update_quiet,
}
use nginx_operator.Controller.Server.Objects.Desired.{IsExposed, KeepsKeys}
use nginx_operator.Controller.Server.Status.{update_status}
use nginx_operator.Controller.Server.Reconcile.{apply_config}
use nginx_operator.Controller.Server.Reconcile.Realised.{IsKeeping, IsRealised}

module _ {W : Type 0} (cluster : Cluster W) where
  -- The server can own any object.
  abbrev pub CanOwn : NginxServer → Type 0
  CanOwn server =
      (meta : ObjectMeta)
      → (meta' : ObjectMeta) × (cluster.set_controller_reference server meta ≡ ok meta')

  -- What is true of the rest at an owned key is true of the whole.
  owned_runs :
      {A : Type 0} (get : String → String → W → Answer A) (P : A → Type 0)
      (Q : Run W Write (Option String) → Type 0) (server : NginxServer) (kind : String)
      (meta : ObjectMeta) (continue : ObjectMeta → Run W Write (Option String)) (w : W)
      → KeepsKeys cluster
      → CanOwn server
      → Finds P (get meta.namespace meta.name w)
      → ((meta' : ObjectMeta) → Finds P (get meta'.namespace meta'.name w) → Q (continue meta'))
      → Q (owned cluster server kind meta continue)
  unfolding owned
  owned_runs get P Q server kind meta continue w keys own there rest =
      let (meta', e) = own meta in
      let (space, name) = keys server meta meta' e in
      rw e (
        rest meta' (
          subst (λ s. Finds P (get s meta'.name w)) (sym space)
            (subst (λ n. Finds P (get meta.namespace n w)) (sym name) there)))

  module _ (keys : KeepsKeys cluster) (server : NginxServer) (own : CanOwn server) (w : W) where
    reconcile_config_map_quiet :
        (text : String)
        → Finds
            (λ kept. cluster.equal_entries kept.entries (("nginx.conf", text) ∷ []) ≡ true)
            (cluster.get_config_map server.meta.namespace (config_map_name server) w)
        → reconcile_config_map cluster server text w ≡ return none w
    unfolding reconcile_config_map build_config_map write_config_map ◌>>=◌ ask return
    reconcile_config_map_quiet text there =
        owned_runs cluster.get_config_map _ (λ m. m w ≡ return none w) server _ _ _ w keys own there
          (λ meta there'. create_or_update_quiet cluster _ _ _ _ _ w there')

    -- A Deployment that the comparison tells from the wanted one is sent once more.
    pub reconcile_deployment_writes :
        (tag config_hash : String)
        → Finds
            (λ kept.
              cluster.equal_deployment_specs kept.spec
                (desired_deployment server tag config_hash).spec
              ≡ false)
            (cluster.get_deployment server.meta.namespace (deployment_name server) w)
        → (d : Deployment) × ((reconcile_deployment cluster tag server config_hash w).calls
            ≡ update_deployment d ∷ [])
          × (d.spec ≡ (desired_deployment server tag config_hash).spec)
    unfolding reconcile_deployment desired_deployment build_deployment write_deployment
        merge_deployment ◌>>=◌ ask return
    reconcile_deployment_writes tag config_hash there =
        owned_runs cluster.get_deployment _
          (λ m.
            (d : Deployment) × ((m w).calls ≡ update_deployment d ∷ [])
            × (d.spec ≡ (desired_deployment server tag config_hash).spec))
          server _ _ _ w keys own there
          (λ meta there'.
            let (existing, e) = create_or_update_writes cluster _ _ _ _ _ w there' in (_, e, refl))

    reconcile_service_quiet :
        Finds
          (λ kept. same_service cluster kept (build_service server) ≡ true)
          (cluster.get_service server.meta.namespace (service_name server) w)
        → reconcile_service cluster server w ≡ return none w
    unfolding reconcile_service build_service write_service ◌>>=◌ ask return
    reconcile_service_quiet there =
        owned_runs cluster.get_service _ (λ m. m w ≡ return none w) server _ _ _ w keys own there
          (λ meta there'. create_or_update_quiet cluster _ _ _ _ _ w there')

  -- The comparison takes a value for equal to itself.
  pub record IsReflexive : Type 0 where
    pub ports : (ps : List ServicePort) → cluster.equal_ports ps ps ≡ true
    pub entries : (m : Dict String) → cluster.equal_entries m m ≡ true

  IsExposed-same_service :
      (desired kept : Service)
      → IsReflexive
      → IsExposed cluster desired kept
      → same_service cluster kept desired ≡ true
  IsExposed-same_service desired kept same (inl (p, t, s)) =
      rw
        (
          p,
          t,
          s,
          same.ports desired.spec.ports,
          same.entries desired.spec.selector,
          eq_refl desired.spec.type,
        )
        refl
  IsExposed-same_service desired kept same (inr e) = e

  quiet_then :
      {A B : Type 0} (m : Run W Write A) (f : A → Run W Write B) (w : W) {a : A}
      → m w ≡ return a w
      → (m >>= f) w ≡ f a w
  unfolding ◌>>=◌ return
  quiet_then m f w e = rw e refl

  pub bind_first :
      {A B : Type 0} (m : Run W Write A) (f : A → Run W Write B) (w : W) (write : Write)
      → (m w).calls ≡ write ∷ []
      → (more : List Write) × (((m >>= f) w).calls ≡ write ∷ more)
  unfolding ◌>>=◌
  bind_first m f w write e =
      let second = f (m w).value (m w).world in
      (second.calls, ap (λ calls. calls ++ second.calls) e)

  bind_same :
      {A B : Type 0} (m : Run W Write A) (f g : A → Run W Write B) (w : W)
      → f (m w).value (m w).world ≡ g (m w).value (m w).world
      → (m >>= f) w ≡ (m >>= g) w
  unfolding ◌>>=◌
  bind_same m f g w e =
      ap
        (λ second. record {
          world = second.world;
          calls = (m w).calls ++ second.calls;
          value = second.value;
        })
        e

  unless_failed_same :
      (prefix : String) (m n : Run W Write Verdict) (problem : Option String) (w : W)
      → m w ≡ n w
      → unless_failed prefix m problem w ≡ unless_failed prefix n problem w
  unfolding unless_failed
  unless_failed_same prefix m n none w e = e
  unless_failed_same prefix m n (some problem) w e = refl

  module _ (complete : DeploymentSpec → DeploymentSpec) (laws : IsKeeping cluster complete)
      (same : IsReflexive) (reloader_tag version : String) (server : NginxServer)
      (own : CanOwn server) (routes : List NginxRoute) (upstreams : List NginxUpstream)
      (text : String) (w : W) where
    -- The Service is left as it is, also after the Deployment was reconciled.
    service_then :
        (tag : String)
        → IsRealised cluster complete tag server text w
        → let w' = (reconcile_deployment cluster tag server (cluster.sha256_hex text) w).world in
          (reconcile_service cluster server
              >>= unless_failed "failed to reconcile Service" (
                  update_status cluster server
                    (cluster.sha256_hex text)
                    (length routes)
                    (length upstreams)))
            w'
          ≡ update_status cluster server
              (cluster.sha256_hex text)
              (length routes)
              (length upstreams)
              w'
    unfolding ◌>>=◌ unless_failed return
    service_then tag there =
        let w' = (reconcile_deployment cluster tag server (cluster.sha256_hex text) w).world in
        let stays =
          get-reconcile_deployment cluster Kind.service cluster.get_service laws.services_apart
            server.meta.namespace (service_name server) w tag server (cluster.sha256_hex text)
            (cc) in
        let kept : Finds (IsExposed cluster (build_service server))
            (cluster.get_service server.meta.namespace (service_name server) w') =
          subst (Finds (IsExposed cluster (build_service server))) (sym stays) there.service in
        rw
          (reconcile_service_quiet laws.keys server own w'
            (Finds-map _ (λ k. IsExposed-same_service (build_service server) k same) kept))
          refl

    -- Where the three objects stand, only the Deployment and the status are left to do.
    pub apply_config_rest :
        IsRealised cluster complete (effective_tag reloader_tag version) server text w
        → apply_config cluster reloader_tag version server routes upstreams text w
          ≡ (reconcile_deployment cluster
                  (effective_tag reloader_tag version)
                  server
                  (cluster.sha256_hex text)
                >>= unless_failed "failed to reconcile Deployment" (
                    update_status cluster server
                      (cluster.sha256_hex text)
                      (length routes)
                      (length upstreams)))
              w
    unfolding apply_config hash unless_failed
    apply_config_rest there =
        let tag = effective_tag reloader_tag version in
        let config_hash = cluster.sha256_hex text in
        let status = update_status cluster server config_hash (length routes) (length upstreams) in
        let ran = reconcile_deployment cluster tag server config_hash w in
        quiet_then _ _ w (reconcile_config_map_quiet laws.keys server own w text there.config_map)
        ∙ bind_same _ _ _ w (
            unless_failed_same "failed to reconcile Deployment"
              (reconcile_service cluster server
                >>= unless_failed "failed to reconcile Service" status)
              status ran.value ran.world (service_then tag there))
