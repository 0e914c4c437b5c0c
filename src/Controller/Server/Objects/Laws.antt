-- ===== src/Controller/Server/Objects/Laws.antt =====
-- Which objects internal/controller/nginxserver_controller.go writes.
use nginx_operator.Nginx.Labels.{managed_meta, config_map_name, deployment_name}
use nginx_operator.Nginx.Deployment.{build_deployment}
use nginx_operator.Base.{
  ◌∙◌, inr, inl, ◌≡◌, refl, String, Bool, [], ◌∷◌, Option, some, ok, Bool-cases, Result-cases,
}
use nginx_operator.Base.Dict.{lookup, lookup-insert}
use nginx_operator.Api.Meta.{ObjectMeta, annotation_config_hash}
use nginx_operator.Api.Server.{NginxServer}
use nginx_operator.Nginx.Objects.{Service}
use nginx_operator.Nginx.ConfigMaps.{build_config_map}
use nginx_operator.Nginx.Labels.{selector_labels}
use nginx_operator.Nginx.Service.{build_service}
use nginx_operator.Nginx.Service.Laws.{IsServable, build_service-IsServable}
use nginx_operator.Controller.Run.{ask, Run, Sends, return-Sends, ask-Sends, bind-Sends}
use nginx_operator.Controller.Cluster.{
  Cluster, Answer, found, not_found, failed, Write, create_config_map, update_config_map,
  create_deployment, update_deployment, create_service, update_service, send,
}
use nginx_operator.Controller.Server.Objects.{
  merge_config_map, merge_deployment, merge_service, desired_deployment, create_or_update,
  write_config_map, write_deployment, write_service, owned, reconcile_config_map,
  reconcile_deployment, reconcile_service,
}

abbrev pub Whatever {ℓ} : {A : Type ℓ} → A → Type 0
Whatever a = Unit

module _ {W : Type 0} (cluster : Cluster W) where
  pub send-Sends :
      {P : Write → Type 0} (write : Write) → P write → Sends P Whatever (send cluster write)
  unfolding send
  send-Sends write p = record { sent = λ w. (p, tt); ended = λ w. tt }

  create_or_update-Sends :
      {A : Type 0} {P : Write → Type 0} (kind : String) (answer : Answer A) (create : Write)
      (same : A → Bool) (update : A → Write)
      → P create
      → ((existing : A) → answer ≡ found existing → P (update existing))
      → Sends P Whatever (create_or_update cluster kind answer create same update)
  unfolding create_or_update
  create_or_update-Sends kind (failed problem) create same update p q = return-Sends _ tt
  create_or_update-Sends kind (not_found problem) create same update p q = send-Sends create p
  create_or_update-Sends kind (found existing) create same update p q =
      elim (Bool-cases (same existing)) [
        | inl equal ↦ rw equal (return-Sends _ tt)
        | inr differs ↦ rw differs (send-Sends (update existing) (q existing refl))
      ]

  owned-Sends :
      {P : Write → Type 0} (server : NginxServer) (kind : String) (meta : ObjectMeta)
      (continue : ObjectMeta → Run W Write (Option String))
      → ((meta' : ObjectMeta)
          → cluster.set_controller_reference server meta ≡ ok meta'
          → Sends P Whatever (continue meta'))
      → Sends P Whatever (owned cluster server kind meta continue)
  unfolding owned
  owned-Sends server kind meta continue q =
      elim (Result-cases (cluster.set_controller_reference server meta)) [
        | inl (meta', fine) ↦ rw (fine, owned) (q meta' fine)
        | inr (problem, bad) ↦ rw (bad, owned) (return-Sends _ tt)
      ]

  -- An object that is created has the metadata of the built one with the owner reference.
  abbrev pub IsOwned : NginxServer → ObjectMeta → ObjectMeta → Type 0
  IsOwned server built meta = cluster.set_controller_reference server built ≡ ok meta

  -- An object that is updated has the key of one that was read under the key of the built object.
  abbrev pub IsReread :
      {A : Type 0}
      → (String → String → W → Answer A)
      → (A → ObjectMeta)
      → NginxServer
      → ObjectMeta
      → ObjectMeta
      → Type 0
  IsReread {A} get meta_of server built meta =
      (owned_meta : ObjectMeta) × IsOwned server built owned_meta
      × ((existing : A) × (w : W) × (get owned_meta.namespace owned_meta.name w ≡ found existing)
          × (meta.namespace ≡ (meta_of existing).namespace)
          × (meta.name ≡ (meta_of existing).name))

  -- What a read answers in some world.
  abbrev IsAnswer : {A : Type 0} → (W → Answer A) → Answer A → Type 0
  IsAnswer get answer = (w : W) × (get w ≡ answer)

  ask-IsAnswer :
      {A : Type 0} {P : Write → Type 0} (get : W → Answer A) → Sends P (IsAnswer get) (ask get)
  ask-IsAnswer get = ask-Sends get (λ w. (w, refl))

  -- A write of the server's ConfigMap with the entries, and no other write.
  abbrev pub WritesEntries : NginxServer → String → Write → Type 0
  WritesEntries server text (create_config_map cm) =
      (cm.entries ≡ ("nginx.conf", text) ∷ [])
      × IsOwned server (managed_meta server (config_map_name server)) cm.meta
  WritesEntries server text (update_config_map cm) =
      (cm.entries ≡ ("nginx.conf", text) ∷ [])
      × IsReread cluster.get_config_map (λ kept. kept.meta) server
          (managed_meta server (config_map_name server)) cm.meta
  WritesEntries server text _ = ⊥

  pub reconcile_config_map-Sends :
      (server : NginxServer) (text : String)
      → Sends (WritesEntries server text) Whatever (reconcile_config_map cluster server text)
  unfolding reconcile_config_map write_config_map build_config_map merge_config_map
  reconcile_config_map-Sends server text = owned-Sends server "ConfigMap" _ _ (λ meta set.
      bind-Sends _ _ (ask-IsAnswer _) (λ answer (w, read).
        create_or_update-Sends "ConfigMap" answer _ _ _ (refl, set)
          (λ existing e. (refl, (meta, set, (existing, w, read ∙ e, refl, refl))))))

  -- A write of the server's Deployment whose pods carry the hash.
  abbrev pub WritesHash : NginxServer → String → Write → Type 0
  WritesHash server config_hash (create_deployment d) =
      (lookup annotation_config_hash d.spec.template_annotations ≡ some config_hash)
      × IsOwned server (managed_meta server (deployment_name server)) d.meta
  WritesHash server config_hash (update_deployment d) =
      (lookup annotation_config_hash d.spec.template_annotations ≡ some config_hash)
      × IsReread cluster.get_deployment (λ kept. kept.meta) server
          (managed_meta server (deployment_name server)) d.meta
  WritesHash server config_hash _ = ⊥

  desired_deployment-hash :
      (server : NginxServer) (tag config_hash : String)
      → lookup annotation_config_hash
          (desired_deployment server tag config_hash).spec.template_annotations
        ≡ some config_hash
  unfolding desired_deployment
  desired_deployment-hash server tag config_hash =
      rw (lookup-insert annotation_config_hash annotation_config_hash)

  pub reconcile_deployment-Sends :
      (tag : String) (server : NginxServer) (config_hash : String)
      → Sends
          (WritesHash server config_hash)
          Whatever
          (reconcile_deployment cluster tag server config_hash)
  unfolding reconcile_deployment write_deployment merge_deployment desired_deployment
      build_deployment
  reconcile_deployment-Sends tag server config_hash =
      let hashed = desired_deployment-hash server tag config_hash in
      owned-Sends server "Deployment" _ _ (λ meta set.
        bind-Sends _ _ (ask-IsAnswer _) (λ answer (w, read).
          create_or_update-Sends "Deployment" answer _ _ _ (hashed, set)
            (λ existing e. (hashed, (meta, set, (existing, w, read ∙ e, refl, refl))))))

  -- A Service with the server's selecting labels and with ports that can be served.
  abbrev pub Serves : NginxServer → Service → Type 0
  Serves server s = (s.spec.selector ≡ selector_labels server) × IsServable s.spec.ports

  abbrev pub WritesService : NginxServer → Write → Type 0
  WritesService server (create_service s) =
      Serves server s × IsOwned server (build_service server).meta s.meta
  WritesService server (update_service s) =
      Serves server s
      × IsReread cluster.get_service (λ kept. kept.meta) server (build_service server).meta s.meta
  WritesService server _ = ⊥

  build_service-Serves : (server : NginxServer) → Serves server (build_service server)
  unfolding build_service
  build_service-Serves server = (refl, build_service-IsServable server)

  pub reconcile_service-Sends :
      (server : NginxServer)
      → Sends (WritesService server) Whatever (reconcile_service cluster server)
  unfolding reconcile_service write_service merge_service
  reconcile_service-Sends server = owned-Sends server "Service" _ _ (λ meta set.
      bind-Sends _ _ (ask-IsAnswer _) (λ answer (w, read).
        create_or_update-Sends "Service" answer _ _ _ (build_service-Serves server, set)
          (λ existing e.
            (build_service-Serves server, (meta, set, (existing, w, read ∙ e, refl, refl))))))
