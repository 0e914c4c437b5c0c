-- ===== src/Controller/Server/Objects.antt =====
-- The owned objects of internal/controller/nginxserver_controller.go.
pub mod Laws
pub mod Listed
pub mod Settled
pub mod Kept
pub mod Desired
use nginx_operator.Base.{
  String, ◌<>◌, ◌==◌, Bool, true, false, not, ◌||◌, List, [], ◌∷◌, Option, none, some, Result, ok,
  err, if◌then◌else◌, select,
}
use nginx_operator.Base.Dict.{insert}
use nginx_operator.Api.Meta.{ObjectMeta, annotation_config_hash}
use nginx_operator.Api.Server.{NginxServer}
use nginx_operator.Api.Route.{NginxRoute}
use nginx_operator.Api.Upstream.{NginxUpstream}
use nginx_operator.Nginx.Objects.{ConfigMap, Deployment, DeploymentSpec, Service, ServiceSpec}
use nginx_operator.Nginx.ConfigMaps.{build_config_map}
use nginx_operator.Nginx.Deployment.{build_deployment}
use nginx_operator.Nginx.Service.{build_service}
use nginx_operator.Controller.Run.{Run, return, ask, ◌>>=◌}
use nginx_operator.Controller.Cluster.{
  Cluster, Answer, found, not_found, failed, Write, create_config_map, update_config_map,
  create_deployment, update_deployment, create_service, update_service, send,
}

-- The metadata of an object that is updated: only the labels are replaced.
abbrev pub with_labels : ObjectMeta → ObjectMeta → ObjectMeta
with_labels existing desired = record existing { labels = desired.labels }

unfoldable pub merge_config_map : ConfigMap → ConfigMap → ConfigMap
merge_config_map existing desired = record {
  meta = with_labels existing.meta desired.meta;
  entries = desired.entries;
}

unfoldable pub merge_deployment : Deployment → Deployment → Deployment
merge_deployment existing desired = record {
  meta = with_labels existing.meta desired.meta;
  spec = desired.spec;
  status = existing.status;
}

unfoldable pub merge_service : Service → Service → Service
merge_service existing desired = record {
  meta = record (with_labels existing.meta desired.meta) { annotations = desired.meta.annotations };
  spec = record existing.spec {
    ports = desired.spec.ports;
    type = desired.spec.type;
    selector = desired.spec.selector;
  };
}

-- `r.ReloaderTag`, or the version of the build
unfoldable pub effective_tag : String → String → String
effective_tag reloader_tag version = if reloader_tag == "" then version else reloader_tag

-- The desired Deployment with the hash of the configuration as an annotation of its pods.
unfoldable pub desired_deployment : NginxServer → String → String → Deployment
desired_deployment server tag config_hash =
    let built = build_deployment server tag in
    let spec = built.spec in
    record built {
      spec = record spec {
        template_annotations = insert annotation_config_hash config_hash spec.template_annotations;
      };
    }

module _ {W : Type 0} (cluster : Cluster W) where
  -- Create the object if there is none, and update it if it differs: the tail that the three
  -- functions share.
  unfoldable pub create_or_update :
      {A : Type 0}
      → String
      → Answer A
      → Write
      → (A → Bool)
      → (A → Write)
      → Run W Write (Option String)
  create_or_update kind (failed problem) create same update =
      return (some ("failed to get " <> kind <> ": " <> problem))
  create_or_update kind (not_found problem) create same update = send cluster create
  create_or_update kind (found existing) create same update =
      if same existing then return none else send cluster (update existing)

  unfoldable pub write_config_map : ConfigMap → Run W Write (Option String)
  write_config_map desired = do
    answer ← ask (cluster.get_config_map desired.meta.namespace desired.meta.name)
    create_or_update "ConfigMap" answer (create_config_map desired)
        (λ existing. cluster.equal_entries existing.entries desired.entries)
        (λ existing. update_config_map (merge_config_map existing desired))

  unfoldable pub write_deployment : Deployment → Run W Write (Option String)
  write_deployment desired = do
    answer ← ask (cluster.get_deployment desired.meta.namespace desired.meta.name)
    create_or_update "Deployment" answer (create_deployment desired)
        (λ existing. cluster.equal_deployment_specs existing.spec desired.spec)
        (λ existing. update_deployment (merge_deployment existing desired))

  -- No one of the three parts that are compared differs.
  abbrev pub same_service : Service → Service → Bool
  same_service existing desired = not (
      not (cluster.equal_ports existing.spec.ports desired.spec.ports)
      || not (existing.spec.type == desired.spec.type)
      || not (cluster.equal_entries existing.spec.selector desired.spec.selector))

  unfoldable pub write_service : Service → Run W Write (Option String)
  write_service desired = do
    answer ← ask (cluster.get_service desired.meta.namespace desired.meta.name)
    create_or_update "Service" answer (create_service desired)
        (λ existing. same_service existing desired)
        (λ existing. update_service (merge_service existing desired))

  -- What follows on `SetOwnerReference` for an object of the kind.
  unfoldable pub with_owner :
      String
      → (ObjectMeta → Run W Write (Option String))
      → Result ObjectMeta
      → Run W Write (Option String)
  with_owner kind continue (err problem) =
      return (some ("failed to set owner reference on " <> kind <> ": " <> problem))
  with_owner kind continue (ok meta) = continue meta

  -- `SetOwnerReference` on the metadata of an object of the kind.
  unfoldable pub owned :
      NginxServer
      → String
      → ObjectMeta
      → (ObjectMeta → Run W Write (Option String))
      → Run W Write (Option String)
  unfolding with_owner
  owned server kind meta continue =
      with_owner kind continue (cluster.set_controller_reference server meta)

  unfoldable pub reconcile_config_map : NginxServer → String → Run W Write (Option String)
  reconcile_config_map server full_config =
      let desired = build_config_map server full_config [] in
      owned server "ConfigMap" desired.meta
        (λ meta. write_config_map (record desired { meta = meta }))

  unfoldable pub reconcile_deployment : String → NginxServer → String → Run W Write (Option String)
  reconcile_deployment tag server config_hash =
      let desired = desired_deployment server tag config_hash in
      owned server "Deployment" desired.meta
        (λ meta. write_deployment (record desired { meta = meta }))

  unfoldable pub reconcile_service : NginxServer → Run W Write (Option String)
  reconcile_service server =
      let desired = build_service server in
      owned server "Service" desired.meta (λ meta. write_service (record desired { meta = meta }))

  -- The routes of the server's namespace that name it.
  unfoldable pub list_routes_for_server : NginxServer → Run W Write (Result (List NginxRoute))
  list_routes_for_server server = do
    listed ← ask (cluster.list_routes server.meta.namespace)
    return (elim listed [
      | err problem ↦ err ("failed to list NginxRoutes: " <> problem)
      | ok routes ↦ ok (select (λ r. r.spec.server_ref == server.meta.name) routes)
    ])

  unfoldable pub list_upstreams_for_server : NginxServer → Run W Write (Result (List NginxUpstream))
  list_upstreams_for_server server = do
    listed ← ask (cluster.list_upstreams server.meta.namespace)
    return (elim listed [
      | err problem ↦ err ("failed to list NginxUpstreams: " <> problem)
      | ok upstreams ↦ ok (select (λ u. u.spec.server_ref == server.meta.name) upstreams)
    ])
