-- ===== src/Controller/Server/Reconcile.antt =====
-- `Reconcile` and `handleDeletion` of internal/controller/nginxserver_controller.go.
pub mod Laws
pub mod Complete
pub mod Frame
pub mod Realised
pub mod Watched
pub mod Rest
pub mod Settles
mod Never
pub mod Requeue
use nginx_operator.Base.{
  String, ◌<>◌, Bool, true, false, is_some, List, length, Option, none, some, Result, ok, err,
  if◌then◌else◌,
}
use nginx_operator.Api.Meta.{
  nginx_server_finalizer, condition_ready, condition_config_valid, condition_false, reason_failed,
  reason_config_invalid,
}
use nginx_operator.Api.Server.{NginxServer}
use nginx_operator.Api.Route.{NginxRoute}
use nginx_operator.Api.Upstream.{NginxUpstream}
use nginx_operator.Config.Validator.Report.{error_messages}
use nginx_operator.Config.Validator.Server.{validate_nginx_server}
use nginx_operator.Config.Generator.Full.{generate_full_config, hash}
use nginx_operator.Controller.Verdicts.{done, stopped, unless_failed}
use nginx_operator.Controller.Run.{Run, return, ask, ◌>>=◌}
use nginx_operator.Controller.Cluster.{
  Cluster, Verdict, Answer, found, not_found, failed, Write, update_server, send,
}
use nginx_operator.Controller.Server.Objects.{
  effective_tag, list_routes_for_server, list_upstreams_for_server, reconcile_config_map,
  reconcile_deployment, reconcile_service,
}
use nginx_operator.Controller.Server.Status.{update_status, update_status_condition}

module _ {W : Type 0} (cluster : Cluster W) where
  unfoldable pub on_listed :
      {A : Type 0} → String → (List A → Run W Write Verdict) → Result (List A) → Run W Write Verdict
  on_listed prefix rest (ok items) = rest items
  on_listed prefix rest (err problem) = return (stopped (prefix <> ": " <> problem))

  unfoldable pub handle_deletion : NginxServer → Run W Write Verdict
  handle_deletion server =
      if cluster.contains_finalizer server.meta nginx_server_finalizer
      then (do
        problem ← send cluster (
            update_server (record server {
              meta = cluster.remove_finalizer server.meta nginx_server_finalizer;
            }))
        unless_failed "failed to remove finalizer" (return done) problem)
      else return done

  -- The part that adds the finalizer.
  unfoldable pub ensure_finalizer : NginxServer → Run W Write Verdict
  ensure_finalizer server = do
    problem ← send cluster (
        update_server
          (record server { meta = cluster.add_finalizer server.meta nginx_server_finalizer }))
    unless_failed "failed to add finalizer"
        (return (record { requeue = true; requeue_after = 0; error = none })) problem

  module _ (reloader_tag version : String) where
    -- The objects and the status, for a configuration that was generated.
    unfoldable pub apply_config :
        NginxServer → List NginxRoute → List NginxUpstream → String → Run W Write Verdict
    apply_config server routes upstreams full_config =
        let config_hash = hash cluster.sha256_hex full_config in
        do
          p1 ← reconcile_config_map cluster server full_config
          unless_failed "failed to reconcile ConfigMap"
              (do
                p2 ←
                    reconcile_deployment cluster (effective_tag reloader_tag version) server
                      config_hash
                unless_failed "failed to reconcile Deployment"
                    (do
                      p3 ← reconcile_service cluster server
                      unless_failed "failed to reconcile Service"
                          (update_status cluster server config_hash (length routes)
                            (length upstreams))
                          p3)
                    p2)
              p1

    -- The outcome of the generator: an error is written to the status, and tried again later.
    unfoldable pub generate_and_apply :
        NginxServer → List NginxRoute → List NginxUpstream → Result String → Run W Write Verdict
    generate_and_apply server routes upstreams (ok full_config) =
        apply_config server routes upstreams full_config
    generate_and_apply server routes upstreams (err problem) = do
      ignored ←
          update_status_condition cluster server condition_config_valid condition_false
            reason_config_invalid problem
      return (record { requeue = false; requeue_after = 30; error = none })

    -- Steps 5 to 10, for a valid specification.
    unfoldable pub reconcile_valid : NginxServer → Run W Write Verdict
    reconcile_valid server = do
      listed_routes ← list_routes_for_server cluster server
      on_listed "failed to list routes"
          (λ routes. do
            listed_upstreams ← list_upstreams_for_server cluster server
            on_listed "failed to list upstreams"
                (λ upstreams.
                  generate_and_apply server routes upstreams
                    (generate_full_config server routes upstreams))
                listed_upstreams)
          listed_routes

    -- Steps 2 to 10, for a server that was found.
    unfoldable pub reconcile_found : NginxServer → Run W Write Verdict
    reconcile_found server =
        let validation = validate_nginx_server server in
        if is_some server.meta.deletion_timestamp
        then handle_deletion server
        else if cluster.contains_finalizer server.meta nginx_server_finalizer
        then if validation.valid
          then reconcile_valid server
          else update_status_condition cluster server condition_ready condition_false reason_failed
              (error_messages validation)
        else ensure_finalizer server

    unfoldable pub on_answer : Answer NginxServer → Run W Write Verdict
    on_answer (not_found problem) = return done
    on_answer (failed problem) = return (stopped ("failed to get NginxServer: " <> problem))
    on_answer (found server) = reconcile_found server

    unfoldable pub reconcile : String → String → Run W Write Verdict
    reconcile namespace name = do answer ← ask (cluster.get_server namespace name); on_answer answer
