-- ===== src/Controller/Trace/Server.antt =====
-- How a reconciliation of internal/controller/nginxserver_controller.go moves the cluster.
use nginx_operator.Base.{is_some, String, ℕ, Bool, List, Option, Result, ok, err}
use nginx_operator.Api.Server.{NginxServer}
use nginx_operator.Api.Route.{NginxRoute}
use nginx_operator.Api.Upstream.{NginxUpstream}
use nginx_operator.Api.Meta.{nginx_server_finalizer, ObjectMeta}
use nginx_operator.Config.Validator.Server.{validate_nginx_server}
use nginx_operator.Controller.Run.{Run}
use nginx_operator.Controller.Cluster.{Cluster, Answer, found, not_found, failed, Verdict, Write}
use nginx_operator.Controller.Trace.{
  Traces, return-Traces, ask-Traces, send-Traces, read_clock-Traces, bind-Traces, if-Traces,
  unless_failed-Traces, send_then-Traces,
}
use nginx_operator.Controller.Server.Objects.{
  create_or_update, with_owner, owned, write_config_map, write_deployment, write_service,
  reconcile_config_map, reconcile_deployment, reconcile_service, list_routes_for_server,
  list_upstreams_for_server,
}
use nginx_operator.Controller.Server.Status.{update_status, update_status_condition}
use nginx_operator.Controller.Server.Reconcile.{
  on_listed, handle_deletion, ensure_finalizer, apply_config, generate_and_apply, reconcile_valid,
  reconcile_found, on_answer, reconcile,
}

module _ {W : Type 0} (cluster : Cluster W) where
  create_or_update-Traces :
      {A : Type 0} (kind : String) (answer : Answer A) (create : Write) (same : A → Bool)
      (update : A → Write)
      → Traces cluster (create_or_update cluster kind answer create same update)
  unfolding create_or_update
  create_or_update-Traces kind (failed problem) create same update = return-Traces cluster _
  create_or_update-Traces kind (not_found problem) create same update = send-Traces cluster _
  create_or_update-Traces kind (found existing) create same update =
      if-Traces cluster (same existing) _ _ (return-Traces cluster _) (send-Traces cluster _)

  with_owner-Traces :
      (kind : String) (continue : ObjectMeta → Run W Write (Option String))
      (owner : Result ObjectMeta)
      → ((meta : ObjectMeta) → Traces cluster (continue meta))
      → Traces cluster (with_owner cluster kind continue owner)
  unfolding with_owner
  with_owner-Traces kind continue (err problem) h = return-Traces cluster _
  with_owner-Traces kind continue (ok meta) h = h meta

  reconcile_config_map-Traces :
      (server : NginxServer) (text : String)
      → Traces cluster (reconcile_config_map cluster server text)
  unfolding reconcile_config_map owned write_config_map
  reconcile_config_map-Traces server text = with_owner-Traces _ _ _ (λ meta.
      bind-Traces cluster _ _ (ask-Traces cluster _)
        (λ answer. create_or_update-Traces _ answer _ _ _))

  reconcile_deployment-Traces :
      (tag : String) (server : NginxServer) (config_hash : String)
      → Traces cluster (reconcile_deployment cluster tag server config_hash)
  unfolding reconcile_deployment owned write_deployment
  reconcile_deployment-Traces tag server config_hash = with_owner-Traces _ _ _ (λ meta.
      bind-Traces cluster _ _ (ask-Traces cluster _)
        (λ answer. create_or_update-Traces _ answer _ _ _))

  reconcile_service-Traces :
      (server : NginxServer) → Traces cluster (reconcile_service cluster server)
  unfolding reconcile_service owned write_service
  reconcile_service-Traces server = with_owner-Traces _ _ _ (λ meta.
      bind-Traces cluster _ _ (ask-Traces cluster _)
        (λ answer. create_or_update-Traces _ answer _ _ _))

  list_routes_for_server-Traces :
      (server : NginxServer) → Traces cluster (list_routes_for_server cluster server)
  unfolding list_routes_for_server
  list_routes_for_server-Traces server =
      bind-Traces cluster _ _ (ask-Traces cluster _) (λ listed. return-Traces cluster _)

  list_upstreams_for_server-Traces :
      (server : NginxServer) → Traces cluster (list_upstreams_for_server cluster server)
  unfolding list_upstreams_for_server
  list_upstreams_for_server-Traces server =
      bind-Traces cluster _ _ (ask-Traces cluster _) (λ listed. return-Traces cluster _)

  update_status-Traces :
      (server : NginxServer) (config_hash : String) (routes upstreams : ℕ)
      → Traces cluster (update_status cluster server config_hash routes upstreams)
  unfolding update_status
  update_status-Traces server config_hash routes upstreams =
      bind-Traces cluster _ _ (ask-Traces cluster _) (λ answer.
        bind-Traces cluster _ _ (read_clock-Traces cluster) (λ now.
          bind-Traces cluster _ _ (read_clock-Traces cluster) (λ t1.
            bind-Traces cluster _ _ (read_clock-Traces cluster) (λ t2.
              bind-Traces cluster _ _ (read_clock-Traces cluster)
                (λ t3. send_then-Traces cluster _ _)))))

  update_status_condition-Traces :
      (server : NginxServer) (type status reason message : String)
      → Traces cluster (update_status_condition cluster server type status reason message)
  unfolding update_status_condition
  update_status_condition-Traces server type status reason message =
      bind-Traces cluster _ _ (read_clock-Traces cluster) (λ now. send_then-Traces cluster _ _)

  handle_deletion-Traces : (server : NginxServer) → Traces cluster (handle_deletion cluster server)
  unfolding handle_deletion
  handle_deletion-Traces server =
      if-Traces cluster _ _ _
        (bind-Traces cluster _ _ (send-Traces cluster _)
          (λ problem. unless_failed-Traces cluster _ _ problem (return-Traces cluster _)))
        (return-Traces cluster _)

  ensure_finalizer-Traces :
      (server : NginxServer) → Traces cluster (ensure_finalizer cluster server)
  unfolding ensure_finalizer
  ensure_finalizer-Traces server =
      bind-Traces cluster _ _ (send-Traces cluster _)
        (λ problem. unless_failed-Traces cluster _ _ problem (return-Traces cluster _))

  on_listed-Traces :
      {A : Type 0} (prefix : String) (rest : List A → Run W Write Verdict)
      (listed : Result (List A))
      → ((items : List A) → Traces cluster (rest items))
      → Traces cluster (on_listed cluster prefix rest listed)
  unfolding on_listed
  on_listed-Traces prefix rest (ok items) h = h items
  on_listed-Traces prefix rest (err problem) h = return-Traces cluster _

  module _ (reloader_tag version : String) where
    apply_config-Traces :
        (server : NginxServer) (routes : List NginxRoute) (upstreams : List NginxUpstream)
        (text : String)
        → Traces cluster (apply_config cluster reloader_tag version server routes upstreams text)
    unfolding apply_config
    apply_config-Traces server routes upstreams text =
        bind-Traces cluster _ _ (reconcile_config_map-Traces server text) (λ p1.
          unless_failed-Traces cluster _ _ p1 (
            bind-Traces cluster _ _ (reconcile_deployment-Traces _ server _) (λ p2.
              unless_failed-Traces cluster _ _ p2 (
                bind-Traces cluster _ _ (reconcile_service-Traces server) (λ p3.
                  unless_failed-Traces cluster _ _ p3 (update_status-Traces server _ _ _))))))

    generate_and_apply-Traces :
        (server : NginxServer) (routes : List NginxRoute) (upstreams : List NginxUpstream)
        (made : Result String)
        → Traces cluster
            (generate_and_apply cluster reloader_tag version server routes upstreams made)
    unfolding generate_and_apply
    generate_and_apply-Traces server routes upstreams (ok text) =
        apply_config-Traces server routes upstreams text
    generate_and_apply-Traces server routes upstreams (err problem) =
        bind-Traces cluster _ _ (update_status_condition-Traces server _ _ _ _)
          (λ ignored. return-Traces cluster _)

    reconcile_valid-Traces :
        (server : NginxServer)
        → Traces cluster (reconcile_valid cluster reloader_tag version server)
    unfolding reconcile_valid
    reconcile_valid-Traces server =
        bind-Traces cluster _ _ (list_routes_for_server-Traces server) (λ listed_routes.
          on_listed-Traces _ _ listed_routes (λ routes.
            bind-Traces cluster _ _ (list_upstreams_for_server-Traces server) (λ listed_upstreams.
              on_listed-Traces _ _ listed_upstreams
                (λ upstreams. generate_and_apply-Traces server routes upstreams _))))

    reconcile_found-Traces :
        (server : NginxServer)
        → Traces cluster (reconcile_found cluster reloader_tag version server)
    unfolding reconcile_found
    reconcile_found-Traces server =
        if-Traces cluster (is_some server.meta.deletion_timestamp) _ _
          (handle_deletion-Traces server)
          (if-Traces cluster (cluster.contains_finalizer server.meta nginx_server_finalizer) _ _
            (if-Traces cluster (validate_nginx_server server).valid _ _
              (reconcile_valid-Traces server) (update_status_condition-Traces server _ _ _ _))
            (ensure_finalizer-Traces server))

    on_answer-Traces :
        (answer : Answer NginxServer)
        → Traces cluster (on_answer cluster reloader_tag version answer)
    unfolding on_answer
    on_answer-Traces (not_found problem) = return-Traces cluster _
    on_answer-Traces (failed problem) = return-Traces cluster _
    on_answer-Traces (found server) = reconcile_found-Traces server

    pub reconcile-Traces :
        (namespace name : String)
        → Traces cluster (reconcile cluster reloader_tag version namespace name)
    unfolding reconcile
    reconcile-Traces namespace name =
        bind-Traces cluster _ _ (ask-Traces cluster _) on_answer-Traces
