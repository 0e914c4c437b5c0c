-- ===== src/Controller/Trace/Upstream.antt =====
-- How a reconciliation of internal/controller/nginxupstream_controller.go moves the cluster.
use nginx_operator.Base.{String, Bool, is_some, Option, none, some, Result, ok, err}
use nginx_operator.Api.Meta.{nginx_upstream_finalizer}
use nginx_operator.Api.Server.{NginxServer}
use nginx_operator.Api.Upstream.{NginxUpstream, NginxServiceDiscoverySpec}
use nginx_operator.Config.Validator.Upstream.{validate_nginx_upstream}
use nginx_operator.Controller.Cluster.{Cluster, Answer, found, not_found, failed}
use nginx_operator.Controller.Trace.{
  Traces, return-Traces, ask-Traces, send-Traces, read_clock-Traces, bind-Traces, if-Traces,
  unless_failed-Traces, send_then-Traces,
}
use nginx_operator.Controller.Trace.Route.{trigger_server-Traces}
use nginx_operator.Controller.Upstream.Endpoints.{resolve_service_endpoints}
use nginx_operator.Controller.Upstream.Reconcile.{
  update_status_condition, trigger_if_found, handle_deletion, ensure_finalizer, finish,
  trigger_and_finish, on_resolved, on_discovery, on_server, reconcile_found, on_answer, reconcile,
}

module _ {W : Type 0} (cluster : Cluster W) where
  update_status_condition-Traces :
      (upstream : NginxUpstream) (type status reason message : String)
      → Traces cluster (update_status_condition cluster upstream type status reason message)
  unfolding update_status_condition
  update_status_condition-Traces upstream type status reason message =
      bind-Traces cluster _ _ (read_clock-Traces cluster) (λ now. send_then-Traces cluster _ _)

  trigger_if_found-Traces :
      (answer : Answer NginxServer) → Traces cluster (trigger_if_found cluster answer)
  unfolding trigger_if_found
  trigger_if_found-Traces (found server) = trigger_server-Traces cluster server
  trigger_if_found-Traces (not_found problem) = return-Traces cluster _
  trigger_if_found-Traces (failed problem) = return-Traces cluster _

  resolve-Traces :
      (upstream : NginxUpstream) (sd : NginxServiceDiscoverySpec)
      → Traces cluster (resolve_service_endpoints cluster upstream sd)
  unfolding resolve_service_endpoints
  resolve-Traces upstream sd =
      bind-Traces cluster _ _ (ask-Traces cluster _) (λ answer. return-Traces cluster _)

  finish-Traces :
      (refresh : Bool) (upstream : NginxUpstream) (triggered : Option String)
      → Traces cluster (finish cluster refresh upstream triggered)
  unfolding finish
  finish-Traces refresh upstream (some problem) = return-Traces cluster _
  finish-Traces refresh upstream none = bind-Traces cluster _ _ (read_clock-Traces cluster) (λ now.
      bind-Traces cluster _ _ (read_clock-Traces cluster) (λ t1. send_then-Traces cluster _ _))

  trigger_and_finish-Traces :
      (refresh : Bool) (server : NginxServer) (upstream : NginxUpstream)
      → Traces cluster (trigger_and_finish cluster refresh server upstream)
  unfolding trigger_and_finish
  trigger_and_finish-Traces refresh server upstream =
      bind-Traces cluster _ _ (trigger_server-Traces cluster server)
        (λ triggered. finish-Traces refresh upstream triggered)

  module _ (upstream : NginxUpstream) where
    handle_deletion-Traces : Traces cluster (handle_deletion cluster upstream)
    unfolding handle_deletion
    handle_deletion-Traces =
        if-Traces cluster _ _ _
          (bind-Traces cluster _ _ (ask-Traces cluster _) (λ answer.
            bind-Traces cluster _ _ (trigger_if_found-Traces answer) (λ ignored.
              bind-Traces cluster _ _ (send-Traces cluster _)
                (λ problem. unless_failed-Traces cluster _ _ problem (return-Traces cluster _)))))
          (return-Traces cluster _)

    ensure_finalizer-Traces : Traces cluster (ensure_finalizer cluster upstream)
    unfolding ensure_finalizer
    ensure_finalizer-Traces =
        bind-Traces cluster _ _ (send-Traces cluster _)
          (λ problem. unless_failed-Traces cluster _ _ problem (return-Traces cluster _))

    on_resolved-Traces :
        (server : NginxServer) (resolved : Result NginxUpstream)
        → Traces cluster (on_resolved cluster server upstream resolved)
    unfolding on_resolved
    on_resolved-Traces server (ok resolved) = trigger_and_finish-Traces _ server resolved
    on_resolved-Traces server (err problem) = update_status_condition-Traces upstream _ _ _ _

    on_discovery-Traces :
        (server : NginxServer) (discovery : Option NginxServiceDiscoverySpec)
        → Traces cluster (on_discovery cluster server upstream discovery)
    unfolding on_discovery
    on_discovery-Traces server none = trigger_and_finish-Traces _ server upstream
    on_discovery-Traces server (some sd) =
        if-Traces cluster sd.enabled _ _
          (bind-Traces cluster _ _ (resolve-Traces upstream sd) (on_resolved-Traces server))
          (trigger_and_finish-Traces _ server upstream)

    on_server-Traces :
        (answer : Answer NginxServer) → Traces cluster (on_server cluster upstream answer)
    unfolding on_server
    on_server-Traces (found server) = on_discovery-Traces server _
    on_server-Traces (not_found problem) = update_status_condition-Traces upstream _ _ _ _
    on_server-Traces (failed problem) = return-Traces cluster _

    reconcile_found-Traces : Traces cluster (reconcile_found cluster upstream)
    unfolding reconcile_found
    reconcile_found-Traces =
        if-Traces cluster (is_some upstream.meta.deletion_timestamp) _ _ handle_deletion-Traces (
          if-Traces cluster (cluster.contains_finalizer upstream.meta nginx_upstream_finalizer) _ _
            (if-Traces cluster (validate_nginx_upstream upstream).valid _ _
              (bind-Traces cluster _ _ (ask-Traces cluster _) on_server-Traces)
              (update_status_condition-Traces upstream _ _ _ _))
            ensure_finalizer-Traces)

  on_answer-Traces : (answer : Answer NginxUpstream) → Traces cluster (on_answer cluster answer)
  unfolding on_answer
  on_answer-Traces (not_found problem) = return-Traces cluster _
  on_answer-Traces (failed problem) = return-Traces cluster _
  on_answer-Traces (found upstream) = reconcile_found-Traces upstream

  pub reconcile_upstream-Traces :
      (namespace name : String) → Traces cluster (reconcile cluster namespace name)
  unfolding reconcile
  reconcile_upstream-Traces namespace name =
      bind-Traces cluster _ _ (ask-Traces cluster _) on_answer-Traces
