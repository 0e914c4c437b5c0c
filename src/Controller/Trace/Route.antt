-- ===== src/Controller/Trace/Route.antt =====
-- How a reconciliation of internal/controller/nginxroute_controller.go moves the cluster.
use nginx_operator.Base.{String, is_some, Option, none, some}
use nginx_operator.Api.Meta.{nginx_route_finalizer}
use nginx_operator.Api.Server.{NginxServer}
use nginx_operator.Api.Route.{NginxRoute}
use nginx_operator.Config.Validator.Route.{validate_nginx_route}
use nginx_operator.Controller.Cluster.{Cluster, Answer, found, not_found, failed}
use nginx_operator.Controller.Trigger.{trigger_server}
use nginx_operator.Controller.Trace.{
  Traces, return-Traces, ask-Traces, send-Traces, read_clock-Traces, bind-Traces, if-Traces,
  unless_failed-Traces, send_then-Traces,
}
use nginx_operator.Controller.Route.{
  update_status_condition, trigger_if_found, handle_deletion, ensure_finalizer, finish, on_server,
  reconcile_found, on_answer, reconcile,
}

module _ {W : Type 0} (cluster : Cluster W) where
  pub trigger_server-Traces :
      (server : NginxServer) → Traces cluster (trigger_server cluster server)
  unfolding trigger_server
  trigger_server-Traces server =
      bind-Traces cluster _ _ (read_clock-Traces cluster) (λ now. send_then-Traces cluster _ _)

  update_status_condition-Traces :
      (route : NginxRoute) (type status reason message : String)
      → Traces cluster (update_status_condition cluster route type status reason message)
  unfolding update_status_condition
  update_status_condition-Traces route type status reason message =
      bind-Traces cluster _ _ (read_clock-Traces cluster) (λ now. send_then-Traces cluster _ _)

  trigger_if_found-Traces :
      (answer : Answer NginxServer) → Traces cluster (trigger_if_found cluster answer)
  unfolding trigger_if_found
  trigger_if_found-Traces (found server) = trigger_server-Traces server
  trigger_if_found-Traces (not_found problem) = return-Traces cluster _
  trigger_if_found-Traces (failed problem) = return-Traces cluster _

  module _ (route : NginxRoute) where
    handle_deletion-Traces : Traces cluster (handle_deletion cluster route)
    unfolding handle_deletion
    handle_deletion-Traces =
        if-Traces cluster _ _ _
          (bind-Traces cluster _ _ (ask-Traces cluster _) (λ answer.
            bind-Traces cluster _ _ (trigger_if_found-Traces answer) (λ ignored.
              bind-Traces cluster _ _ (send-Traces cluster _)
                (λ problem. unless_failed-Traces cluster _ _ problem (return-Traces cluster _)))))
          (return-Traces cluster _)

    ensure_finalizer-Traces : Traces cluster (ensure_finalizer cluster route)
    unfolding ensure_finalizer
    ensure_finalizer-Traces =
        bind-Traces cluster _ _ (send-Traces cluster _)
          (λ problem. unless_failed-Traces cluster _ _ problem (return-Traces cluster _))

    finish-Traces : (triggered : Option String) → Traces cluster (finish cluster route triggered)
    unfolding finish
    finish-Traces (some problem) = return-Traces cluster _
    finish-Traces none = bind-Traces cluster _ _ (read_clock-Traces cluster) (λ now.
        bind-Traces cluster _ _ (read_clock-Traces cluster) (λ t1.
          bind-Traces cluster _ _ (read_clock-Traces cluster) (λ t2. send_then-Traces cluster _ _)))

    on_server-Traces :
        (answer : Answer NginxServer) → Traces cluster (on_server cluster route answer)
    unfolding on_server
    on_server-Traces (found server) =
        bind-Traces cluster _ _ (trigger_server-Traces server) finish-Traces
    on_server-Traces (not_found problem) = update_status_condition-Traces route _ _ _ _
    on_server-Traces (failed problem) = return-Traces cluster _

    reconcile_found-Traces : Traces cluster (reconcile_found cluster route)
    unfolding reconcile_found
    reconcile_found-Traces =
        if-Traces cluster (is_some route.meta.deletion_timestamp) _ _ handle_deletion-Traces (
          if-Traces cluster (cluster.contains_finalizer route.meta nginx_route_finalizer) _ _
            (if-Traces cluster (validate_nginx_route route).valid _ _
              (bind-Traces cluster _ _ (ask-Traces cluster _) on_server-Traces)
              (update_status_condition-Traces route _ _ _ _))
            ensure_finalizer-Traces)

  on_answer-Traces : (answer : Answer NginxRoute) → Traces cluster (on_answer cluster answer)
  unfolding on_answer
  on_answer-Traces (not_found problem) = return-Traces cluster _
  on_answer-Traces (failed problem) = return-Traces cluster _
  on_answer-Traces (found route) = reconcile_found-Traces route

  pub reconcile_route-Traces :
      (namespace name : String) → Traces cluster (reconcile cluster namespace name)
  unfolding reconcile
  reconcile_route-Traces namespace name =
      bind-Traces cluster _ _ (ask-Traces cluster _) on_answer-Traces
