-- ===== src/Controller/Route.antt =====
-- `NginxRouteReconciler` of internal/controller/nginxroute_controller.go.
pub mod Laws
pub mod Deletion
use nginx_operator.Base.{
  String, ◌<>◌, ◌==◌, Bool, true, false, is_some, List, [], ◌∷◌, map, select, Option, none, some,
  Result, ok, err, if◌then◌else◌,
}
use nginx_operator.Base.Text.{quote}
use nginx_operator.Api.Meta.{
  Time, nginx_route_finalizer, condition_ready, condition_config_valid, condition_true,
  condition_false, reason_failed, reason_server_not_found, reason_reconciled,
  reason_config_generated,
}
use nginx_operator.Api.Server.{NginxServer}
use nginx_operator.Api.Route.{NginxRoute}
use nginx_operator.Config.Validator.Report.{error_messages}
use nginx_operator.Config.Validator.Route.{validate_nginx_route}
use nginx_operator.Controller.Conditions.{set_condition}
use nginx_operator.Controller.Run.{Run, return, ask, ◌>>=◌}
use nginx_operator.Controller.Cluster.{
  Cluster, Verdict, Answer, found, not_found, failed, Write, update_route, update_route_status,
  send, read_clock,
}
use nginx_operator.Controller.Verdicts.{done, stopped, retry_soon, unless_failed}
use nginx_operator.Controller.Trigger.{trigger_server}

-- `setCondition` on the status of a route, at the generation of the route.
unfoldable pub with_condition : Time → String → String → String → String → NginxRoute → NginxRoute
with_condition now type status reason message route =
    let old = route.status in
    record route {
      status = record old {
        conditions =
            set_condition now type status reason message route.meta.generation old.conditions;
      };
    }

unfoldable pub with_applied : Time → NginxRoute → NginxRoute
with_applied now route =
    let old = route.status in
    record route {
      status = record old {
        observed_generation = route.meta.generation;
        last_applied_time = some now;
      };
    }

module _ {W : Type 0} (cluster : Cluster W) where
  unfoldable pub update_status_condition :
      NginxRoute → String → String → String → String → Run W Write Verdict
  update_status_condition route type status reason message = do
    now ← read_clock cluster
    problem ←
        send cluster (update_route_status (with_condition now type status reason message route))
    return (elim problem [ some p ↦ retry_soon p | none ↦ done ])

  -- An error of the trigger is only logged.
  unfoldable pub trigger_if_found : Answer NginxServer → Run W Write (Option String)
  trigger_if_found (found server) = trigger_server cluster server
  trigger_if_found (not_found problem) = return none
  trigger_if_found (failed problem) = return none

  unfoldable pub handle_deletion : NginxRoute → Run W Write Verdict
  handle_deletion route =
      if cluster.contains_finalizer route.meta nginx_route_finalizer
      then (do
        answer ← ask (cluster.get_server route.meta.namespace route.spec.server_ref)
        ignored ← trigger_if_found answer
        problem ← send cluster (
            update_route
              (record route { meta = cluster.remove_finalizer route.meta nginx_route_finalizer }))
        unless_failed "failed to remove finalizer" (return done) problem)
      else return done

  unfoldable pub ensure_finalizer : NginxRoute → Run W Write Verdict
  ensure_finalizer route = do
    problem ← send cluster (
        update_route
          (record route { meta = cluster.add_finalizer route.meta nginx_route_finalizer }))
    unless_failed "failed to add finalizer"
        (return (record { requeue = true; requeue_after = 0; error = none })) problem

  -- Step 7, after the trigger.
  unfoldable pub finish : NginxRoute → Option String → Run W Write Verdict
  finish route (some problem) = return (retry_soon problem)
  finish route none = do
    now ← read_clock cluster
    t1 ← read_clock cluster
    t2 ← read_clock cluster
    let ready =
        with_condition t1 condition_ready condition_true reason_reconciled
          "NginxRoute reconciled successfully" (with_applied now route)
    problem ← send cluster (
        update_route_status (
          with_condition t2 condition_config_valid condition_true reason_config_generated
            "Route configuration is valid" ready))
    return (elim problem [
      | some p ↦ retry_soon ("failed to update NginxRoute status: " <> p)
      | none ↦ done
    ])

  -- Steps 5 to 7, for the answer about the server.
  unfoldable pub on_server : NginxRoute → Answer NginxServer → Run W Write Verdict
  on_server route (found server) = do
    triggered ← trigger_server cluster server
    finish route triggered
  on_server route (not_found problem) =
      update_status_condition route condition_ready condition_false reason_server_not_found
        ("NginxServer " <> quote route.spec.server_ref <> " not found")
  on_server route (failed problem) = return (stopped ("failed to get NginxServer: " <> problem))

  -- Steps 2 to 7, for a route that was found.
  unfoldable pub reconcile_found : NginxRoute → Run W Write Verdict
  reconcile_found route =
      let validation = validate_nginx_route route in
      if is_some route.meta.deletion_timestamp
      then handle_deletion route
      else if cluster.contains_finalizer route.meta nginx_route_finalizer
      then if validation.valid
        then (do
          answer ← ask (cluster.get_server route.meta.namespace route.spec.server_ref)
          on_server route answer)
        else update_status_condition route condition_ready condition_false reason_failed
            (error_messages validation)
      else ensure_finalizer route

  unfoldable pub on_answer : Answer NginxRoute → Run W Write Verdict
  on_answer (not_found problem) = return done
  on_answer (failed problem) = return (stopped ("failed to get NginxRoute: " <> problem))
  on_answer (found route) = reconcile_found route

  unfoldable pub reconcile : String → String → Run W Write Verdict
  reconcile namespace name = do answer ← ask (cluster.get_route namespace name); on_answer answer

  -- The requests for an event of a server, as namespaces and names.
  unfoldable pub find_routes_for_server : NginxServer → W → List (String × String)
  find_routes_for_server server w = elim (cluster.list_routes server.meta.namespace w) [
    | err problem ↦ []
    | ok routes ↦
        map (λ r. (r.meta.namespace, r.meta.name))
          (select (λ r. r.spec.server_ref == server.meta.name) routes)
  ]
