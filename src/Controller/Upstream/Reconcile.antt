-- ===== src/Controller/Upstream/Reconcile.antt =====
-- `Reconcile` and `handleDeletion` of internal/controller/nginxupstream_controller.go.
pub mod Justified
pub mod Steps
pub mod Laws
pub mod Deletion
use nginx_operator.Base.{
  length, not, String, ◌<>◌, ◌==◌, Bool, true, false, is_some, List, [], ◌∷◌, map, select, Option,
  none, some, Result, ok, err, if◌then◌else◌,
}
use nginx_operator.Base.Text.{quote}
use nginx_operator.Api.Meta.{
  Time, nginx_upstream_finalizer, condition_ready, condition_config_valid, condition_true,
  condition_false, reason_failed, reason_server_not_found, reason_dependency_not_ready,
  reason_reconciled, reason_config_generated,
}
use nginx_operator.Api.Server.{NginxServer}
use nginx_operator.Api.Upstream.{NginxUpstream, NginxServiceDiscoverySpec}
use nginx_operator.Config.Validator.Report.{error_messages}
use nginx_operator.Config.Validator.Upstream.{validate_nginx_upstream}
use nginx_operator.Controller.Conditions.{set_condition}
use nginx_operator.Controller.Run.{Run, return, ask, ◌>>=◌}
use nginx_operator.Controller.Cluster.{
  Cluster, Verdict, Answer, found, not_found, failed, Write, update_upstream,
  update_upstream_status, send, read_clock,
}
use nginx_operator.Controller.Verdicts.{done, stopped, retry_soon, unless_failed}
use nginx_operator.Controller.Server.Status.{to_int32}
use nginx_operator.Controller.Upstream.Endpoints.{resolve_service_endpoints}
use nginx_operator.Controller.Trigger.{trigger_server}

-- `setCondition` on the status of an upstream, at the generation of the upstream.
unfoldable pub with_condition :
    Time → String → String → String → String → NginxUpstream → NginxUpstream
with_condition now type status reason message upstream =
    let old = upstream.status in
    record upstream {
      status = record old {
        conditions =
            set_condition now type status reason message upstream.meta.generation old.conditions;
      };
    }

-- The fields that step 8 sets before the condition; `activeBackends` counts the backends that are
-- not down.
unfoldable pub with_applied : Time → NginxUpstream → NginxUpstream
with_applied now upstream =
    let old = upstream.status in
    let backends = upstream.spec.backends in
    record upstream {
      status = record old {
        active_backends = to_int32 (length (select (λ b. not b.down) backends));
        total_backends = to_int32 (length backends);
        observed_generation = upstream.meta.generation;
        last_applied_time = some now;
      };
    }

module _ {W : Type 0} (cluster : Cluster W) where
  unfoldable pub update_status_condition :
      NginxUpstream → String → String → String → String → Run W Write Verdict
  update_status_condition upstream type status reason message = do
    now ← read_clock cluster
    problem ←
        send cluster
          (update_upstream_status (with_condition now type status reason message upstream))
    return (elim problem [ some p ↦ retry_soon p | none ↦ done ])

  -- An error of the trigger is only logged.
  unfoldable pub trigger_if_found : Answer NginxServer → Run W Write (Option String)
  trigger_if_found (found server) = trigger_server cluster server
  trigger_if_found (not_found problem) = return none
  trigger_if_found (failed problem) = return none

  unfoldable pub handle_deletion : NginxUpstream → Run W Write Verdict
  handle_deletion upstream =
      if cluster.contains_finalizer upstream.meta nginx_upstream_finalizer
      then (do
        answer ← ask (cluster.get_server upstream.meta.namespace upstream.spec.server_ref)
        ignored ← trigger_if_found answer
        problem ← send cluster (
            update_upstream (record upstream {
              meta = cluster.remove_finalizer upstream.meta nginx_upstream_finalizer;
            }))
        unless_failed "failed to remove finalizer" (return done) problem)
      else return done

  unfoldable pub ensure_finalizer : NginxUpstream → Run W Write Verdict
  ensure_finalizer upstream = do
    problem ← send cluster (
        update_upstream
          (record upstream { meta = cluster.add_finalizer upstream.meta nginx_upstream_finalizer }))
    unless_failed "failed to add finalizer"
        (return (record { requeue = true; requeue_after = 0; error = none })) problem

  -- Step 8, after the trigger; `refresh` says that service discovery is enabled.
  unfoldable pub finish : Bool → NginxUpstream → Option String → Run W Write Verdict
  finish refresh upstream (some problem) = return (retry_soon problem)
  finish refresh upstream none = do
    now ← read_clock cluster
    t1 ← read_clock cluster
    problem ← send cluster (
        update_upstream_status (
          with_condition t1 condition_ready condition_true reason_reconciled
            "NginxUpstream reconciled successfully" (with_applied now upstream)))
    return (elim problem [
      | some p ↦ retry_soon ("failed to update NginxUpstream status: " <> p)
      | none ↦ record { requeue = false; requeue_after = if refresh then 30 else 0; error = none }
    ])

  -- Steps 7 and 8.
  unfoldable pub trigger_and_finish : Bool → NginxServer → NginxUpstream → Run W Write Verdict
  trigger_and_finish refresh server upstream = do
    triggered ← trigger_server cluster server
    finish refresh upstream triggered

  -- Step 6 on, for the outcome of the discovery; `upstream` is the one before it.
  unfoldable pub on_resolved :
      NginxServer → NginxUpstream → Result NginxUpstream → Run W Write Verdict
  on_resolved server upstream (ok resolved) = trigger_and_finish true server resolved
  on_resolved server upstream (err problem) =
      update_status_condition upstream condition_ready condition_false reason_dependency_not_ready
        ("Failed to resolve endpoints: " <> problem)

  unfoldable pub on_discovery :
      NginxServer → NginxUpstream → Option NginxServiceDiscoverySpec → Run W Write Verdict
  on_discovery server upstream none = trigger_and_finish false server upstream
  on_discovery server upstream (some sd) =
      if sd.enabled
      then (do
        resolved ← resolve_service_endpoints cluster upstream sd
        on_resolved server upstream resolved)
      else trigger_and_finish false server upstream

  -- Steps 5 to 8, for the answer about the server.
  unfoldable pub on_server : NginxUpstream → Answer NginxServer → Run W Write Verdict
  on_server upstream (found server) = on_discovery server upstream upstream.spec.service_discovery
  on_server upstream (not_found problem) =
      update_status_condition upstream condition_ready condition_false reason_server_not_found
        ("NginxServer " <> quote upstream.spec.server_ref <> " not found")
  on_server upstream (failed problem) = return (stopped ("failed to get NginxServer: " <> problem))

  -- Steps 2 to 8, for an upstream that was found.
  unfoldable pub reconcile_found : NginxUpstream → Run W Write Verdict
  reconcile_found upstream =
      let validation = validate_nginx_upstream upstream in
      if is_some upstream.meta.deletion_timestamp
      then handle_deletion upstream
      else if cluster.contains_finalizer upstream.meta nginx_upstream_finalizer
      then if validation.valid
        then (do
          answer ← ask (cluster.get_server upstream.meta.namespace upstream.spec.server_ref)
          on_server upstream answer)
        else update_status_condition upstream condition_ready condition_false reason_failed
            (error_messages validation)
      else ensure_finalizer upstream

  unfoldable pub on_answer : Answer NginxUpstream → Run W Write Verdict
  on_answer (not_found problem) = return done
  on_answer (failed problem) = return (stopped ("failed to get NginxUpstream: " <> problem))
  on_answer (found upstream) = reconcile_found upstream

  unfoldable pub reconcile : String → String → Run W Write Verdict
  reconcile namespace name = do answer ← ask (cluster.get_upstream namespace name); on_answer answer

  -- The requests for an event of a server, as namespaces and names.
  unfoldable pub find_upstreams_for_server : NginxServer → W → List (String × String)
  find_upstreams_for_server server w = elim (cluster.list_upstreams server.meta.namespace w) [
    | err problem ↦ []
    | ok upstreams ↦
        map (λ u. (u.meta.namespace, u.meta.name))
          (select (λ u. u.spec.server_ref == server.meta.name) upstreams)
  ]
