-- ===== src/Controller/Server/Status.antt =====
-- The status of an NginxServer in internal/controller/nginxserver_controller.go.
pub mod Laws
use Prim.Native.Nat.{◌^◌}
use nginx_operator.Base.{
  ℕ, ◌-◌, ◌%◌, ltb, String, Bool, true, false, ◌&&◌, Option, none, some, if◌then◌else◌,
}
use nginx_operator.Base.Int.{ℤ, pos, negsuc, is_positive, eqb_ℤ}
use nginx_operator.Api.Meta.{
  Time, condition_ready, condition_config_valid, condition_config_applied, condition_true,
  condition_false, reason_reconciled, reason_deployment_not_ready, reason_config_generated,
  reason_config_applied,
}
use nginx_operator.Api.Server.{NginxServer, NginxServerStatus}
use nginx_operator.Nginx.Objects.{Deployment}
use nginx_operator.Nginx.Labels.{deployment_name}
use nginx_operator.Controller.Conditions.{set_condition}
use nginx_operator.Controller.Run.{Run, return, ask, ◌>>=◌}
use nginx_operator.Controller.Cluster.{
  Cluster, Verdict, Answer, found, not_found, failed, Write, update_server_status, send, read_clock,
}

-- `int32(n)` of a length
abbrev pub to_int32 : ℕ → ℤ
to_int32 n = let m = n % 2 ^ 32 in if ltb m 0x80000000 then pos m else negsuc (0xffffffff - m)

-- `deployReady`: false if the Deployment was not read
unfoldable pub deploy_ready : Answer Deployment → Bool
deploy_ready (found d) =
    is_positive d.status.ready_replicas && eqb_ℤ d.status.ready_replicas d.status.replicas
deploy_ready (not_found problem) = false
deploy_ready (failed problem) = false

-- The replica counts, which stay as they are if the Deployment was not read.
unfoldable pub with_replicas : Answer Deployment → NginxServerStatus → NginxServerStatus
with_replicas (found d) s = record s {
  ready_replicas = d.status.ready_replicas;
  available_replicas = d.status.available_replicas;
}
with_replicas (not_found problem) s = s
with_replicas (failed problem) s = s

-- `setCondition` on the status of a server, at the generation of the server.
unfoldable pub with_condition : Time → String → String → String → String → NginxServer → NginxServer
with_condition now type status reason message server =
    let old = server.status in
    record server {
      status = record old {
        conditions =
            set_condition now type status reason message server.meta.generation old.conditions;
      };
    }

-- The fields that `updateStatus` sets before the conditions.
unfoldable pub with_observed : Answer Deployment → String → ℕ → ℕ → Time → NginxServer → NginxServer
with_observed answer config_hash route_count upstream_count now server =
    let counted = with_replicas answer server.status in
    record server {
      status = record counted {
        config_hash = config_hash;
        observed_generation = server.meta.generation;
        route_count = to_int32 route_count;
        upstream_count = to_int32 upstream_count;
        last_reload_time = some now;
      };
    }

unfoldable pub with_ready : Bool → Time → NginxServer → NginxServer
with_ready ready now server =
    if ready
    then with_condition now condition_ready condition_true reason_reconciled
        "NginxServer is fully reconciled and ready" server
    else with_condition now condition_ready condition_false reason_deployment_not_ready
        "Deployment is not yet ready" server

module _ {W : Type 0} (cluster : Cluster W) where
  unfoldable pub update_status : NginxServer → String → ℕ → ℕ → Run W Write Verdict
  update_status server config_hash route_count upstream_count = do
    answer ← ask (cluster.get_deployment server.meta.namespace (deployment_name server))
    now ← read_clock cluster
    let observed = with_observed answer config_hash route_count upstream_count now server
    t1 ← read_clock cluster
    let s1 = with_ready (deploy_ready answer) t1 observed
    t2 ← read_clock cluster
    let s2 =
        with_condition t2 condition_config_valid condition_true reason_config_generated
          "Configuration generated successfully" s1
    t3 ← read_clock cluster
    let s3 =
        with_condition t3 condition_config_applied condition_true reason_config_applied
          "Configuration applied to ConfigMap" s2
    problem ← send cluster (update_server_status s3)
    return (elim problem [
      | some p ↦ record { requeue = false; requeue_after = 5; error = some p }
      | none ↦ record {
        requeue = false;
        requeue_after = if deploy_ready answer then 0 else 10;
        error = none;
      }
    ])

  unfoldable pub update_status_condition :
      NginxServer → String → String → String → String → Run W Write Verdict
  update_status_condition server type status reason message = do
    now ← read_clock cluster
    problem ←
        send cluster (update_server_status (with_condition now type status reason message server))
    return (elim problem [
      | some p ↦ record { requeue = false; requeue_after = 5; error = some p }
      | none ↦ record { requeue = false; requeue_after = 0; error = none }
    ])
