-- ===== src/Tests/Requeue.antt =====
-- Two reconciliations of a server without its finalizer, one after the other.
use nginx_operator.Api.Server.{NginxServer}
use nginx_operator.Controller.Cluster.{found, Cluster, not_found, update_server}
use nginx_operator.Controller.Server.Reconcile.{ensure_finalizer}
use nginx_operator.Controller.Server.Reconcile.Requeue.{KeepsFinalizers, reconcile_requeues_once}
use nginx_operator.Tests.Samples.{edge}
use nginx_operator.Base.{◌==◌, ◌&&◌, eq_iff, eq_refl, if◌then◌else◌, arith}
use nginx_operator.Controller.Run.{return, ask, ◌>>=◌}
use nginx_operator.Controller.Cluster.{send}
use nginx_operator.Controller.Verdicts.{unless_failed}
use nginx_operator.Controller.Server.Reconcile.{on_answer, reconcile_found}
use nginx_operator.Base.{◌≡◌, refl, [], false, none, ok}
use nginx_operator.Controller.Server.Reconcile.{reconcile}
use nginx_operator.Tests.Cluster.{cluster}

-- A cluster with one server, which an update replaces
abbrev one_server : Cluster NginxServer
one_server = record {
  get_server = λ namespace name w.
      if w.meta.namespace == namespace && w.meta.name == name then found w else not_found "gone";
  get_route = λ namespace name w. not_found "gone";
  get_upstream = λ namespace name w. not_found "gone";
  get_endpoints = λ namespace name w. not_found "gone";
  get_config_map = λ namespace name w. not_found "gone";
  get_deployment = λ namespace name w. not_found "gone";
  get_service = λ namespace name w. not_found "gone";
  list_routes = λ namespace w. ok [];
  list_upstreams = λ namespace w. ok [];
  apply = λ write w. elim write [ update_server s ↦ (s, none) | _ ↦ (w, none) ];
  clock = λ w. (w, 7);
  format_time = cluster.format_time;
  contains_finalizer = cluster.contains_finalizer;
  add_finalizer = cluster.add_finalizer;
  remove_finalizer = cluster.remove_finalizer;
  set_controller_reference = cluster.set_controller_reference;
  equal_entries = cluster.equal_entries;
  equal_deployment_specs = cluster.equal_deployment_specs;
  equal_ports = cluster.equal_ports;
  sha256_hex = cluster.sha256_hex;
}

one_server-KeepsFinalizers : KeepsFinalizers one_server
one_server-KeepsFinalizers = record {
  added = λ s w e. rw (eq_refl s.meta.namespace, eq_refl s.meta.name) refl;
  named = λ namespace name s w e.
      ground (arith, eq_iff w.meta.namespace namespace, eq_iff w.meta.name name);
}

reconcile_requeues_once_example :
    (reconcile one_server "" "v1.0.0" "prod" "edge"
      (reconcile one_server "" "v1.0.0" "prod" "edge" edge).world).value.requeue
    ≡ false
unfolding reconcile on_answer reconcile_found ensure_finalizer unless_failed ◌>>=◌ ask send return
reconcile_requeues_once_example =
    reconcile_requeues_once one_server one_server-KeepsFinalizers "" "v1.0.0" "prod" "edge" edge
      refl
