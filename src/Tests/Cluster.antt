-- ===== src/Tests/Cluster.antt =====
-- A cluster that keeps the objects that are written, for the instances of internal/controller.
use nginx_operator.Base.{
  ap, sym, ◌∙◌, some, ◌≢◌, ok-injective, ◌≡◌, refl, String, ◌==◌, eq_iff, eq_refl, Bool, true,
  false, ◌&&◌, ◌||◌, if◌then◌else◌, List, [], ◌∷◌, Option, none, ok, arith,
}
use nginx_operator.Base.Dict.{Dict}
use nginx_operator.Base.Text.{show}
use nginx_operator.Api.Meta.{
  nginx_route_finalizer, nginx_upstream_finalizer, nginx_server_finalizer,
}
use nginx_operator.Api.Server.{NginxServer}
use nginx_operator.Api.Route.{NginxRoute}
use nginx_operator.Api.Upstream.{NginxUpstream}
use nginx_operator.Nginx.Objects.{ConfigMap, Deployment, DeploymentSpec, Service, ServicePort}
use nginx_operator.Controller.Cluster.{
  Cluster, Answer, found, not_found, failed, Write, create_config_map, update_config_map,
  create_deployment, update_deployment, create_service, update_service,
}
use nginx_operator.Controller.Server.Objects.Settled.{KeepsConfigMaps}
use nginx_operator.Controller.Wiring.{Kind}
use nginx_operator.Controller.Server.Reconcile.Frame.{kind_of, IsApart}
use nginx_operator.Controller.Server.Reconcile.Realised.{IsKeeping}
use nginx_operator.Controller.Server.Reconcile.Rest.{IsReflexive}
use nginx_operator.Controller.Server.Reconcile.Settles.{Completes}
use nginx_operator.Base.Int.{eqb_ℤ, eqb_ℤ_iff}
use nginx_operator.Api.Meta.{ObjectMeta}
use nginx_operator.Tests.Samples.{edge, shop, api}

-- `edge` with its finalizer
abbrev pub served : NginxServer
served = record edge { meta = record edge.meta { finalizers = nginx_server_finalizer ∷ [] } }

-- `shop` and `api` with their finalizers
abbrev pub bound : NginxRoute
bound = record shop { meta = record shop.meta { finalizers = nginx_route_finalizer ∷ [] } }

abbrev pub pooled : NginxUpstream
pooled = record api { meta = record api.meta { finalizers = nginx_upstream_finalizer ∷ [] } }

abbrev member : String → List String → Bool
member f [] = false
member f (g ∷ gs) = f == g || member f gs

abbrev same_entries : Dict String → Dict String → Bool
same_entries [] [] = true
same_entries ((j, v) ∷ m) ((k, w) ∷ n) = j == k && v == w && same_entries m n
same_entries _ _ = false

same_entries_self : (m : Dict String) → same_entries m m ≡ true
same_entries_self [] = refl
same_entries_self ((k, v) ∷ m) = rw (eq_refl k, eq_refl v) (same_entries_self m)

abbrev same_option : Option String → Option String → Bool
same_option none none = true
same_option (some a) (some b) = a == b
same_option _ _ = false

-- Two specifications with the same security context and the same annotations of the pods
abbrev same_specs : DeploymentSpec → DeploymentSpec → Bool
same_specs d e =
    same_option d.pod.security_context e.pod.security_context
    && same_entries d.template_annotations e.template_annotations

abbrev same_ports : List ServicePort → List ServicePort → Bool
same_ports [] [] = true
same_ports (p ∷ ps) (q ∷ qs) =
    p.name == q.name
    && eqb_ℤ p.port q.port
    && eqb_ℤ p.target_port q.target_port
    && p.protocol == q.protocol
    && same_ports ps qs
same_ports _ _ = false

same_ports_self : (ps : List ServicePort) → same_ports ps ps ≡ true
same_ports_self [] = refl
same_ports_self (p ∷ ps) =
    rw
      (
        eq_refl p.name,
        (eqb_ℤ_iff p.port p.port).1 refl,
        (eqb_ℤ_iff p.target_port p.target_port).1 refl,
        eq_refl p.protocol,
      )
      (same_ports_self ps)

-- An empty security context where a specification has none
abbrev pub with_context : DeploymentSpec → DeploymentSpec
with_context spec =
    let pod = spec.pod in
    record spec {
      pod = record pod {
        security_context =
            some (elim pod.security_context [ none ↦ "{}" | some context ↦ context ]);
      };
    }

-- A Deployment as it is handed out
abbrev handed_out : (DeploymentSpec → DeploymentSpec) → Answer Deployment → Answer Deployment
handed_out complete (found d) = found (record d { spec = complete d.spec })
handed_out complete (not_found problem) = not_found problem
handed_out complete (failed problem) = failed problem

-- The objects that were written, the last first.
pub record Store : Type 0 where
  pub config_maps : List ConfigMap
  pub deployments : List Deployment
  pub services : List Service

abbrev pub empty : Store
empty = record { config_maps = []; deployments = []; services = [] }

module _ {A : Type 0} (meta_of : A → ObjectMeta) where
  abbrev read : String → String → List A → Answer A
  read namespace name [] = not_found "not found"
  read namespace name (a ∷ more) =
      let rest = read namespace name more in
      if (meta_of a).namespace == namespace && (meta_of a).name == name then found a else rest

  read_first :
      (a : A) (more : List A) → read (meta_of a).namespace (meta_of a).name (a ∷ more) ≡ found a
  read_first a more = rw (eq_refl (meta_of a).namespace, eq_refl (meta_of a).name) refl

  read_named :
      (namespace name : String) (a : A) (kept : List A)
      → read namespace name kept ≡ found a
      → ((meta_of a).namespace ≡ namespace) × ((meta_of a).name ≡ name)
  read_named namespace name a [] e = cc
  read_named namespace name a (b ∷ kept) e = ground (
    arith,
    eq_iff (meta_of b).namespace namespace,
    eq_iff (meta_of b).name name,
    read_named namespace name a kept,
  )

abbrev write_to : Write → Store → Store × Option String
write_to (create_config_map cm) w = (record w { config_maps = cm ∷ w.config_maps }, none)
write_to (update_config_map cm) w = (record w { config_maps = cm ∷ w.config_maps }, none)
write_to (create_deployment d) w = (record w { deployments = d ∷ w.deployments }, none)
write_to (update_deployment d) w = (record w { deployments = d ∷ w.deployments }, none)
write_to (create_service s) w = (record w { services = s ∷ w.services }, none)
write_to (update_service s) w = (record w { services = s ∷ w.services }, none)
write_to _ w = (w, none)

-- `complete` fills in what a Deployment that is read leaves open.
abbrev pub cluster_with : (DeploymentSpec → DeploymentSpec) → Cluster Store
cluster_with complete = record {
  get_server = λ namespace name w. found served;
  get_route = λ namespace name w. found bound;
  get_upstream = λ namespace name w. found pooled;
  get_endpoints = λ namespace name w. found (record { subsets = ("10.0.0.7" ∷ []) ∷ [] });
  get_config_map = λ namespace name w. read (λ cm. cm.meta) namespace name w.config_maps;
  get_deployment =
      λ namespace name w. handed_out complete (read (λ d. d.meta) namespace name w.deployments);
  get_service = λ namespace name w. read (λ s. s.meta) namespace name w.services;
  list_routes = λ namespace w. ok (shop ∷ []);
  list_upstreams = λ namespace w. ok (api ∷ []);
  apply = write_to;
  clock = λ w. (w, 7);
  format_time = λ t. show t;
  contains_finalizer = λ meta f. member f meta.finalizers;
  add_finalizer = λ meta f. record meta { finalizers = f ∷ meta.finalizers };
  remove_finalizer = λ meta f. record meta { finalizers = [] };
  set_controller_reference = λ server meta. ok meta;
  equal_entries = same_entries;
  equal_deployment_specs = same_specs;
  equal_ports = same_ports;
  sha256_hex = λ text. text;
}

abbrev pub cluster : Cluster Store
cluster = cluster_with (λ spec. spec)

pub cluster-KeepsConfigMaps :
    (complete : DeploymentSpec → DeploymentSpec) → KeepsConfigMaps (cluster_with complete)
cluster-KeepsConfigMaps complete = record {
  created = λ cm w e. rw (read_first (λ c. c.meta) cm w.config_maps) (same_entries_self cm.entries);
  updated = λ cm w e. rw (read_first (λ c. c.meta) cm w.config_maps) (same_entries_self cm.entries);
  named = λ namespace name cm w. read_named (λ c. c.meta) namespace name cm w.config_maps;
}

config_maps-IsApart :
    (complete : DeploymentSpec → DeploymentSpec)
    → IsApart (cluster_with complete) Kind.config_map (cluster_with complete).get_config_map
config_maps-IsApart complete = (by_write, λ w namespace name. refl)
  where
    by_write :
        (write : Write) (w : Store) (namespace name : String)
        → kind_of write ≢ Kind.config_map
        → (cluster_with complete).get_config_map namespace name
            ((cluster_with complete).apply write w).0
          ≡ (cluster_with complete).get_config_map namespace name w
    by_write (create_config_map cm) w namespace name h = absurd (h refl)
    by_write (update_config_map cm) w namespace name h = absurd (h refl)
    by_write _ w namespace name h = refl

deployments-IsApart :
    (complete : DeploymentSpec → DeploymentSpec)
    → IsApart (cluster_with complete) Kind.deployment (cluster_with complete).get_deployment
deployments-IsApart complete = (by_write, λ w namespace name. refl)
  where
    by_write :
        (write : Write) (w : Store) (namespace name : String)
        → kind_of write ≢ Kind.deployment
        → (cluster_with complete).get_deployment namespace name
            ((cluster_with complete).apply write w).0
          ≡ (cluster_with complete).get_deployment namespace name w
    by_write (create_deployment d) w namespace name h = absurd (h refl)
    by_write (update_deployment d) w namespace name h = absurd (h refl)
    by_write _ w namespace name h = refl

services-IsApart :
    (complete : DeploymentSpec → DeploymentSpec)
    → IsApart (cluster_with complete) Kind.service (cluster_with complete).get_service
services-IsApart complete = (by_write, λ w namespace name. refl)
  where
    by_write :
        (write : Write) (w : Store) (namespace name : String)
        → kind_of write ≢ Kind.service
        → (cluster_with complete).get_service namespace name
            ((cluster_with complete).apply write w).0
          ≡ (cluster_with complete).get_service namespace name w
    by_write (create_service s) w namespace name h = absurd (h refl)
    by_write (update_service s) w namespace name h = absurd (h refl)
    by_write _ w namespace name h = refl

-- The metadata and the specification of what is found
abbrev meta_of_answer : ObjectMeta → Answer Deployment → ObjectMeta
meta_of_answer other (found d) = d.meta
meta_of_answer other _ = other

abbrev spec_of_answer : DeploymentSpec → Answer Deployment → DeploymentSpec
spec_of_answer other (found d) = d.spec
spec_of_answer other _ = other

handed_out_named :
    (complete : DeploymentSpec → DeploymentSpec) (answer : Answer Deployment)
    (namespace name : String) {d : Deployment}
    → ((raw : Deployment)
        → answer ≡ found raw
        → (raw.meta.namespace ≡ namespace) × (raw.meta.name ≡ name))
    → handed_out complete answer ≡ found d
    → (d.meta.namespace ≡ namespace) × (d.meta.name ≡ name)
handed_out_named complete (found raw) namespace name named e =
    let (space, key) = named raw refl in
    let meta = ap (meta_of_answer raw.meta) e in
    (sym (ap (λ m. m.namespace) meta) ∙ space, sym (ap (λ m. m.name) meta) ∙ key)
handed_out_named complete (not_found problem) namespace name named e = cc
handed_out_named complete (failed problem) namespace name named e = cc

handed_out_complete :
    (complete : DeploymentSpec → DeploymentSpec) (answer : Answer Deployment) (d : Deployment)
    → handed_out complete answer ≡ found d
    → (spec : DeploymentSpec) × (d.spec ≡ complete spec)
handed_out_complete complete (found raw) d e = (raw.spec, ap (spec_of_answer d.spec) (sym e))
handed_out_complete complete (not_found problem) d e = cc
handed_out_complete complete (failed problem) d e = cc

pub cluster-IsKeeping :
    (complete : DeploymentSpec → DeploymentSpec) → IsKeeping (cluster_with complete) complete
cluster-IsKeeping complete = record {
  keys = λ server meta meta' e. let same = ok-injective e in (rw same refl, rw same refl);
  config_maps = cluster-KeepsConfigMaps complete;
  deployments = record {
    created = λ d w e. rw (read_first (λ x. x.meta) d w.deployments) refl;
    updated = λ d w e. rw (read_first (λ x. x.meta) d w.deployments) refl;
    named = λ namespace name d w.
        handed_out_named complete _ namespace name
          (λ raw. read_named (λ x. x.meta) namespace name raw w.deployments);
  };
  services = record {
    created = λ s w e. rw (read_first (λ x. x.meta) s w.services) (refl, refl, refl);
    updated = λ s w e. rw (read_first (λ x. x.meta) s w.services) (refl, refl, refl);
    named = λ namespace name s w. read_named (λ x. x.meta) namespace name s w.services;
  };
  config_maps_apart = config_maps-IsApart complete;
  deployments_apart = deployments-IsApart complete;
  services_apart = services-IsApart complete;
}

pub cluster-IsReflexive :
    (complete : DeploymentSpec → DeploymentSpec) → IsReflexive (cluster_with complete)
cluster-IsReflexive complete = record { ports = same_ports_self; entries = same_entries_self }

pub cluster-Completes :
    (wanted : DeploymentSpec)
    → wanted.pod.security_context ≡ none
    → Completes (cluster_with with_context) with_context wanted
cluster-Completes wanted open_ = record {
  completed = λ namespace name kept w. handed_out_complete with_context _ kept;
  told_apart = λ spec. rw open_ refl;
}
