-- ===== src/Controller/Wiring/Events.antt =====
-- The events of servers that a route's reconciliation makes, and the requests that they lead to.
use nginx_operator.Base.{◌≡◌, String, true, false, is_some, List, Any, ok}
use nginx_operator.Api.Meta.{nginx_route_finalizer}
use nginx_operator.Api.Server.{NginxServer}
use nginx_operator.Api.Route.{NginxRoute}
use nginx_operator.Config.Validator.Route.{validate_nginx_route}
use nginx_operator.Controller.Cluster.{Cluster, found, Write, update_server}
use nginx_operator.Controller.Wiring.{route_wiring}
use nginx_operator.Controller.Wiring.Requests.{requests_of}
use nginx_operator.Controller.Route

module _ {W : Type 0} (cluster : Cluster W) where
  -- A route of the name, namespace and server.
  pub record IsSame (r q : NginxRoute) : Type 0 where
    pub name : q.meta.name ≡ r.meta.name
    pub namespace : q.meta.namespace ≡ r.meta.namespace
    pub server_ref : q.spec.server_ref ≡ r.spec.server_ref

  -- A request of the namespace and the name is among them.
  abbrev pub Requests : String → String → List (String × String) → Type 0
  Requests namespace name = Any {A = String × String} (λ k. (k.0 ≡ namespace) × (k.1 ≡ name))

  -- An update of a server that brings the route back: while the route is listed, the controller of
  -- routes, with the functions that it registers, gets a request for it.
  abbrev pub Reenqueues : NginxRoute → Write → Type 0
  Reenqueues r (update_server s) =
      (w : W) (routes : List NginxRoute)
      → cluster.list_routes r.meta.namespace w ≡ ok routes
      → Any (IsSame r) routes
      → Requests r.meta.namespace r.meta.name (requests_of cluster route_wiring s w)
  Reenqueues r _ = ⊥

  -- A route that is ready to be served, and its server, are found.
  pub record IsServed (r : NginxRoute) (s : NginxServer) (w : W) : Type 0 where
    pub read : cluster.get_route r.meta.namespace r.meta.name w ≡ found r
    pub live : is_some r.meta.deletion_timestamp ≡ false
    pub held : cluster.contains_finalizer r.meta nginx_route_finalizer ≡ true
    pub valid : (validate_nginx_route r).valid ≡ true
    pub server_read : cluster.get_server r.meta.namespace r.spec.server_ref w ≡ found s
    pub server_space : s.meta.namespace ≡ r.meta.namespace
    pub server_name : s.meta.name ≡ r.spec.server_ref
