-- ===== src/Controller/Wiring/Requests.antt =====
-- The functions that the `SetupWithManager` functions of internal/controller register for events of
-- servers, and the requests that they give.
use nginx_operator.Base.{String, Bool, true, false, List, [], ◌∷◌, ◌++◌, if◌then◌else◌}
use nginx_operator.Api.Server.{NginxServer}
use nginx_operator.Controller.Cluster.{Cluster}
use nginx_operator.Controller.Route.{find_routes_for_server}
use nginx_operator.Controller.Upstream.Reconcile.{find_upstreams_for_server}
use nginx_operator.Controller.Wiring.{
  Kind, Mapping, routes_for_server, upstreams_for_server, Wiring,
}

abbrev is_server : Kind → Bool
is_server Kind.server = true
is_server _ = false

module _ {W : Type 0} (cluster : Cluster W) where
  -- The function that is registered.
  unfoldable pub mapped : Mapping → NginxServer → W → List (String × String)
  mapped routes_for_server server w = find_routes_for_server cluster server w
  mapped upstreams_for_server server w = find_upstreams_for_server cluster server w

  -- For an event of a server: what each function gives that is registered for servers.
  unfoldable pub requests_from : List (Kind × Mapping) → NginxServer → W → List (String × String)
  unfolding mapped
  requests_from [] server w = []
  requests_from ((kind, mapping) ∷ watches) server w =
      let rest = requests_from watches server w in
      if is_server kind then mapped mapping server w ++ rest else rest

  -- The requests that a controller with this wiring gets for an event of a server.
  unfoldable pub requests_of : Wiring → NginxServer → W → List (String × String)
  unfolding requests_from
  requests_of wiring server w = requests_from wiring.watches server w
