-- ===== src/Controller/Wiring.antt =====
-- The `SetupWithManager` functions of internal/controller: what each controller is told to watch.
pub mod Requests
pub mod Events
use nginx_operator.Base.{List, [], ◌∷◌}

-- The kinds of objects of which controllers hear.
pub data Kind : Type 0 where
  server route upstream deployment service config_map : Kind

-- The functions that map an event of a server to requests.
pub data Mapping : Type 0 where
  routes_for_server upstreams_for_server : Mapping

-- The calls on the builder: `For`, each `Owns`, each `Watches` with its function.
pub record Wiring : Type 0 where
  pub for_kind : Kind
  pub owns : List Kind
  pub watches : List (Kind × Mapping)

abbrev pub server_wiring : Wiring
server_wiring = record {
  for_kind = server;
  owns = deployment ∷ service ∷ config_map ∷ [];
  watches = [];
}

abbrev pub route_wiring : Wiring
route_wiring = record { for_kind = route; owns = []; watches = (server, routes_for_server) ∷ [] }

abbrev pub upstream_wiring : Wiring
upstream_wiring = record {
  for_kind = upstream;
  owns = [];
  watches = (server, upstreams_for_server) ∷ [];
}
