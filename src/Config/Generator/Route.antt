-- ===== src/Config/Generator/Route.antt =====
-- `GenerateRouteConfig` of internal/config/generator.go.
pub mod Laws
use nginx_operator.Base.{
  String, ◌<>◌, ◌==◌, Bool, true, false, List, [], ◌∷◌, Option, none, some, Result, ok, err, ◌>>=◌,
  if◌then◌else◌,
}
use nginx_operator.Base.Int.{pos, is_positive}
use nginx_operator.Base.Text.{quote, replace_char}
use nginx_operator.Base.Dict.{Dict, lookup}
use nginx_operator.Api.Route.{NginxRoute, NginxLocationSpec, NginxRateLimitSpec, NginxListenSpec}
use nginx_operator.Config.Data.{RouteConfigData, LocationData}
use nginx_operator.Config.Generator.Names.{sanitize_name}
use nginx_operator.Config.Generator.Main.{given_number}
use nginx_operator.Config.Templates.Route.{route_config_template}

-- `RateLimit != nil && RateLimit.Enabled`
abbrev pub limits : Option NginxRateLimitSpec → Bool
limits none = false
limits (some limit) = limit.enabled

-- The upstream name that a location ends with; without a reference it stays empty.
unfoldable pub resolve_upstream : Dict String → String → Result String
resolve_upstream upstream_map ref = if ref == "" then ok "" else elim (lookup ref upstream_map) [
  | some name ↦ ok name
  | none ↦ err ("upstream reference " <> quote ref <> " not found in upstream map")
]

-- The rate limit zone of a location.
unfoldable pub location_zone : NginxRoute → NginxLocationSpec → String
location_zone route loc =
    if limits loc.rate_limit
    then sanitize_name
        (route.meta.namespace <> "-" <> route.meta.name <> "-" <> replace_char b'/' "_" loc.path)
    else ""

-- The composite literal of a location, with the name that its reference resolves to.
unfoldable pub location_with : NginxRoute → NginxLocationSpec → String → LocationData
location_with route loc name = record {
  path = loc.path;
  upstream_name = name;
  proxy_pass = loc.proxy_pass;
  static_content = loc.static_content;
  return = loc.return;
  proxy_settings = loc.proxy_settings;
  rate_limit = loc.rate_limit;
  headers = loc.headers;
  custom_location_snippet = loc.custom_location_snippet;
  rate_limit_zone_name = location_zone route loc;
}

-- One round of the loop over the locations.
unfoldable pub location_data : NginxRoute → Dict String → NginxLocationSpec → Result LocationData
location_data route upstream_map loc = do
  name ← resolve_upstream upstream_map loc.upstream_ref
  ok (location_with route loc name)

unfoldable pub locations_data :
    NginxRoute → Dict String → List NginxLocationSpec → Result (List LocationData)
locations_data route upstream_map [] = ok []
locations_data route upstream_map (loc ∷ locs) = do
  data_ ← location_data route upstream_map loc
  rest ← locations_data route upstream_map locs
  ok (data_ ∷ rest)

-- The composite literal, the listen configuration and the zone name.
unfoldable pub route_config_data : NginxRoute → List LocationData → RouteConfigData
route_config_data route locations = record {
  server_name = route.spec.server_name;
  listen_port = elim route.spec.listen [
    | none ↦ pos 80
    | some listen ↦ given_number listen.port (pos 80)
  ];
  https_port = elim route.spec.listen [
    | none ↦ pos 443
    | some listen ↦ given_number listen.https_port (pos 443)
  ];
  proxy_protocol = elim route.spec.listen [ none ↦ false | some listen ↦ listen.proxy_protocol ];
  tls = route.spec.tls;
  locations = locations;
  rate_limit = route.spec.rate_limit;
  access_control = route.spec.access_control;
  headers = route.spec.headers;
  cors = route.spec.cors;
  custom_server_snippet = route.spec.custom_server_snippet;
  rate_limit_zone_name =
      if limits route.spec.rate_limit
      then sanitize_name (route.meta.namespace <> "-" <> route.meta.name)
      else "";
}

unfoldable pub generate_route_config : NginxRoute → Dict String → Result String
generate_route_config route upstream_map = do
  locations ← locations_data route upstream_map route.spec.locations
  ok (route_config_template (route_config_data route locations))
