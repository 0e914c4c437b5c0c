-- ===== src/Config/Generator/Full.antt =====
-- `GenerateFullConfig` and `Hash` of internal/config/generator.go.
pub mod Laws
pub mod Contents
pub mod Linked
use nginx_operator.Base.{
  String, ◌<>◌, Bool, List, [], ◌∷◌, Result, ok, err, ◌>>=◌, wrap, if◌then◌else◌, is_cons,
}
use nginx_operator.Base.Int.{ltb_ℤ}
use nginx_operator.Base.Dict.{Dict, insert}
use nginx_operator.Base.Sort.{sort_slice}
use nginx_operator.Api.Server.{NginxServer}
use nginx_operator.Api.Route.{NginxRoute}
use nginx_operator.Api.Upstream.{NginxUpstream}
use nginx_operator.Config.Generator.Main.{generate_main_config}
use nginx_operator.Config.Generator.Route.{generate_route_config}
use nginx_operator.Config.Generator.Upstream.{generate_upstream_config}

-- The loop over the upstreams: the name map, which later upstreams overwrite, and the texts.
unfoldable pub upstream_blocks :
    Dict String → List NginxUpstream → Result (Dict String × List String)
upstream_blocks upstream_map [] = ok (upstream_map, [])
upstream_blocks upstream_map (u ∷ us) = do
  (name, conf) ←
      wrap ("failed to generate upstream config for " <> u.meta.namespace <> "/" <> u.meta.name)
        (generate_upstream_config u)
  (final_map, confs) ← upstream_blocks (insert u.meta.name name upstream_map) us
  ok (final_map, conf ∷ confs)

abbrev pub by_priority : NginxRoute → NginxRoute → Bool
by_priority r q = ltb_ℤ r.spec.priority q.spec.priority

unfoldable pub sorted_routes : List NginxRoute → List NginxRoute
unfolding sort_slice
sorted_routes = sort_slice by_priority

-- The loop over the sorted routes.
unfoldable pub server_blocks : Dict String → List NginxRoute → Result (List String)
server_blocks upstream_map [] = ok []
server_blocks upstream_map (r ∷ rs) = do
  conf ←
      wrap ("failed to generate route config for " <> r.meta.namespace <> "/" <> r.meta.name)
        (generate_route_config r upstream_map)
  confs ← server_blocks upstream_map rs
  ok (conf ∷ confs)

-- The writes of one loop over rendered blocks.
unfoldable pub write_all : List String → String
write_all [] = ""
write_all (conf ∷ confs) = conf <> "\n" <> write_all confs

-- A section of the assembled file, which an empty list leaves out.
unfoldable pub section : String → List String → String
unfolding write_all
section title confs = if is_cons confs then title <> write_all confs else ""

unfoldable pub assemble : String → List String → List String → String
unfolding section
assemble main_conf upstream_confs route_confs =
    main_conf
    <> "\n"
    <> section "# --- Upstream Blocks ---\n" upstream_confs
    <> section "# --- Server Blocks ---\n" route_confs

unfoldable pub generate_full_config :
    NginxServer → List NginxRoute → List NginxUpstream → Result String
generate_full_config server routes upstreams = do
  main_conf ← wrap "failed to generate main config" (generate_main_config server)
  (upstream_map, upstream_confs) ← upstream_blocks [] upstreams
  route_confs ← server_blocks upstream_map (sorted_routes routes)
  ok (assemble main_conf upstream_confs route_confs)

-- `Hash`, over the sum in lower-case hexadecimal digits
unfoldable pub hash : (String → String) → String → String
hash sha256_hex content = sha256_hex content
