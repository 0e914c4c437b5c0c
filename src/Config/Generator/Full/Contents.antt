-- ===== src/Config/Generator/Full/Contents.antt =====
-- What the text of `GenerateFullConfig` of internal/config/generator.go holds.
use nginx_operator.Base.{
  wrap, sym, ◌≡◌, refl, String, ◌<>◌, List, [], ◌∷◌, ok, All, All-map, map, >>=-eq-ok, wrap-eq-ok,
  ok-injective, subst,
}
use nginx_operator.Base.Dict.{Dict, insert}
use nginx_operator.Base.Sort.{All-sort_slice}
use nginx_operator.Api.Server.{NginxServer}
use nginx_operator.Api.Route.{NginxRoute}
use nginx_operator.Api.Upstream.{NginxUpstream}
use nginx_operator.Config.Templates.Text.Contains.{
  Contains, Contains-first, Contains-behind, Contains-before,
}
use nginx_operator.Config.Templates.Main.{main_config_template}
use nginx_operator.Config.Templates.Upstream.{upstream_config_template}
use nginx_operator.Config.Generator.Main.{generate_main_config, main_config_data}
use nginx_operator.Config.Generator.Route.{generate_route_config}
use nginx_operator.Config.Generator.Upstream.{
  generate_upstream_config, upstream_block_name, upstream_config_data,
}
use nginx_operator.Config.Generator.Full.{
  upstream_blocks, by_priority, sorted_routes, server_blocks, write_all, section, assemble,
  generate_full_config,
}

write_all-Contains : (confs : List String) → All (λ c. Contains c (write_all confs)) confs
unfolding write_all
write_all-Contains [] = tt
write_all-Contains (c ∷ cs) = (
  Contains-first c ("\n" <> write_all cs),
  All-map (λ d h. Contains-behind c d (Contains-behind "\n" d h)) cs (write_all-Contains cs),
)

section-Contains :
    (title : String) (confs : List String) → All (λ c. Contains c (section title confs)) confs
unfolding section
section-Contains title [] = tt
section-Contains title (c ∷ cs) =
    All-map (λ d h. Contains-behind title d h) (c ∷ cs) (write_all-Contains (c ∷ cs))

-- The block of an upstream.
abbrev pub upstream_text : NginxUpstream → String
upstream_text u = upstream_config_template (upstream_config_data u)

upstream_blocks-texts :
    (m : Dict String) (us : List NginxUpstream)
    → (m' : Dict String) × (upstream_blocks m us ≡ ok (m', map upstream_text us))
unfolding upstream_blocks generate_upstream_config
upstream_blocks-texts m [] = (m, refl)
upstream_blocks-texts m (u ∷ us) =
    let (m', e) = upstream_blocks-texts (insert u.meta.name (upstream_block_name u) m) us in
    (m', rw e refl)

All-unmap :
    {A : Type 0} (P : String → Type 0) (f : A → String) (xs : List A)
    → All P (map f xs)
    → All (λ x. P (f x)) xs
All-unmap P f [] h = tt
All-unmap P f (x ∷ xs) (p, h) = (p, All-unmap P f xs h)

-- The block of a route, and where it stands.
abbrev pub RouteIn : Dict String → String → NginxRoute → Type 0
RouteIn m text r = (conf : String) × (generate_route_config r m ≡ ok conf) × Contains conf text

server_blocks-RouteIn :
    (m : Dict String) (text : String) (rs : List NginxRoute) {confs : List String}
    → server_blocks m rs ≡ ok confs
    → All (λ c. Contains c text) confs
    → All (RouteIn m text) rs
unfolding server_blocks
server_blocks-RouteIn m text [] e h = tt
server_blocks-RouteIn m text (r ∷ rs) {confs} e h =
    let (conf, here, later) = >>=-eq-ok (wrap _ (generate_route_config r m)) _ e in
    let (rest, there, last) = >>=-eq-ok (server_blocks m rs) _ later in
    let (p, q) = subst (All (λ c. Contains c text)) (sym (ok-injective last)) h in
    (
      (conf, wrap-eq-ok _ (generate_route_config r m) here, p),
      server_blocks-RouteIn m text rs there q,
    )

-- The assembled text holds the main configuration and all blocks.
assemble-Contains :
    (main_conf : String) (upstream_confs route_confs : List String)
    → let text = assemble main_conf upstream_confs route_confs in
      Contains main_conf text
      × All (λ c. Contains c text) upstream_confs
      × All (λ c. Contains c text) route_confs
unfolding assemble
assemble-Contains main_conf upstream_confs route_confs = (
  Contains-first main_conf _,
  All-map (λ c h. Contains-behind main_conf c (Contains-behind "\n" c (Contains-before c _ h)))
      upstream_confs (section-Contains _ upstream_confs),
  All-map (λ c h. Contains-behind main_conf c (Contains-behind "\n" c (Contains-behind _ c h)))
      route_confs (section-Contains _ route_confs),
)

-- A configuration that is generated holds the main configuration, the block of every upstream, and
-- for every route the block that is generated for it with the names of these upstreams.
pub generate_full_config-Contains :
    (server : NginxServer) (routes : List NginxRoute) (upstreams : List NginxUpstream)
    {text : String}
    → generate_full_config server routes upstreams ≡ ok text
    → Contains (main_config_template (main_config_data server)) text
      × All (λ u. Contains (upstream_text u) text) upstreams
      × ((upstream_map : Dict String) × (confs : List String) × (upstream_blocks [] upstreams
            ≡ ok (upstream_map, confs))
          × All (RouteIn upstream_map text) routes)
unfolding generate_full_config generate_main_config sorted_routes
generate_full_config-Contains server routes upstreams {text} e =
    let (m, blocks) = upstream_blocks-texts [] upstreams in
    let (confs, found, same) =
      >>=-eq-ok (server_blocks m (sorted_routes routes)) _ (rw blocks at e) in
    let (main_in, upstreams_in, routes_in) =
      subst
        (λ t.
          Contains (main_config_template (main_config_data server)) t
          × All (λ c. Contains c t) (map upstream_text upstreams)
          × All (λ c. Contains c t) confs)
        (ok-injective same)
        (assemble-Contains (main_config_template (main_config_data server))
          (map upstream_text upstreams) confs) in
    (
      main_in,
      All-unmap _ upstream_text upstreams upstreams_in,
      (
        m,
        map upstream_text upstreams,
        blocks,
        (All-sort_slice by_priority (RouteIn m text) routes).0
            (server_blocks-RouteIn m text (sorted_routes routes) found routes_in),
      ),
    )
