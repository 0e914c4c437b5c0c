-- ===== src/Config/Generator/Full/Linked.antt =====
-- How the locations of the text of `GenerateFullConfig` of internal/config/generator.go meet its
-- upstream blocks.
use package.text.Mathlib.TextLemmas.{cons-append, nil-append}
use nginx_operator.Base.{
  ◌≡◌, refl, ◌≢◌, sym, subst, inl, inr, String, ◌<>◌, true, List, [], ◌∷◌, ok, All, All-map, Any,
}
use nginx_operator.Base.Text.{is_nonempty}
use nginx_operator.Base.Dict.{Dict}
use nginx_operator.Api.Server.{NginxServer}
use nginx_operator.Api.Route.{NginxRoute, NginxLocationSpec}
use nginx_operator.Api.Upstream.{NginxUpstream}
use nginx_operator.Config.Data.{LocationData, RouteConfigData}
use nginx_operator.Config.Templates.Text.{text, range}
use nginx_operator.Config.Templates.Text.Contains.{
  Contains, Contains-trans, text-Contains, spliced-Contains, piece-Contains, range-Contains,
}
use nginx_operator.Config.Templates.Location.{location_target, location_block}
use nginx_operator.Config.Templates.Route.{route_config_template}
use nginx_operator.Config.Templates.Upstream.{backend_line, upstream_config_template}
use nginx_operator.Config.Generator.Names.{sanitize_name}
use nginx_operator.Config.Generator.Route.{route_config_data}
use nginx_operator.Config.Generator.Route.Laws.{
  IsResolved, AllResolved, generate_route_config-AllResolved,
}
use nginx_operator.Config.Generator.Upstream.{upstream_block_name, upstream_config_data}
use nginx_operator.Config.Generator.Full.{generate_full_config, upstream_blocks}
use nginx_operator.Config.Generator.Full.Laws.{upstream_blocks_sound}
use nginx_operator.Config.Generator.Full.Contents.{
  upstream_text, RouteIn, generate_full_config-Contains,
}

-- The head of a location that passes its requests to the upstream block of the name.
abbrev pub passed_on : String → String → String
passed_on path name =
    text ("    location " ∷ path ∷ " {\n" ∷ "\n" ∷ "        proxy_pass http://" ∷ name ∷ ";\n" ∷ [])

-- The head of an upstream block of the name.
abbrev pub opened : String → String
opened name = text ("upstream " ∷ name ∷ " {\n" ∷ [])

location_block-Contains :
    (d : LocationData)
    → is_nonempty d.upstream_name ≡ true
    → Contains (passed_on d.path d.upstream_name) (location_block d)
unfolding location_block location_target
location_block-Contains d named =
    rw (location_target, named)
      (spliced-Contains ("\n" ∷ []) ("    location " ∷ d.path ∷ " {\n" ∷ [])
        ("\n" ∷ "        proxy_pass http://" ∷ d.upstream_name ∷ ";\n" ∷ []) _ _)

route_config_template-Contains :
    (d : RouteConfigData)
    → All (λ loc. Contains (location_block loc) (route_config_template d)) d.locations
unfolding route_config_template
route_config_template-Contains d =
    All-map
      (λ loc h.
        Contains-trans (location_block loc) (range location_block d.locations) _ h
          (piece-Contains 39 _ refl))
      d.locations (range-Contains location_block d.locations)

upstream_text-opened :
    (u : NginxUpstream) → Contains (opened (upstream_block_name u)) (upstream_text u)
unfolding upstream_config_template upstream_config_data
upstream_text-opened u =
    text-Contains ("# Upstream: " ∷ upstream_block_name u ∷ "\n" ∷ [])
      ("upstream " ∷ upstream_block_name u ∷ " {\n" ∷ []) _

upstream_text_backends :
    (u : NginxUpstream) → All (λ b. Contains (backend_line b) (upstream_text u)) u.spec.backends
unfolding upstream_config_template upstream_config_data
upstream_text_backends u =
    All-map
      (λ b h.
        Contains-trans (backend_line b) (range backend_line u.spec.backends) _ h
          (piece-Contains 9 _ refl))
      u.spec.backends (range-Contains backend_line u.spec.backends)

sanitize_name_nonempty : (s : String) → is_nonempty s ≡ true → is_nonempty (sanitize_name s) ≡ true
unfolding sanitize_name
sanitize_name_nonempty String.[] h = cc
sanitize_name_nonempty (String.◌∷◌ c s) h = refl

append_nonempty : (s t : String) → is_nonempty t ≡ true → is_nonempty (s <> t) ≡ true
append_nonempty String.[] t h = rw nil-append h
append_nonempty (String.◌∷◌ c s) t h = rw cons-append refl

nonempty_append : (s t : String) → is_nonempty s ≡ true → is_nonempty (s <> t) ≡ true
nonempty_append String.[] t h = cc
nonempty_append (String.◌∷◌ c s) t h = rw cons-append refl

upstream_block_name_nonempty : (u : NginxUpstream) → is_nonempty (upstream_block_name u) ≡ true
unfolding upstream_block_name
upstream_block_name_nonempty u =
    sanitize_name_nonempty _
      (append_nonempty u.meta.namespace ("-" <> u.meta.name) (nonempty_append "-" u.meta.name refl))

-- A location that names an upstream: one of the upstreams has the name, the location passes its
-- requests to the block of that upstream, and this block stands in the text, with a line for each
-- of the backends.
abbrev pub IsLinked : String → List NginxUpstream → NginxLocationSpec → Type 0
IsLinked text upstreams loc =
    loc.upstream_ref ≢ ""
    → Any
        (λ u.
          (u.meta.name ≡ loc.upstream_ref)
          × Contains (passed_on loc.path (upstream_block_name u)) text
          × Contains (opened (upstream_block_name u)) (upstream_text u)
          × All (λ b. Contains (backend_line b) (upstream_text u)) u.spec.backends
          × Contains (upstream_text u) text)
        upstreams

-- An element that satisfies both.
Any-All :
    {A : Type 0} {P Q R : A → Type 0} (xs : List A)
    → ((x : A) → P x → Q x → R x)
    → Any P xs
    → All Q xs
    → Any R xs
Any-All [] f h k = absurd h
Any-All (x ∷ xs) f (inl p) (q, k) = inl (f x p q)
Any-All (x ∷ xs) f (inr h) (q, k) = inr (Any-All xs f h k)

module _ (text : String) (upstreams : List NginxUpstream) {upstream_map : Dict String}
    {confs : List String} (blocks : upstream_blocks [] upstreams ≡ ok (upstream_map, confs))
    (blocks_in : All (λ u. Contains (upstream_text u) text) upstreams) where
  location-IsLinked :
      (loc : NginxLocationSpec) (d : LocationData)
      → IsResolved upstream_map loc d
      → Contains (location_block d) text
      → IsLinked text upstreams loc
  location-IsLinked loc d resolved inside filled =
      Any-All upstreams
        (λ u (named, same) block_in. (
          named,
          Contains-trans _ (location_block d) text
              (subst (λ p. Contains (passed_on p (upstream_block_name u)) (location_block d))
                resolved.path
                (subst (λ n. Contains (passed_on d.path n) (location_block d)) (sym same)
                  (location_block-Contains d
                    (subst (λ n. is_nonempty n ≡ true) same (upstream_block_name_nonempty u)))))
              inside,
          upstream_text-opened u,
          upstream_text_backends u,
          block_in,
        ))
        (upstream_blocks_sound upstreams blocks loc.upstream_ref d.upstream_name
          (resolved.named filled))
        blocks_in

  locations-IsLinked :
      (locs : List NginxLocationSpec) (ds : List LocationData)
      → AllResolved upstream_map locs ds
      → All (λ d. Contains (location_block d) text) ds
      → All (IsLinked text upstreams) locs
  locations-IsLinked [] ds h k = tt
  locations-IsLinked (loc ∷ locs) [] h k = absurd h
  locations-IsLinked (loc ∷ locs) (d ∷ ds) (h, hs) (k, ks) =
      (location-IsLinked loc d h k, locations-IsLinked locs ds hs ks)

  route-IsLinked :
      (r : NginxRoute)
      → RouteIn upstream_map text r
      → All (IsLinked text upstreams) r.spec.locations
  unfolding route_config_data
  route-IsLinked r (conf, made, inside) =
      let (ds, resolved, same) = generate_route_config-AllResolved upstream_map r made in
      locations-IsLinked r.spec.locations ds resolved (
        All-map
          (λ d h.
            Contains-trans (location_block d) conf text
              (subst (Contains (location_block d)) (sym same) h) inside)
          ds (route_config_template-Contains (route_config_data r ds)))

-- In a configuration that is generated, every location of every route that names an upstream
-- passes its requests to an upstream block that the same text declares: the block of an upstream of
-- that name among those given, which has a line for each of its backends.
pub generate_full_config-IsLinked :
    (server : NginxServer) (routes : List NginxRoute) (upstreams : List NginxUpstream)
    {text : String}
    → generate_full_config server routes upstreams ≡ ok text
    → All (λ r. All (IsLinked text upstreams) r.spec.locations) routes
generate_full_config-IsLinked server routes upstreams {text} made =
    let (_, blocks_in, (upstream_map, confs, blocks, routes_in)) =
      generate_full_config-Contains server routes upstreams made in
    All-map (route-IsLinked text upstreams blocks blocks_in) routes routes_in
