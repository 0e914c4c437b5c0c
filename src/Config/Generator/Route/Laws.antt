-- ===== src/Config/Generator/Route/Laws.antt =====
-- When `GenerateRouteConfig` of internal/config/generator.go resolves every upstream reference.
use nginx_operator.Base.{
  subst, ok-injective, sym, >>=-eq-ok, ◌≡◌, refl, ◌≢◌, ◌↔◌, String, ◌==◌, eq_iff, List, [], ◌∷◌,
  none, some, ok, All, arith, Bool-cases, Option-cases, inl, inr,
}
use nginx_operator.Base.Dict.{Dict, lookup}
use nginx_operator.Api.Route.{NginxRoute, NginxLocationSpec}
use nginx_operator.Config.Data.{LocationData}
use nginx_operator.Config.Generator.Route.{
  route_config_template, location_with, resolve_upstream, location_data, locations_data,
  route_config_data, generate_route_config,
}

-- A reference that is empty, or the key of an upstream.
abbrev pub IsResolvable : Dict String → String → Type 0
IsResolvable upstream_map ref = ref ≢ "" → lookup ref upstream_map ≢ none

-- What a rendered location is made of: the path, the targets and the settings of the specification,
-- and the name that the map has for its reference.
pub record IsResolved (upstream_map : Dict String) (loc : NginxLocationSpec) (d : LocationData)
    : Type 0 where
  pub path : d.path ≡ loc.path
  pub proxy_pass : d.proxy_pass ≡ loc.proxy_pass
  pub static_content : d.static_content ≡ loc.static_content
  pub return : d.return ≡ loc.return
  pub proxy_settings : d.proxy_settings ≡ loc.proxy_settings
  pub rate_limit : d.rate_limit ≡ loc.rate_limit
  pub headers : d.headers ≡ loc.headers
  pub snippet : d.custom_location_snippet ≡ loc.custom_location_snippet
  pub none_named : loc.upstream_ref ≡ "" → d.upstream_name ≡ ""
  pub named : loc.upstream_ref ≢ "" → lookup loc.upstream_ref upstream_map ≡ some d.upstream_name

-- The same for the locations of a route, in order.
abbrev pub AllResolved : Dict String → List NginxLocationSpec → List LocationData → Type 0
AllResolved upstream_map [] [] = Unit
AllResolved upstream_map (loc ∷ locs) (d ∷ ds) =
    IsResolved upstream_map loc d × AllResolved upstream_map locs ds
AllResolved upstream_map _ _ = ⊥

module _ (upstream_map : Dict String) where
  resolve_sound :
      (ref : String) {name : String}
      → resolve_upstream upstream_map ref ≡ ok name
      → (ref ≡ "" → name ≡ "") × (ref ≢ "" → lookup ref upstream_map ≡ some name)
  unfolding resolve_upstream
  resolve_sound ref e = ground (arith, eq_iff ref "")

  resolve_total :
      (ref : String)
      → IsResolvable upstream_map ref
      → (name : String) × (resolve_upstream upstream_map ref ≡ ok name)
  unfolding resolve_upstream
  resolve_total ref h = elim (Bool-cases (ref == "")) [
    | inl empty ↦ ("", rw empty)
    | inr filled ↦ elim (Option-cases (lookup ref upstream_map)) [
      | inl missing ↦ absurd (h (ground (arith, eq_iff ref "")) missing)
      | inr (name, found) ↦ (name, rw (filled, found))
    ]
  ]

  module _ (route : NginxRoute) where
    location_sound :
        (loc : NginxLocationSpec) {d : LocationData}
        → location_data route upstream_map loc ≡ ok d
        → IsResolved upstream_map loc d
    unfolding location_data location_with
    location_sound loc {d} e =
        let (name, found, same) =
          >>=-eq-ok (resolve_upstream upstream_map loc.upstream_ref)
            (λ n. ok (location_with route loc n)) e in
        let (empty, named) = resolve_sound loc.upstream_ref found in
        subst (IsResolved upstream_map loc) (ok-injective same) (record {
          path = refl;
          proxy_pass = refl;
          static_content = refl;
          return = refl;
          proxy_settings = refl;
          rate_limit = refl;
          headers = refl;
          snippet = refl;
          none_named = empty;
          named = named;
        })

    locations_sound :
        (locs : List NginxLocationSpec) (ds : List LocationData)
        → locations_data route upstream_map locs ≡ ok ds
        → AllResolved upstream_map locs ds
    unfolding locations_data
    locations_sound [] [] e = tt
    locations_sound [] (d ∷ ds) e = cc
    locations_sound (loc ∷ locs) ds e =
        let (d, here, later) = >>=-eq-ok (location_data route upstream_map loc) _ e in
        let (rest, there, same) = >>=-eq-ok (locations_data route upstream_map locs) _ later in
        subst (AllResolved upstream_map (loc ∷ locs)) (ok-injective same)
          (location_sound loc here, locations_sound locs rest there)

    locations_total :
        (locs : List NginxLocationSpec)
        → All (λ loc. IsResolvable upstream_map loc.upstream_ref) locs
        → (ds : List LocationData) × (locations_data route upstream_map locs ≡ ok ds)
    unfolding locations_data location_data
    locations_total [] h = ([], refl)
    locations_total (loc ∷ locs) (h, hs) =
        let (name, found) = resolve_total loc.upstream_ref h in
        let (ds, rest) = locations_total locs hs in
        (location_with route loc name ∷ ds, rw (found, rest))

    AllResolved-IsResolvable :
        (locs : List NginxLocationSpec) (ds : List LocationData)
        → AllResolved upstream_map locs ds
        → All (λ loc. IsResolvable upstream_map loc.upstream_ref) locs
    AllResolved-IsResolvable [] ds h = tt
    AllResolved-IsResolvable (loc ∷ locs) [] h = absurd h
    AllResolved-IsResolvable (loc ∷ locs) (d ∷ ds) (h, hs) =
        (λ filled missing. ground (arith, h.named filled), AllResolved-IsResolvable locs ds hs)

    -- A rendered route is the template at locations that are resolved one by one, in order: each
    -- keeps its path, its proxy target, its static content, its return, its proxy settings, its rate
    -- limit, its headers and its snippet, and has the name that the map gives its reference.
    pub generate_route_config-AllResolved :
        {text : String}
        → generate_route_config route upstream_map ≡ ok text
        → (ds : List LocationData) × AllResolved upstream_map route.spec.locations ds
          × (text ≡ route_config_template (route_config_data route ds))
    unfolding generate_route_config
    generate_route_config-AllResolved e =
        let (ds, found, same) =
          >>=-eq-ok (locations_data route upstream_map route.spec.locations) _ e in
        (ds, locations_sound route.spec.locations ds found, sym (ok-injective same))

    -- A route is rendered exactly if each of its references is empty or a key of the map.
    pub generate_route_config-ok_iff :
        ((text : String) × (generate_route_config route upstream_map ≡ ok text))
        ↔ All (λ loc. IsResolvable upstream_map loc.upstream_ref) route.spec.locations
    unfolding generate_route_config
    generate_route_config-ok_iff = (
      λ (text, e).
          let (ds, resolved, _) = generate_route_config-AllResolved e in
          AllResolved-IsResolvable route.spec.locations ds resolved,
      λ h.
          let (ds, found) = locations_total route.spec.locations h in
          (route_config_template (route_config_data route ds), rw found),
    )
