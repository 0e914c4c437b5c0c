-- ===== src/Config/Generator/Full/Laws.antt =====
-- What `GenerateFullConfig` of internal/config/generator.go sorts, names and refuses.
use mathlib.Core.Option.{some-injective}
use nginx_operator.Base.{
  wrap, Option-cases, ◌∙◌, ◌≡◌, refl, ◌≢◌, ◌↔◌, ◌⊎◌, inl, inr, String, ◌==◌, eq_iff, Bool, true,
  false, List, [], ◌∷◌, Option, none, some, ok, All, Any, All-map, if◌then◌else◌, >>=-eq-ok,
  wrap-eq-ok, ok-injective, sym, ap, map, Bool-cases,
}
use nginx_operator.Base.Int.{◌≤ℤ◌}
use nginx_operator.Base.Dict.{Dict, lookup, insert, lookup-insert}
use nginx_operator.Base.Sort.{All-sort_slice}
use nginx_operator.Api.Server.{NginxServer}
use nginx_operator.Api.Route.{NginxRoute, NginxLocationSpec}
use nginx_operator.Api.Upstream.{NginxUpstream}
use nginx_operator.Config.Generator.Main.{generate_main_config, main_config_data}
use nginx_operator.Config.Templates.Main.{main_config_template}
use nginx_operator.Config.Generator.Route.{generate_route_config}
use nginx_operator.Config.Generator.Route.Laws.{IsResolvable, generate_route_config-ok_iff}
use nginx_operator.Config.Generator.Upstream.{
  generate_upstream_config, upstream_block_name, upstream_config_data,
}
use nginx_operator.Config.Templates.Upstream.{upstream_config_template}
use nginx_operator.Config.Generator.Full.{
  upstream_blocks, by_priority, sorted_routes, server_blocks, assemble, generate_full_config,
}

-- No route has a lower priority number than one before it.
abbrev pub IsAscending : List NginxRoute → Type 0
IsAscending [] = Unit
IsAscending (r ∷ routes) = All (λ q. r.spec.priority ≤ℤ q.spec.priority) routes × IsAscending routes

-- The name map that the loop over the upstreams builds on `m`.
names_onto : Dict String → List NginxUpstream → Dict String
names_onto m [] = m
names_onto m (u ∷ us) = names_onto (insert u.meta.name (upstream_block_name u) m) us

block_text : NginxUpstream → String
block_text u = upstream_config_template (upstream_config_data u)

upstream_blocks_lem :
    (m : Dict String) (us : List NginxUpstream)
    → upstream_blocks m us ≡ ok (names_onto m us, map block_text us)
unfolding upstream_blocks names_onto block_text generate_upstream_config
upstream_blocks_lem m [] = refl
upstream_blocks_lem m (u ∷ us) =
    rw (upstream_blocks_lem (insert u.meta.name (upstream_block_name u) m) us)

names_onto_sound :
    (k : String) {n : String} (m : Dict String) (us : List NginxUpstream)
    → lookup k (names_onto m us) ≡ some n
    → (lookup k m ≡ some n) ⊎ Any (λ u. (u.meta.name ≡ k) × (upstream_block_name u ≡ n)) us
unfolding names_onto
names_onto_sound k m [] e = inl e
names_onto_sound k m (u ∷ us) e =
    elim (names_onto_sound k (insert u.meta.name (upstream_block_name u) m) us e) [
      | inl found ↦ inserted (eq_iff u.meta.name k) (rw lookup-insert at found)
      | inr later ↦ inr (inr later)
    ]
  where
    inserted :
        {n : String}
        → ((u.meta.name == k) ≡ true) ↔ (u.meta.name ≡ k)
        → (if u.meta.name == k then some (upstream_block_name u) else lookup k m) ≡ some n
        → (lookup k m ≡ some n)
          ⊎ Any (λ v. (v.meta.name ≡ k) × (upstream_block_name v ≡ n)) (u ∷ us)
    inserted same e' = elim (Bool-cases (u.meta.name == k)) [
      | inl yes_ ↦ inr (inl (same.0 yes_, some-injective _ _ (rw yes_ at e')))
      | inr no_ ↦ inl (rw no_ at e')
    ]

kept : (b : Bool) (n : String) {o : Option String} → o ≢ none → (if b then some n else o) ≢ none
kept true n h = λ e. cc
kept false n h = h

names_onto_old :
    (k : String) (m : Dict String) (us : List NginxUpstream)
    → lookup k m ≢ none
    → lookup k (names_onto m us) ≢ none
unfolding names_onto
names_onto_old k m [] h = h
names_onto_old k m (u ∷ us) h =
    names_onto_old k (insert u.meta.name (upstream_block_name u) m) us
      (rw lookup-insert (kept (u.meta.name == k) (upstream_block_name u) h))

names_onto_total :
    (k : String) (m : Dict String) (us : List NginxUpstream)
    → Any (λ u. u.meta.name ≡ k) us
    → lookup k (names_onto m us) ≢ none
unfolding names_onto
names_onto_total k m [] h = absurd h
names_onto_total k m (u ∷ us) (inl same) =
    names_onto_old k (insert u.meta.name (upstream_block_name u) m) us
      (rw lookup-insert (rw ((eq_iff u.meta.name k).1 same) (λ e. cc)))
names_onto_total k m (u ∷ us) (inr later) =
    names_onto_total k (insert u.meta.name (upstream_block_name u) m) us later

nothing_in : (k : String) {n : String} → lookup k [] ≡ some n → ⊥
unfolding lookup
nothing_in k h = cc

-- Every name in the map belongs to one of the upstreams: its key is the upstream's name, its value
-- the name of the upstream's block.
pub upstream_blocks_sound :
    (us : List NginxUpstream) {m : Dict String} {confs : List String}
    → upstream_blocks [] us ≡ ok (m, confs)
    → (k n : String) → lookup k m ≡ some n
    → Any (λ u. (u.meta.name ≡ k) × (upstream_block_name u ≡ n)) us
upstream_blocks_sound us {m} e k n found = elim (names_onto_sound k [] us (rw map_is found)) [
  | inl empty ↦ absurd (nothing empty)
  | inr listed ↦ listed
]
  where
    map_is : names_onto [] us ≡ m
    map_is = ap (λ p. p.0) (ok-injective (sym (upstream_blocks_lem [] us) ∙ e))

    nothing : lookup k [] ≡ some n → ⊥
    nothing h = nothing_in k h

abbrev AllResolvable : Dict String → NginxRoute → Type 0
AllResolvable m r = All (λ loc. IsResolvable m loc.upstream_ref) r.spec.locations

module _ (m : Dict String) where
  server_blocks_sound :
      (rs : List NginxRoute) {confs : List String}
      → server_blocks m rs ≡ ok confs
      → All (AllResolvable m) rs
  unfolding server_blocks
  server_blocks_sound [] e = tt
  server_blocks_sound (r ∷ rs) e =
      let (conf, here, later) = >>=-eq-ok (wrap _ (generate_route_config r m)) _ e in
      let (confs, there, _) = >>=-eq-ok (server_blocks m rs) _ later in
      (
        (generate_route_config-ok_iff m r).0 (conf, wrap-eq-ok _ (generate_route_config r m) here),
        server_blocks_sound rs there,
      )

  server_blocks_total :
      (rs : List NginxRoute)
      → All (AllResolvable m) rs
      → (confs : List String) × (server_blocks m rs ≡ ok confs)
  unfolding server_blocks
  server_blocks_total [] h = ([], refl)
  server_blocks_total (r ∷ rs) (h, hs) =
      let (conf, here) = (generate_route_config-ok_iff m r).1 h in
      let (confs, there) = server_blocks_total rs hs in (conf ∷ confs, rw (here, there))

-- A reference that is empty, or the name of one of the upstreams.
abbrev pub IsListed : List NginxUpstream → String → Type 0
IsListed us ref = ref ≢ "" → Any (λ u. u.meta.name ≡ ref) us

abbrev pub AllListed : List NginxUpstream → NginxRoute → Type 0
AllListed us r = All (λ loc. IsListed us loc.upstream_ref) r.spec.locations

Any-name :
    (k n : String) (us : List NginxUpstream)
    → Any (λ u. (u.meta.name ≡ k) × (upstream_block_name u ≡ n)) us
    → Any (λ u. u.meta.name ≡ k) us
Any-name k n [] h = h
Any-name k n (u ∷ us) (inl h) = inl h.0
Any-name k n (u ∷ us) (inr h) = inr (Any-name k n us h)

resolvable_listed :
    (us : List NginxUpstream) (r : NginxRoute) → AllResolvable (names_onto [] us) r → AllListed us r
unfolding lookup
resolvable_listed us r = All-map (λ loc h filled. listed loc (h filled)) r.spec.locations
  where
    listed :
        (loc : NginxLocationSpec)
        → lookup loc.upstream_ref (names_onto [] us) ≢ none
        → Any (λ u. u.meta.name ≡ loc.upstream_ref) us
    listed loc h = elim (Option-cases (lookup loc.upstream_ref (names_onto [] us))) [
      | inl missing ↦ absurd (h missing)
      | inr (n, found) ↦ elim (names_onto_sound loc.upstream_ref [] us found) [
        | inl empty ↦ cc
        | inr some_one ↦ Any-name loc.upstream_ref n us some_one
      ]
    ]

listed_resolvable :
    (us : List NginxUpstream) (r : NginxRoute) → AllListed us r → AllResolvable (names_onto [] us) r
listed_resolvable us r =
    All-map (λ loc h filled. names_onto_total loc.upstream_ref [] us (h filled)) r.spec.locations

-- The whole configuration is generated exactly if every location of every route that names an
-- upstream names one of the upstreams given.
pub generate_full_config-ok_iff :
    (server : NginxServer) (routes : List NginxRoute) (upstreams : List NginxUpstream)
    → ((text : String) × (generate_full_config server routes upstreams ≡ ok text))
      ↔ All (AllListed upstreams) routes
unfolding generate_full_config generate_main_config sorted_routes
generate_full_config-ok_iff server routes upstreams = rw (upstream_blocks_lem [] upstreams) (
  λ (text, e).
      let (confs, found, _) =
        >>=-eq-ok (server_blocks (names_onto [] upstreams) (sorted_routes routes)) _ e in
      All-map (resolvable_listed upstreams) routes
        ((All-sort_slice by_priority (AllResolvable _) routes).0 (server_blocks_sound _ _ found)),
  λ h.
      let (confs, found) = server_blocks_total (names_onto [] upstreams) (sorted_routes routes) (
        (All-sort_slice by_priority (AllResolvable _) routes).1
          (All-map (listed_resolvable upstreams) routes h)) in
      (
        assemble (main_config_template (main_config_data server)) (map block_text upstreams) confs,
        rw found refl,
      ),
)
