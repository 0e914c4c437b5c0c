-- ===== src/Controller/Upstream/Endpoints/Laws.antt =====
-- The backends that internal/controller/nginxupstream_controller.go discovers.
use nginx_operator.Base.{◌≡◌, refl, ap, String, List, [], ◌∷◌, ◌++◌, map, All}
use nginx_operator.Base.Int.{ℤ}
use nginx_operator.Api.Upstream.{NginxUpstream}
use nginx_operator.Controller.Cluster.{Endpoints}
use nginx_operator.Controller.Upstream.Endpoints.{
  endpoint_text, discovered_backend, from_addresses, from_subsets, with_endpoints,
}

-- The addresses of all subsets, in order.
abbrev pub all_addresses : List (List String) → List String
all_addresses [] = []
all_addresses (ips ∷ rest) = ips ++ all_addresses rest

map-append : {A B : Type 0} (f : A → B) (xs ys : List A) → map f (xs ++ ys) ≡ map f xs ++ map f ys
map-append f [] ys = refl
map-append f (x ∷ xs) ys = ap (◌∷◌ (f x)) (map-append f xs ys)

from_addresses_lem :
    (port : ℤ) (ips : List String)
    → ((from_addresses port ips).0 ≡ map (endpoint_text port) ips)
      × ((from_addresses port ips).1 ≡ map (discovered_backend port) ips)
unfolding from_addresses
from_addresses_lem port [] = (refl, refl)
from_addresses_lem port (ip ∷ ips) =
    let (texts, backends) = from_addresses_lem port ips in
    (ap (◌∷◌ (endpoint_text port ip)) texts, ap (◌∷◌ (discovered_backend port ip)) backends)

from_subsets_lem :
    (port : ℤ) (subsets : List (List String))
    → ((from_subsets port subsets).0 ≡ map (endpoint_text port) (all_addresses subsets))
      × ((from_subsets port subsets).1 ≡ map (discovered_backend port) (all_addresses subsets))
unfolding from_subsets
from_subsets_lem port [] = (refl, refl)
from_subsets_lem port (ips ∷ rest) =
    let (texts, backends) = from_addresses_lem port ips in
    let (texts', backends') = from_subsets_lem port rest in
    (
      rw (texts, texts', map-append (endpoint_text port) ips (all_addresses rest)) refl,
      rw (backends, backends', map-append (discovered_backend port) ips (all_addresses rest)) refl,
    )

described :
    (port : ℤ) (ips : List String)
    → (map (λ b. b.address) (map (discovered_backend port) ips) ≡ ips)
      × All (λ b. b.port ≡ port) (map (discovered_backend port) ips)
      × (map (endpoint_text port) ips
          ≡ map (λ b. endpoint_text b.port b.address) (map (discovered_backend port) ips))
unfolding discovered_backend
described port [] = (refl, tt, refl)
described port (ip ∷ ips) =
    let (addresses, ports, texts) = described port ips in
    (ap (◌∷◌ ip) addresses, (refl, ports), ap (◌∷◌ (endpoint_text port ip)) texts)

-- The backends discovered have the addresses of all subsets in order, each at the port of the
-- specification, and the endpoints in the status are the texts of these backends.
pub with_endpoints-backends :
    (upstream : NginxUpstream) (port : ℤ) (endpoints : Endpoints)
    → (map (λ b. b.address) (with_endpoints upstream port endpoints).spec.backends
        ≡ all_addresses endpoints.subsets)
      × All (λ b. b.port ≡ port) (with_endpoints upstream port endpoints).spec.backends
      × ((with_endpoints upstream port endpoints).status.discovered_endpoints
          ≡ map
              (λ b. endpoint_text b.port b.address)
              (with_endpoints upstream port endpoints).spec.backends)
unfolding with_endpoints
with_endpoints-backends upstream port endpoints =
    let (texts, backends) = from_subsets_lem port endpoints.subsets in
    rw (texts, backends) (described port (all_addresses endpoints.subsets))
