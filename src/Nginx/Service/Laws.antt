-- ===== src/Nginx/Service/Laws.antt =====
-- The ports of the Service of internal/nginx/manager.go.
use nginx_operator.Base.{
  Any-append_right, subst, sym, ◌≡◌, refl, ◌≢◌, inl, inr, String, eq_iff, List, [], ◌∷◌, ◌++◌,
  Option, none, some, true, Bool, arith, if◌then◌else◌, All, Any, map, is_cons, Bool-cases, ◌&&◌,
  not,
}
use nginx_operator.Base.Int.{pos, eqb_ℤ, eqb_ℤ_iff}
use nginx_operator.Api.Server.{NginxServer, NginxServicePort, NginxServiceSpec}
use nginx_operator.Nginx.Objects.{ServicePort}
use nginx_operator.Nginx.Deployment.{tls_on}
use nginx_operator.Nginx.Service.{
  service_port, http_port, https_port, base_ports, has_https, with_https, build_service,
}

abbrev pub IsHttps : ServicePort → Type 0
IsHttps p = p.port ≡ pos 443

has_https_sound : (ps : List ServicePort) → has_https ps ≡ true → Any IsHttps ps
unfolding has_https
has_https_sound [] e = cc
has_https_sound (p ∷ ps) e = elim (Bool-cases (eqb_ℤ p.port (pos 443))) [
  | inl here ↦ inl ((eqb_ℤ_iff p.port (pos 443)).0 here)
  | inr later ↦ inr (has_https_sound ps (rw later at e))
]

with_https_on : (ps : List ServicePort) → Any IsHttps (with_https true ps)
unfolding with_https
with_https_on ps = elim (Bool-cases (has_https ps)) [
  | inl has ↦ rw has (has_https_sound ps has)
  | inr lacks ↦ rw lacks (Any-append_right IsHttps ps (https_port ∷ []) (inl refl))
]

-- With TLS enabled, the Service has a port 443.
pub build_service-IsHttps :
    (server : NginxServer)
    → tls_on server.spec.tls ≡ true
    → Any IsHttps (build_service server).spec.ports
unfolding build_service
build_service-IsHttps server on =
    subst (λ b. Any IsHttps (with_https b (base_ports server.spec.service))) (sym on)
      (with_https_on (base_ports server.spec.service))

-- A list of ports that is not empty, each with a protocol.
abbrev pub IsServable : List ServicePort → Type 0
IsServable ps = (ps ≢ []) × All (λ p. p.protocol ≢ "") ps

All-append_one {ℓ κ} :
    {A : Type ℓ} (P : A → Type κ) (xs : List A) {y : A} → All P xs → P y → All P (xs ++ (y ∷ []))
All-append_one P [] h p = (p, tt)
All-append_one P (x ∷ xs) (q, h) p = (q, All-append_one P xs h p)

append_one-ne-nil {ℓ} : {A : Type ℓ} (xs : List A) (y : A) → xs ++ (y ∷ []) ≢ []
append_one-ne-nil [] y = λ e. cc
append_one-ne-nil (x ∷ xs) y = λ e. cc

tcp-ne : ◌≢◌ {A = String} "TCP" ""
tcp-ne = ground (arith, eq_iff "TCP" "")

with_https-IsServable :
    (tls : Bool) (ps : List ServicePort) → IsServable ps → IsServable (with_https tls ps)
unfolding with_https
with_https-IsServable tls ps (some_one, named) = elim (Bool-cases (tls && not (has_https ps))) [
  | inl added ↦ rw added (append_one-ne-nil ps https_port, All-append_one _ ps named tcp-ne)
  | inr kept ↦ rw kept (some_one, named)
]

service_ports-protocols :
    (ps : List NginxServicePort) → All (λ p. p.protocol ≢ "") (map service_port ps)
unfolding service_port
service_ports-protocols [] = tt
service_ports-protocols (p ∷ ps) =
    (ground (arith, eq_iff p.protocol "", eq_iff "TCP" ""), service_ports-protocols ps)

base_ports-IsServable : (s : Option NginxServiceSpec) → IsServable (base_ports s)
unfolding base_ports
base_ports-IsServable none = ((λ e. cc), (tcp-ne, tt))
base_ports-IsServable (some s) = listed s.ports
  where
    listed :
        (ps : List NginxServicePort)
        → IsServable (if is_cons ps then map service_port ps else http_port ∷ [])
    listed [] = ((λ e. cc), (tcp-ne, tt))
    listed (p ∷ ps) = ((λ e. cc), service_ports-protocols (p ∷ ps))

-- Whatever the specification says, the Service has a port, and each of its ports a protocol.
pub build_service-IsServable : (server : NginxServer) → IsServable (build_service server).spec.ports
unfolding build_service
build_service-IsServable server =
    with_https-IsServable (tls_on server.spec.tls) (base_ports server.spec.service)
      (base_ports-IsServable server.spec.service)
