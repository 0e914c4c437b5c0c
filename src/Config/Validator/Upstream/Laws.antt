-- ===== src/Config/Validator/Upstream/Laws.antt =====
-- When `ValidateNginxUpstream` accepts an upstream.
use mathlib.Core.Bool.{and_assoc, not-not}
use nginx_operator.Base.{
  ℕ, ◌≡◌, refl, ◌≢◌, ◌↔◌, ◌⊎◌, String, ◌==◌, ==-false_iff, eq_iff, Bool, true, false, List, [], ◌∷◌,
  Option, none, some, ◌&&◌, not, is_cons, all, all_iff, All, arith,
}
use nginx_operator.Base.Int.{ℤ, pos, ◌≤ℤ◌, ltb_ℤ-false_iff}
use nginx_operator.Base.Dict.{lookup}
use nginx_operator.Api.Upstream.{
  NginxUpstream, NginxBackendSpec, NginxServiceDiscoverySpec, NginxLoadBalancingSpec,
}
use nginx_operator.Config.Validator.Report.{
  Given, ValidationResult, add_error_if-valid, validate_each-valid,
}
use nginx_operator.Config.Validator.Upstream.{
  discovers, port_outside, validate_backend, validate_discovery, is_valid_algorithm,
  validate_load_balancing, validate_nginx_upstream,
}

abbrev pub IsPort : ℤ → Type 0
IsPort p = (pos 1 ≤ℤ p) × (p ≤ℤ pos 65535)

abbrev pub IsAlgorithm : String → Type 0
IsAlgorithm s = (s ≡ "round_robin") ⊎ (s ≡ "least_conn") ⊎ (s ≡ "ip_hash") ⊎ (s ≡ "random")

-- What an acceptable upstream satisfies, without reference to the checks.
pub record IsAcceptable (upstream : NginxUpstream) : Type 0 where
  pub server_ref : upstream.spec.server_ref ≢ ""
  pub some_backend : discovers upstream.spec.service_discovery ≡ false → upstream.spec.backends ≢ []
  pub backends : All (λ b. (b.address ≢ "") × IsPort b.port) upstream.spec.backends
  pub discovery :
      Given
        (λ d. d.enabled ≡ true → (d.service_name ≢ "") × IsPort d.service_port)
        upstream.spec.service_discovery
  pub algorithm : Given (λ l. IsAlgorithm l.algorithm) upstream.spec.load_balancing

IsPort-iff : (p : ℤ) → (port_outside p ≡ false) ↔ IsPort p
IsPort-iff p = ground (arith, ltb_ℤ-false_iff p (pos 1), ltb_ℤ-false_iff (pos 65535) p)

neither : (a b : Bool) → ((not a && not b) ≡ true) ↔ ((a ≡ false) × (b ≡ false))
neither a b = ground arith

backend_ok : NginxBackendSpec → Bool
backend_ok b = not (b.address == "") && not (port_outside b.port)

validate_backend-valid :
    (i : ℕ) (b : NginxBackendSpec) (r : ValidationResult)
    → (validate_backend i b r).valid ≡ (r.valid && backend_ok b)
unfolding validate_backend backend_ok
validate_backend-valid i b r = simp add_error_if-valid (and_assoc r.valid _ _)

backend_ok_iff : (b : NginxBackendSpec) → (backend_ok b ≡ true) ↔ ((b.address ≢ "") × IsPort b.port)
unfolding backend_ok
backend_ok_iff b =
    let (to, from) = IsPort-iff b.port in
    let (to', from') = ==-false_iff b.address "" in
    let (split, join) = neither (b.address == "") (port_outside b.port) in
    (λ h. (to' (split h).0, to (split h).1), λ w. join (from' w.0, from w.1))

discovery_ok : Option NginxServiceDiscoverySpec → Bool
discovery_ok none = true
discovery_ok (some d) =
    not (d.enabled && (d.service_name == "")) && not (d.enabled && port_outside d.service_port)

validate_discovery-valid :
    (d : Option NginxServiceDiscoverySpec) (r : ValidationResult)
    → (validate_discovery d r).valid ≡ (r.valid && discovery_ok d)
unfolding validate_discovery discovery_ok
validate_discovery-valid none r = ground arith
validate_discovery-valid (some d) r = simp add_error_if-valid (and_assoc r.valid _ _)

discovery_fields :
    (enabled : Bool) (name : String) (port : ℤ)
    → ((not (enabled && (name == "")) && not (enabled && port_outside port)) ≡ true)
      ↔ (enabled ≡ true → (name ≢ "") × IsPort port)
discovery_fields false name port = (λ _ e. cc, λ _. refl)
discovery_fields true name port =
    let (to, from) = IsPort-iff port in
    let (to', from') = ==-false_iff name "" in
    let (split, join) = neither (name == "") (port_outside port) in
    (λ h _. (to' (split h).0, to (split h).1), λ w. join (from' (w refl).0, from (w refl).1))

discovery_iff :
    (d : Option NginxServiceDiscoverySpec)
    → (discovery_ok d ≡ true)
      ↔ Given (λ d. d.enabled ≡ true → (d.service_name ≢ "") × IsPort d.service_port) d
unfolding discovery_ok
discovery_iff none = (λ _. tt, λ _. refl)
discovery_iff (some d) = discovery_fields d.enabled d.service_name d.service_port

IsAlgorithm-iff : (s : String) → (is_valid_algorithm s ≡ true) ↔ IsAlgorithm s
unfolding is_valid_algorithm lookup
IsAlgorithm-iff s =
    ground
      (arith, eq_iff "round_robin" s, eq_iff "least_conn" s, eq_iff "ip_hash" s, eq_iff "random" s)

balancing_ok : Option NginxLoadBalancingSpec → Bool
balancing_ok none = true
balancing_ok (some l) = is_valid_algorithm l.algorithm

validate_load_balancing-valid :
    (l : Option NginxLoadBalancingSpec) (r : ValidationResult)
    → (validate_load_balancing l r).valid ≡ (r.valid && balancing_ok l)
unfolding validate_load_balancing balancing_ok
validate_load_balancing-valid none r = ground arith
validate_load_balancing-valid (some l) r = simp (add_error_if-valid, not-not)

balancing_iff :
    (l : Option NginxLoadBalancingSpec)
    → (balancing_ok l ≡ true) ↔ Given (λ l. IsAlgorithm l.algorithm) l
unfolding balancing_ok
balancing_iff none = (λ _. tt, λ _. refl)
balancing_iff (some l) = IsAlgorithm-iff l.algorithm

backends_iff {ℓ} :
    {A : Type ℓ} (found : Bool) (xs : List A)
    → ((not found && not (is_cons xs)) ≡ false) ↔ (found ≡ false → xs ≢ [])
backends_iff true xs = (λ _ e. cc, λ _. refl)
backends_iff false [] = (λ e. cc, λ h. absurd (h refl refl))
backends_iff false (x ∷ xs) = (λ _ _ e. cc, λ _. refl)

-- Whether all checks pass.
all_checks : NginxUpstream → Bool
all_checks upstream =
    not (upstream.spec.server_ref == "")
    && not (not (discovers upstream.spec.service_discovery) && not (is_cons upstream.spec.backends))
    && all backend_ok upstream.spec.backends
    && discovery_ok upstream.spec.service_discovery
    && balancing_ok upstream.spec.load_balancing

validate_nginx_upstream-valid :
    (upstream : NginxUpstream) → (validate_nginx_upstream upstream).valid ≡ all_checks upstream
unfolding validate_nginx_upstream all_checks
validate_nginx_upstream-valid upstream = simp (
  validate_load_balancing-valid,
  validate_discovery-valid,
  validate_each-valid validate_backend backend_ok validate_backend-valid,
  add_error_if-valid,
)

five_checks :
    (a b c d e : Bool)
    → ((not a && not b && c && d && e) ≡ true)
      ↔ ((a ≡ false) × (b ≡ false) × (c ≡ true) × (d ≡ true) × (e ≡ true))
five_checks a b c d e = ground arith

-- `ValidateNginxUpstream` accepts an upstream exactly if: it names a server; it has a backend
-- unless service discovery is enabled; every backend has an address and a port from 1 to 65535;
-- enabled discovery has a service name and a port in that range; and a load balancing algorithm
-- that is given is one of the four.
pub validate_nginx_upstream-valid_iff :
    (upstream : NginxUpstream)
    → ((validate_nginx_upstream upstream).valid ≡ true) ↔ IsAcceptable upstream
unfolding all_checks
validate_nginx_upstream-valid_iff upstream =
    let spec = upstream.spec in
    let (split, join) =
      five_checks (spec.server_ref == "")
        (not (discovers spec.service_discovery) && not (is_cons spec.backends))
        (all backend_ok spec.backends) (discovery_ok spec.service_discovery)
        (balancing_ok spec.load_balancing) in
    let (to, from) = all_iff backend_ok _ backend_ok_iff spec.backends in
    let (some_one, none_needed) = backends_iff (discovers spec.service_discovery) spec.backends in
    rw validate_nginx_upstream-valid (
      λ h.
          let (a, b, c, d, e) = split h in
          record {
            server_ref = (==-false_iff spec.server_ref "").0 a;
            some_backend = some_one b;
            backends = to c;
            discovery = (discovery_iff spec.service_discovery).0 d;
            algorithm = (balancing_iff spec.load_balancing).0 e;
          },
      λ w. join (
        (==-false_iff spec.server_ref "").1 w.server_ref,
        none_needed w.some_backend,
        from w.backends,
        (discovery_iff spec.service_discovery).1 w.discovery,
        (balancing_iff spec.load_balancing).1 w.algorithm,
      ),
    )
