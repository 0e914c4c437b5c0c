-- ===== src/Config/Validator/Upstream.antt =====
-- `ValidateNginxUpstream` of internal/config/validator.go, a step for each check, in its order.
pub mod Laws
pub mod Consistent
use nginx_operator.Base.{
  ℕ, String, ◌<>◌, ◌==◌, Bool, true, false, List, Option, none, some, ◌&&◌, ◌||◌, not, is_cons, [],
  ◌∷◌,
}
use nginx_operator.Base.Int.{ℤ, pos, ltb_ℤ}
use nginx_operator.Base.Text.{show, quote}
use nginx_operator.Base.Dict.{Dict, lookup}
use nginx_operator.Api.Upstream.{
  NginxUpstream, NginxBackendSpec, NginxServiceDiscoverySpec, NginxLoadBalancingSpec,
}
use nginx_operator.Config.Validator.Report.{
  ValidationResult, no_errors, add_error_if, validate_each,
}

-- `ServiceDiscovery != nil && ServiceDiscovery.Enabled`
abbrev pub discovers : Option NginxServiceDiscoverySpec → Bool
discovers none = false
discovers (some sd) = sd.enabled

abbrev pub port_outside : ℤ → Bool
port_outside port = ltb_ℤ port (pos 1) || ltb_ℤ (pos 65535) port

-- the body of the loop over the backends
unfoldable pub validate_backend : ℕ → NginxBackendSpec → ValidationResult → ValidationResult
validate_backend i backend r =
    let prefix = "spec.backends[" <> show i <> "]" in
    add_error_if (port_outside backend.port) (prefix <> ".port") "port must be between 1 and 65535"
      (add_error_if (backend.address == "") (prefix <> ".address") "address is required" r)

unfoldable pub validate_discovery :
    Option NginxServiceDiscoverySpec → ValidationResult → ValidationResult
validate_discovery none r = r
validate_discovery (some sd) r =
    add_error_if (sd.enabled && port_outside sd.service_port) "spec.serviceDiscovery.servicePort"
      "servicePort must be between 1 and 65535"
      (add_error_if (sd.enabled && (sd.service_name == "")) "spec.serviceDiscovery.serviceName"
        "serviceName is required" r)

-- `validAlgorithms`
abbrev pub valid_algorithms : Dict Bool
valid_algorithms =
    ("round_robin", true) ∷ ("least_conn", true) ∷ ("ip_hash", true) ∷ ("random", true) ∷ []

unfoldable pub is_valid_algorithm : String → Bool
is_valid_algorithm name = elim (lookup name valid_algorithms) [ none ↦ false | some b ↦ b ]

unfoldable pub validate_load_balancing :
    Option NginxLoadBalancingSpec → ValidationResult → ValidationResult
validate_load_balancing none r = r
validate_load_balancing (some lb) r =
    add_error_if (not (is_valid_algorithm lb.algorithm)) "spec.loadBalancing.algorithm"
      ("invalid algorithm "
        <> quote lb.algorithm
        <> ", must be one of: round_robin, least_conn, ip_hash, random")
      r

unfoldable pub validate_nginx_upstream : NginxUpstream → ValidationResult
validate_nginx_upstream upstream =
    let spec = upstream.spec in
    let r1 =
      add_error_if (spec.server_ref == "") "spec.serverRef" "serverRef is required" no_errors in
    let r2 =
      add_error_if (not (discovers spec.service_discovery) && not (is_cons spec.backends))
        "spec.backends" "at least one backend is required when service discovery is disabled" r1 in
    let r3 = validate_each validate_backend 0 spec.backends r2 in
    let r4 = validate_discovery spec.service_discovery r3 in
    validate_load_balancing spec.load_balancing r4
