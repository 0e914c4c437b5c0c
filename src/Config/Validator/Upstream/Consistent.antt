-- ===== src/Config/Validator/Upstream/Consistent.antt =====
-- The flag of a result of internal/config/validator.go, for NginxUpstream.
use nginx_operator.Base.{ℕ, Option, none, some}
use nginx_operator.Api.Upstream.{
  NginxUpstream, NginxBackendSpec, NginxServiceDiscoverySpec, NginxLoadBalancingSpec,
}
use nginx_operator.Config.Validator.Report.{
  ValidationResult, IsConsistent, consistency, add_error_if-IsConsistent,
  validate_each-IsConsistent,
}
use nginx_operator.Config.Validator.Upstream.{
  validate_backend, validate_discovery, validate_load_balancing, validate_nginx_upstream,
}

validate_backend-IsConsistent :
    (i : ℕ) (b : NginxBackendSpec) (r : ValidationResult)
    → IsConsistent r
    → IsConsistent (validate_backend i b r)
unfolding validate_backend
validate_backend-IsConsistent i b r c =
    add_error_if-IsConsistent _ _ _ _ (add_error_if-IsConsistent _ _ _ r c)

validate_discovery-IsConsistent :
    (d : Option NginxServiceDiscoverySpec) (r : ValidationResult)
    → IsConsistent r
    → IsConsistent (validate_discovery d r)
unfolding validate_discovery
validate_discovery-IsConsistent none r c = c
validate_discovery-IsConsistent (some d) r c =
    add_error_if-IsConsistent _ _ _ _ (add_error_if-IsConsistent _ _ _ r c)

validate_load_balancing-IsConsistent :
    (l : Option NginxLoadBalancingSpec) (r : ValidationResult)
    → IsConsistent r
    → IsConsistent (validate_load_balancing l r)
unfolding validate_load_balancing
validate_load_balancing-IsConsistent none r c = c
validate_load_balancing-IsConsistent (some l) r c = add_error_if-IsConsistent _ _ _ r c

pub validate_nginx_upstream-IsConsistent :
    (upstream : NginxUpstream) → IsConsistent (validate_nginx_upstream upstream)
unfolding validate_nginx_upstream
validate_nginx_upstream-IsConsistent upstream =
    search
      (
        consistency,
        validate_load_balancing-IsConsistent,
        validate_discovery-IsConsistent,
        validate_each-IsConsistent validate_backend validate_backend-IsConsistent,
      )
      depth 12
