-- ===== src/Config/Validator/Route/Consistent.antt =====
-- The flag of a result of internal/config/validator.go, for NginxRoute.
use nginx_operator.Base.{ℕ, String, Option, none, some}
use nginx_operator.Api.Route.{NginxRoute, NginxLocationSpec, NginxAccessControlSpec}
use nginx_operator.Config.Validator.Report.{
  ValidationResult, IsConsistent, consistency, add_error_if-IsConsistent,
  validate_each-IsConsistent,
}
use nginx_operator.Config.Validator.Route.{
  validate_location, validate_cidr, validate_access, validate_nginx_route,
}

validate_location-IsConsistent :
    (i : ℕ) (loc : NginxLocationSpec) (r : ValidationResult)
    → IsConsistent r
    → IsConsistent (validate_location i loc r)
unfolding validate_location
validate_location-IsConsistent i loc r c = add_error_if-IsConsistent _ _ _ _ (
    add_error_if-IsConsistent _ _ _ _
      (add_error_if-IsConsistent _ _ _ _ (add_error_if-IsConsistent _ _ _ r c)))

validate_cidr-IsConsistent :
    (field : String) (i : ℕ) (s : String) (r : ValidationResult)
    → IsConsistent r
    → IsConsistent (validate_cidr field i s r)
unfolding validate_cidr
validate_cidr-IsConsistent field i s r c = add_error_if-IsConsistent _ _ _ r c

validate_access-IsConsistent :
    (a : Option NginxAccessControlSpec) (r : ValidationResult)
    → IsConsistent r
    → IsConsistent (validate_access a r)
unfolding validate_access
validate_access-IsConsistent none r c = c
validate_access-IsConsistent (some a) r c =
    validate_each-IsConsistent _ (validate_cidr-IsConsistent _) 0 a.deny _
      (validate_each-IsConsistent _ (validate_cidr-IsConsistent _) 0 a.allow r c)

pub validate_nginx_route-IsConsistent :
    (route : NginxRoute) → IsConsistent (validate_nginx_route route)
unfolding validate_nginx_route
validate_nginx_route-IsConsistent route =
    search
      (
        consistency,
        validate_access-IsConsistent,
        validate_each-IsConsistent validate_location validate_location-IsConsistent,
      )
      depth 12
