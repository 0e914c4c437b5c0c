-- ===== src/Config/Validator/Route.antt =====
-- `ValidateNginxRoute` of internal/config/validator.go, a step for each check, in its order.
pub mod Laws
pub mod Consistent
use nginx_operator.Base.{
  ℕ, suc, ◌+◌, ltb, eqb, String, ◌<>◌, ◌==◌, Bool, true, false, List, [], ◌∷◌, Option, none, some,
  ◌&&◌, ◌||◌, not, is_some, if◌then◌else◌, is_cons,
}
use nginx_operator.Base.Text.{show, contains_char}
use nginx_operator.Api.Route.{
  NginxRoute, NginxLocationSpec, NginxRateLimitSpec, NginxAccessControlSpec,
}
use nginx_operator.Config.Validator.Report.{
  ValidationResult, no_errors, add_error_if, validate_each,
}

-- `isValidCIDROrIP`
unfoldable pub is_valid_cidr_or_ip : String → Bool
unfolding contains_char
is_valid_cidr_or_ip s =
    if s == ""
    then false
    else if s == "all"
    then true
    else if contains_char b':' s || contains_char b'.' s
    then true
    else false

abbrev pub one_if : Bool → ℕ
one_if b = if b then 1 else 0

-- `configCount`
unfoldable pub config_count : NginxLocationSpec → ℕ
config_count loc =
    one_if (not (loc.upstream_ref == ""))
    + one_if (not (loc.proxy_pass == ""))
    + one_if (is_some loc.static_content)
    + one_if (is_some loc.return)

abbrev pub settings_unused : NginxLocationSpec → Bool
settings_unused loc = is_some loc.proxy_settings && (loc.upstream_ref == "" && loc.proxy_pass == "")

-- the body of the loop over the locations
unfoldable pub validate_location : ℕ → NginxLocationSpec → ValidationResult → ValidationResult
validate_location i loc r =
    let prefix = "spec.locations[" <> show i <> "]" in
    let r1 = add_error_if (loc.path == "") (prefix <> ".path") "path is required" r in
    let r2 =
      add_error_if (eqb (config_count loc) 0) prefix
        "one of upstreamRef, proxyPass, staticContent, or return must be specified" r1 in
    let r3 =
      add_error_if (ltb 1 (config_count loc)) prefix
        "upstreamRef, proxyPass, staticContent, and return are mutually exclusive" r2 in
    add_error_if (settings_unused loc) (prefix <> ".proxySettings")
      "proxySettings only applies when upstreamRef or proxyPass is set" r3

abbrev pub rate_missing : Option NginxRateLimitSpec → Bool
rate_missing none = false
rate_missing (some limit) = limit.enabled && (limit.rate == "")

-- the body of the loops over `Allow` and `Deny`
unfoldable pub validate_cidr : String → ℕ → String → ValidationResult → ValidationResult
validate_cidr field i cidr r =
    add_error_if (not (is_valid_cidr_or_ip cidr)) (field <> "[" <> show i <> "]")
      ("invalid CIDR or IP: " <> cidr) r

unfoldable pub validate_access : Option NginxAccessControlSpec → ValidationResult → ValidationResult
validate_access none r = r
validate_access (some access) r =
    validate_each (validate_cidr "spec.accessControl.deny") 0 access.deny
      (validate_each (validate_cidr "spec.accessControl.allow") 0 access.allow r)

unfoldable pub validate_nginx_route : NginxRoute → ValidationResult
validate_nginx_route route =
    let spec = route.spec in
    let r1 =
      add_error_if (spec.server_ref == "") "spec.serverRef" "serverRef is required" no_errors in
    let r2 = add_error_if (spec.server_name == "") "spec.serverName" "serverName is required" r1 in
    let r3 =
      add_error_if (not (is_cons spec.locations)) "spec.locations"
        "at least one location is required" r2 in
    let r4 = validate_each validate_location 0 spec.locations r3 in
    let r5 =
      add_error_if (rate_missing spec.rate_limit) "spec.rateLimit.rate"
        "rate is required when rate limiting is enabled" r4 in
    validate_access spec.access_control r5
