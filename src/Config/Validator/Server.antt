-- ===== src/Config/Validator/Server.antt =====
-- `ValidateNginxServer` of internal/config/validator.go, a step for each check, in its order.
pub mod Laws
pub mod Consistent
use nginx_operator.Base.{
  ℕ, suc, String, ◌<>◌, ◌==◌, Bool, true, false, List, [], ◌∷◌, Option, none, some, ◌&&◌, is_some,
}
use nginx_operator.Base.Int.{ℤ, pos, ltb_ℤ, eqb_ℤ, is_positive}
use nginx_operator.Base.Text.{show}
use nginx_operator.Base.Dict.{Dict, lookup, insert}
use nginx_operator.Api.Server.{
  NginxServer, NginxServicePort, NginxServiceSpec, NginxTlsSpec, NginxAutoscalingSpec, NginxPdbSpec,
  NginxGlobalConfig,
}
use nginx_operator.Config.Validator.Report.{
  ValidationResult, no_errors, add_error_if, add_warning_if,
}

abbrev pub replicas_negative : Option ℤ → Bool
replicas_negative none = false
replicas_negative (some n) = ltb_ℤ n (pos 0)

abbrev pub secret_missing : Option NginxTlsSpec → Bool
secret_missing none = false
secret_missing (some tls) = tls.enabled && (tls.secret_name == "")

-- `MinReplicas != nil && MaxReplicas > 0` and then `*MinReplicas > MaxReplicas`
abbrev pub min_above_max : Option ℤ → ℤ → Bool
min_above_max none most = false
min_above_max (some least) most = is_positive most && ltb_ℤ most least

abbrev pub autoscaling_inverted : Option NginxAutoscalingSpec → Bool
autoscaling_inverted none = false
autoscaling_inverted (some a) = a.enabled && min_above_max a.min_replicas a.max_replicas

abbrev pub budget_twice : Option NginxPdbSpec → Bool
budget_twice none = false
budget_twice (some p) = p.enabled && (is_some p.min_available && is_some p.max_unavailable)

-- `portNames[name]`: a missing key reads as false
abbrev pub flag : String → Dict Bool → Bool
flag name names = elim (lookup name names) [ none ↦ false | some b ↦ b ]

abbrev port_field : ℕ → String
port_field i = "spec.service.ports[" <> show i <> "].name"

-- the loop over the service ports, `i` the index and `names` the map `portNames`
unfoldable pub validate_ports :
    ℕ → Dict Bool → List NginxServicePort → ValidationResult → ValidationResult
validate_ports i names [] r = r
validate_ports i names (port ∷ ports) r =
    validate_ports (suc i) (insert port.name true names) ports (
      add_error_if (flag port.name names) (port_field i) "duplicate port name"
        (add_error_if (port.name == "") (port_field i) "port name is required" r))

unfoldable pub validate_service : Option NginxServiceSpec → ValidationResult → ValidationResult
validate_service none r = r
validate_service (some service) r = validate_ports 0 [] service.ports r

abbrev pub is_single : Option ℤ → Bool
is_single none = false
is_single (some n) = eqb_ℤ n (pos 1)

abbrev pub tokens_shown : Option NginxGlobalConfig → Bool
tokens_shown none = false
tokens_shown (some gc) = gc.server_tokens

unfoldable pub validate_nginx_server : NginxServer → ValidationResult
validate_nginx_server server =
    let spec = server.spec in
    let r1 =
      add_error_if (replicas_negative spec.replicas) "spec.replicas" "replicas must be >= 0"
        no_errors in
    let r2 = add_error_if (spec.image == "") "spec.image" "image is required" r1 in
    let r3 =
      add_error_if (secret_missing spec.tls) "spec.tls.secretName"
        "secretName is required when TLS is enabled" r2 in
    let r4 =
      add_error_if (autoscaling_inverted spec.autoscaling) "spec.autoscaling"
        "minReplicas must be <= maxReplicas" r3 in
    let r5 =
      add_error_if (budget_twice spec.pod_disruption_budget) "spec.podDisruptionBudget"
        "cannot set both minAvailable and maxUnavailable" r4 in
    let r6 = validate_service spec.service r5 in
    let r7 =
      add_warning_if (is_single spec.replicas) "single replica provides no high availability" r6 in
    add_warning_if (tokens_shown spec.global_config)
      "server_tokens is enabled, exposing NGINX version in headers" r7
