-- ===== src/Config/Validator/Server/Consistent.antt =====
-- The flag of a result of internal/config/validator.go, for NginxServer.
use nginx_operator.Base.{ℕ, suc, Bool, true, List, [], ◌∷◌, Option, none, some}
use nginx_operator.Base.Dict.{Dict, insert}
use nginx_operator.Api.Server.{NginxServer, NginxServicePort, NginxServiceSpec}
use nginx_operator.Config.Validator.Report.{
  ValidationResult, IsConsistent, consistency, add_error_if-IsConsistent,
}
use nginx_operator.Config.Validator.Server.{validate_ports, validate_service, validate_nginx_server}

validate_ports-IsConsistent :
    (i : ℕ) (names : Dict Bool) (ps : List NginxServicePort) (r : ValidationResult)
    → IsConsistent r
    → IsConsistent (validate_ports i names ps r)
unfolding validate_ports
validate_ports-IsConsistent i names [] r c = c
validate_ports-IsConsistent i names (p ∷ ps) r c =
    validate_ports-IsConsistent (suc i) (insert p.name true names) ps _
      (add_error_if-IsConsistent _ _ _ _ (add_error_if-IsConsistent _ _ _ _ c))

validate_service-IsConsistent :
    (s : Option NginxServiceSpec) (r : ValidationResult)
    → IsConsistent r
    → IsConsistent (validate_service s r)
unfolding validate_service
validate_service-IsConsistent none r c = c
validate_service-IsConsistent (some s) r c = validate_ports-IsConsistent 0 [] s.ports r c

-- The flag of the result says whether an error was recorded.
pub validate_nginx_server-IsConsistent :
    (server : NginxServer) → IsConsistent (validate_nginx_server server)
unfolding validate_nginx_server
validate_nginx_server-IsConsistent server =
    search (consistency, validate_service-IsConsistent) depth 12
