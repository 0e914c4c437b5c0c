-- ===== src/Config/Validator/Consistent.antt =====
-- The flag of the results of internal/config/validator.go.
use nginx_operator.Api.Server.{NginxServer}
use nginx_operator.Api.Route.{NginxRoute}
use nginx_operator.Api.Upstream.{NginxUpstream}
use nginx_operator.Config.Validator.Report.{IsConsistent}
use nginx_operator.Config.Validator.Server.{validate_nginx_server}
use nginx_operator.Config.Validator.Route.{validate_nginx_route}
use nginx_operator.Config.Validator.Upstream.{validate_nginx_upstream}
use nginx_operator.Config.Validator.Server.Consistent.{validate_nginx_server-IsConsistent}
use nginx_operator.Config.Validator.Route.Consistent.{validate_nginx_route-IsConsistent}
use nginx_operator.Config.Validator.Upstream.Consistent.{validate_nginx_upstream-IsConsistent}

-- The result of each of the three validations is marked valid exactly if it holds no error.
pub validations-IsConsistent :
    (server : NginxServer) (route : NginxRoute) (upstream : NginxUpstream)
    → IsConsistent (validate_nginx_server server)
      × IsConsistent (validate_nginx_route route)
      × IsConsistent (validate_nginx_upstream upstream)
validations-IsConsistent server route upstream = (
  validate_nginx_server-IsConsistent server,
  validate_nginx_route-IsConsistent route,
  validate_nginx_upstream-IsConsistent upstream,
)
