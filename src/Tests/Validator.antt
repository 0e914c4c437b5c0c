-- ===== src/Tests/Validator.antt =====
-- Instances for internal/config/validator.go.
use nginx_operator.Base.{◌≡◌, ◌↔◌, true}
use nginx_operator.Config.Validator.Server.{validate_nginx_server}
use nginx_operator.Config.Validator.Route.{validate_nginx_route}
use nginx_operator.Config.Validator.Upstream.{validate_nginx_upstream}
use nginx_operator.Config.Validator.Server.Laws.{
  IsAcceptable as IsAcceptableServer, validate_nginx_server-valid_iff,
}
use nginx_operator.Config.Validator.Route.Laws.{
  IsAcceptable as IsAcceptableRoute, validate_nginx_route-valid_iff,
}
use nginx_operator.Config.Validator.Upstream.Laws.{
  IsAcceptable as IsAcceptableUpstream, validate_nginx_upstream-valid_iff,
}
use nginx_operator.Tests.Samples.{edge, shop, api}

validate_nginx_server-valid_iff_example :
    ((validate_nginx_server edge).valid ≡ true) ↔ IsAcceptableServer edge
validate_nginx_server-valid_iff_example = validate_nginx_server-valid_iff edge

validate_nginx_route-valid_iff_example :
    ((validate_nginx_route shop).valid ≡ true) ↔ IsAcceptableRoute shop
validate_nginx_route-valid_iff_example = validate_nginx_route-valid_iff shop

validate_nginx_upstream-valid_iff_example :
    ((validate_nginx_upstream api).valid ≡ true) ↔ IsAcceptableUpstream api
validate_nginx_upstream-valid_iff_example = validate_nginx_upstream-valid_iff api
