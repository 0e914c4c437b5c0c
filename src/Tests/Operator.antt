-- ===== src/Tests/Operator.antt =====
-- A start of cmd/operator/main.go.
use nginx_operator.Base.{false, ℕ, suc, String, Option, none, some}
use nginx_operator.Version.{unset_vars, get}
use nginx_operator.Tests.Samples.{linux}
use nginx_operator.Operator.{Call, setup_route, default_flags, main}
use nginx_operator.Operator.Laws.{Ends, main-Ends}

-- A machine that counts the calls, and whose cluster does not know the routes.
abbrev unknown_routes : Call → ℕ → ℕ × Option String
unknown_routes (setup_route wiring) n = (suc n, some "no matches for kind NginxRoute")
unknown_routes _ n = (suc n, none)

main-Ends_example :
    Ends unknown_routes false default_flags
      (get unset_vars linux)
      0
      (main unknown_routes default_flags unset_vars linux 0)
main-Ends_example = main-Ends unknown_routes default_flags unset_vars linux 0
