-- ===== src/Config/Templates/Upstream.antt =====
-- `upstreamConfigTemplate` of internal/config/templates.go, a function for each block.
use nginx_operator.Base.{String, ◌==◌, [], ◌∷◌, if◌then◌else◌, not}
use nginx_operator.Base.Int.{pos, eqb_ℤ}
use nginx_operator.Base.Text.{show_ℤ, is_nonempty}
use nginx_operator.Config.Templates.Text.{text, range}
use nginx_operator.Api.Upstream.{NginxBackendSpec}
use nginx_operator.Config.Data.{UpstreamConfigData}

unfoldable pub balancing : UpstreamConfigData → String
balancing d =
    if (d.algorithm == "least_conn")
    then text ("\n" ∷ "    least_conn;\n" ∷ [])
    else if (d.algorithm == "ip_hash")
    then text ("\n" ∷ "    ip_hash;\n" ∷ [])
    else if (d.algorithm == "random")
    then text (
        "\n" ∷ "    random" ∷ (if d.random_two_choices then " two least_conn" else "") ∷ ";\n" ∷ [])
    else ""

unfoldable pub backend_line : NginxBackendSpec → String
backend_line backend = text (
    "\n"
    ∷ "    server "
    ∷ (backend.address)
    ∷ ":"
    ∷ (show_ℤ backend.port)
    ∷ (if (not (eqb_ℤ backend.weight (pos 1)))
        then text (" weight=" ∷ (show_ℤ backend.weight) ∷ [])
        else "")
    ∷ (if (not (eqb_ℤ backend.max_connections (pos 0)))
        then text (" max_conns=" ∷ (show_ℤ backend.max_connections) ∷ [])
        else "")
    ∷ (if (not (eqb_ℤ backend.max_fails (pos 3)))
        then text (" max_fails=" ∷ (show_ℤ backend.max_fails) ∷ [])
        else "")
    ∷ (if (not (backend.fail_timeout == "10s"))
        then text (" fail_timeout=" ∷ backend.fail_timeout ∷ [])
        else "")
    ∷ (if backend.backup then " backup" else "")
    ∷ (if backend.down then " down" else "")
    ∷ ";\n"
    ∷ [])

unfoldable pub upstream_snippet : UpstreamConfigData → String
upstream_snippet d =
    if (is_nonempty d.custom_snippet)
    then text
        ("\n" ∷ "    # --- Custom Upstream Snippet ---\n" ∷ "    " ∷ d.custom_snippet ∷ "\n" ∷ [])
    else ""

unfoldable pub upstream_config_template : UpstreamConfigData → String
unfolding balancing backend_line upstream_snippet
upstream_config_template d = text (
    "# Upstream: "
    ∷ (d.name)
    ∷ "\n"
    ∷ "upstream "
    ∷ (d.name)
    ∷ " {\n"
    ∷ (balancing d)
    ∷ "\n"
    ∷ "\n"
    ∷ (range backend_line d.backends)
    ∷ "\n"
    ∷ "\n"
    ∷ "    keepalive "
    ∷ (show_ℤ d.keepalive)
    ∷ ";\n"
    ∷ "    keepalive_timeout "
    ∷ (d.keepalive_timeout)
    ∷ ";\n"
    ∷ "    keepalive_requests "
    ∷ (show_ℤ d.keepalive_requests)
    ∷ ";\n"
    ∷ "\n"
    ∷ (upstream_snippet d)
    ∷ "\n"
    ∷ "}\n"
    ∷ [])
