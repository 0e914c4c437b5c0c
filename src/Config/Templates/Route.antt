-- ===== src/Config/Templates/Route.antt =====
-- `routeConfigTemplate` of internal/config/templates.go, a function for each block.
use nginx_operator.Base.{String, [], ◌∷◌, if◌then◌else◌, is_cons}
use nginx_operator.Base.Text.{show_ℤ, join, is_nonempty}
use nginx_operator.Config.Templates.Text.{text, range, with_some, sorted_entries}
use nginx_operator.Config.Templates.Location.{
  location_target, location_limit, location_headers, location_snippet, location_block,
}
use nginx_operator.Config.Data.{RouteConfigData}

unfoldable pub limit_zone : RouteConfigData → String
limit_zone d =
    with_some d.rate_limit
      (λ rate_limit.
        if rate_limit.enabled
        then text (
            "\n" ∷ "limit_req_zone " ∷ rate_limit.key ∷ " zone=" ∷ d.rate_limit_zone_name ∷ ":"
            ∷ rate_limit.zone ∷ " rate=" ∷ rate_limit.rate ∷ ";\n" ∷ [])
        else "")
      ""

unfoldable pub tls_listen : RouteConfigData → String
tls_listen d =
    with_some d.tls
      (λ tls.
        if tls.enabled
        then text (
            "\n"
            ∷ "    listen "
            ∷ (show_ℤ d.https_port)
            ∷ " ssl"
            ∷ (if d.proxy_protocol then " proxy_protocol" else "")
            ∷ ";\n"
            ∷ [])
        else "")
      ""

unfoldable pub tls_certificate : RouteConfigData → String
tls_certificate d =
    with_some d.tls
      (λ tls.
        if tls.enabled
        then text (
            "\n"
            ∷ "    # --- TLS ---\n"
            ∷ (if (is_nonempty tls.secret_name)
                then text (
                    "\n" ∷ "    ssl_certificate /etc/nginx/ssl/" ∷ tls.secret_name ∷ "/tls.crt;\n"
                    ∷ "    ssl_certificate_key /etc/nginx/ssl/" ∷ tls.secret_name ∷ "/tls.key;\n"
                    ∷ [])
                else "")
            ∷ "\n"
            ∷ [])
        else "")
      ""

unfoldable pub tls_redirect : RouteConfigData → String
tls_redirect d =
    with_some d.tls
      (λ tls.
        if tls.enabled
        then if tls.redirect_http
          then text (
              "\n" ∷ "    # --- HTTP to HTTPS Redirect ---\n" ∷ "    if ($scheme = http) {\n"
              ∷ "        return 301 https://$host$request_uri;\n" ∷ "    }\n" ∷ [])
          else ""
        else "")
      ""

unfoldable pub access_rules : RouteConfigData → String
access_rules d =
    with_some d.access_control
      (λ access_control. text (
        "\n"
        ∷ "    # --- Access Control ---\n"
        ∷ (range (λ item. text ("\n" ∷ "    allow " ∷ item ∷ ";\n" ∷ [])) access_control.allow)
        ∷ "\n"
        ∷ (range (λ item. text ("\n" ∷ "    deny " ∷ item ∷ ";\n" ∷ [])) access_control.deny)
        ∷ "\n"
        ∷ []))
      ""

unfoldable pub limit_rule : RouteConfigData → String
limit_rule d =
    with_some d.rate_limit
      (λ rate_limit.
        if rate_limit.enabled
        then text (
            "\n"
            ∷ "    # --- Rate Limiting ---\n"
            ∷ "    limit_req zone="
            ∷ d.rate_limit_zone_name
            ∷ " burst="
            ∷ (show_ℤ rate_limit.burst)
            ∷ (if rate_limit.no_delay then " nodelay" else "")
            ∷ ";\n"
            ∷ "    limit_req_status 429;\n"
            ∷ [])
        else "")
      ""

unfoldable pub header_rules : RouteConfigData → String
header_rules d =
    with_some d.headers
      (λ headers. text (
        "\n"
        ∷ "    # --- Custom Headers ---\n"
        ∷ (if headers.security_headers
            then text (
                "\n" ∷ "    add_header X-Frame-Options \"SAMEORIGIN\" always;\n"
                ∷ "    add_header X-Content-Type-Options \"nosniff\" always;\n"
                ∷ "    add_header X-XSS-Protection \"1; mode=block\" always;\n"
                ∷ "    add_header Referrer-Policy \"strict-origin-when-cross-origin\" always;\n"
                ∷ [])
            else "")
        ∷ "\n"
        ∷ (range
            (λ (key, value).
              text ("\n" ∷ "    add_header " ∷ key ∷ " \"" ∷ value ∷ "\" always;\n" ∷ []))
            (sorted_entries headers.add))
        ∷ "\n"
        ∷ (range (λ item. text ("\n" ∷ "    proxy_hide_header " ∷ item ∷ ";\n" ∷ []))
            headers.remove)
        ∷ "\n"
        ∷ []))
      ""

unfoldable pub cors_rules : RouteConfigData → String
cors_rules d =
    with_some d.cors
      (λ cors.
        if cors.enabled
        then text (
            "\n"
            ∷ "    # --- CORS ---\n"
            ∷ (range (λ item. text ("\n" ∷ "    set $cors_origin \"" ∷ item ∷ "\";\n" ∷ []))
                cors.allow_origins)
            ∷ "\n"
            ∷ "    add_header Access-Control-Allow-Origin $cors_origin always;\n"
            ∷ "    add_header Access-Control-Allow-Methods \""
            ∷ (join ", " cors.allow_methods)
            ∷ "\" always;\n"
            ∷ "    add_header Access-Control-Allow-Headers \""
            ∷ (join ", " cors.allow_headers)
            ∷ "\" always;\n"
            ∷ (if cors.allow_credentials
                then text (
                    "\n" ∷ "    add_header Access-Control-Allow-Credentials \"true\" always;\n"
                    ∷ [])
                else "")
            ∷ "\n"
            ∷ "    add_header Access-Control-Max-Age "
            ∷ (show_ℤ cors.max_age)
            ∷ " always;\n"
            ∷ (if (is_cons cors.expose_headers)
                then text (
                    "\n"
                    ∷ "    add_header Access-Control-Expose-Headers \""
                    ∷ (join ", " cors.expose_headers)
                    ∷ "\" always;\n"
                    ∷ [])
                else "")
            ∷ "\n"
            ∷ [])
        else "")
      ""

unfoldable pub server_snippet : RouteConfigData → String
server_snippet d =
    if (is_nonempty d.custom_server_snippet)
    then text (
        "\n" ∷ "    # --- Custom Server Snippet ---\n" ∷ "    " ∷ d.custom_server_snippet ∷ "\n"
        ∷ [])
    else ""

unfoldable pub route_config_template : RouteConfigData → String
unfolding limit_zone tls_listen tls_certificate tls_redirect access_rules limit_rule header_rules
    cors_rules server_snippet location_target location_limit location_headers location_snippet
    location_block
route_config_template d = text (
    "# Route: "
    ∷ (d.server_name)
    ∷ "\n"
    ∷ (limit_zone d)
    ∷ "\n"
    ∷ "\n"
    ∷ "server {\n"
    ∷ "    listen "
    ∷ (show_ℤ d.listen_port)
    ∷ (if d.proxy_protocol then " proxy_protocol" else "")
    ∷ ";\n"
    ∷ (tls_listen d)
    ∷ "\n"
    ∷ "\n"
    ∷ "    server_name "
    ∷ (d.server_name)
    ∷ ";\n"
    ∷ "\n"
    ∷ (tls_certificate d)
    ∷ "\n"
    ∷ "\n"
    ∷ (tls_redirect d)
    ∷ "\n"
    ∷ "\n"
    ∷ (access_rules d)
    ∷ "\n"
    ∷ "\n"
    ∷ (limit_rule d)
    ∷ "\n"
    ∷ "\n"
    ∷ (header_rules d)
    ∷ "\n"
    ∷ "\n"
    ∷ (cors_rules d)
    ∷ "\n"
    ∷ "\n"
    ∷ (server_snippet d)
    ∷ "\n"
    ∷ "\n"
    ∷ (range location_block d.locations)
    ∷ "\n"
    ∷ "}\n"
    ∷ [])
