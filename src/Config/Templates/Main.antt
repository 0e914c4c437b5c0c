-- ===== src/Config/Templates/Main.antt =====
-- `mainConfigTemplate` of internal/config/templates.go, a function for each block.
use nginx_operator.Base.{String, [], ◌∷◌, if◌then◌else◌}
use nginx_operator.Base.Text.{show_ℤ, join, is_nonempty}
use nginx_operator.Config.Templates.Text.{text, with_some}
use nginx_operator.Config.Data.{MainConfigData}

unfoldable pub main_snippet : MainConfigData → String
main_snippet d =
    if (is_nonempty d.custom_main_snippet)
    then text ("\n" ∷ "# --- Custom Main Snippet ---\n" ∷ d.custom_main_snippet ∷ "\n" ∷ [])
    else ""

unfoldable pub log_format : MainConfigData → String
log_format d =
    if (is_nonempty d.access_log_format)
    then text ("\n" ∷ "    log_format main '" ∷ d.access_log_format ∷ "';\n" ∷ [])
    else text (
        "\n" ∷ "    log_format main '$remote_addr - $remote_user [$time_local] '\n"
        ∷ "                    '\"$request\" $status $body_bytes_sent '\n"
        ∷ "                    '\"$http_referer\" \"$http_user_agent\" '\n"
        ∷ "                    '$request_time $upstream_response_time';\n" ∷ [])

unfoldable pub access_log : MainConfigData → String
access_log d =
    if d.access_log_enabled
    then text ("\n" ∷ "    access_log /var/log/nginx/access.log main;\n" ∷ [])
    else text ("\n" ∷ "    access_log off;\n" ∷ [])

unfoldable pub compression : MainConfigData → String
compression d =
    if d.gzip_enabled
    then text (
        "\n"
        ∷ "    # --- Compression ---\n"
        ∷ "    gzip on;\n"
        ∷ "    gzip_vary on;\n"
        ∷ "    gzip_proxied any;\n"
        ∷ "    gzip_comp_level 6;\n"
        ∷ "    gzip_min_length "
        ∷ (show_ℤ d.gzip_min_length)
        ∷ ";\n"
        ∷ "    gzip_types "
        ∷ d.gzip_types
        ∷ ";\n"
        ∷ [])
    else ""

unfoldable pub tls_defaults : MainConfigData → String
tls_defaults d =
    with_some d.tls
      (λ tls.
        if tls.enabled
        then text (
            "\n"
            ∷ "    # --- TLS Defaults ---\n"
            ∷ "    ssl_protocols "
            ∷ (join " " tls.protocols)
            ∷ ";\n"
            ∷ (if (is_nonempty tls.ciphers)
                then text ("\n" ∷ "    ssl_ciphers " ∷ tls.ciphers ∷ ";\n" ∷ [])
                else "")
            ∷ "\n"
            ∷ (if tls.prefer_server_ciphers
                then text ("\n" ∷ "    ssl_prefer_server_ciphers on;\n" ∷ [])
                else "")
            ∷ "\n"
            ∷ "    ssl_session_cache "
            ∷ tls.session_cache
            ∷ ";\n"
            ∷ "    ssl_session_timeout "
            ∷ tls.session_timeout
            ∷ ";\n"
            ∷ "    ssl_session_tickets off;\n"
            ∷ [])
        else "")
      ""

unfoldable pub monitoring_server : MainConfigData → String
monitoring_server d =
    with_some d.monitoring
      (λ monitoring.
        if monitoring.enabled
        then text (
            "\n"
            ∷ "    # --- Monitoring ---\n"
            ∷ "    server {\n"
            ∷ "        listen 127.0.0.1:"
            ∷ (show_ℤ monitoring.port)
            ∷ ";\n"
            ∷ "        server_name _;\n"
            ∷ "\n"
            ∷ "        location /stub_status {\n"
            ∷ "            stub_status;\n"
            ∷ "            allow 127.0.0.1;\n"
            ∷ "            deny all;\n"
            ∷ "        }\n"
            ∷ "\n"
            ∷ "        location /healthz {\n"
            ∷ "            return 200 'ok';\n"
            ∷ "            add_header Content-Type text/plain;\n"
            ∷ "        }\n"
            ∷ "    }\n"
            ∷ [])
        else "")
      ""

unfoldable pub http_snippet : MainConfigData → String
http_snippet d =
    if (is_nonempty d.custom_http_snippet)
    then text
        ("\n" ∷ "    # --- Custom HTTP Snippet ---\n" ∷ "    " ∷ d.custom_http_snippet ∷ "\n" ∷ [])
    else ""

unfoldable pub main_config_template : MainConfigData → String
unfolding main_snippet log_format access_log compression tls_defaults monitoring_server http_snippet
main_config_template d = text (
    "# ============================================================================\n"
    ∷ "# NGINX Configuration - Generated by nginx-operator\n"
    ∷ "# DO NOT EDIT - This file is managed by the NGINX Operator\n"
    ∷ "# ============================================================================\n"
    ∷ "\n"
    ∷ "worker_processes "
    ∷ (d.worker_processes)
    ∷ ";\n"
    ∷ "error_log /var/log/nginx/error.log "
    ∷ (d.error_log_level)
    ∷ ";\n"
    ∷ "pid /var/run/nginx.pid;\n"
    ∷ "\n"
    ∷ (main_snippet d)
    ∷ "\n"
    ∷ "\n"
    ∷ "events {\n"
    ∷ "    worker_connections "
    ∷ (show_ℤ d.worker_connections)
    ∷ ";\n"
    ∷ "    multi_accept on;\n"
    ∷ "    use epoll;\n"
    ∷ "}\n"
    ∷ "\n"
    ∷ "http {\n"
    ∷ "    include /etc/nginx/mime.types;\n"
    ∷ "    default_type application/octet-stream;\n"
    ∷ "\n"
    ∷ "    # --- Security ---\n"
    ∷ "    server_tokens "
    ∷ (d.server_tokens)
    ∷ ";\n"
    ∷ "\n"
    ∷ "    # --- Logging ---\n"
    ∷ (log_format d)
    ∷ "\n"
    ∷ (access_log d)
    ∷ "\n"
    ∷ "\n"
    ∷ "    # --- Performance ---\n"
    ∷ "    sendfile on;\n"
    ∷ "    tcp_nopush on;\n"
    ∷ "    tcp_nodelay on;\n"
    ∷ "    keepalive_timeout "
    ∷ (d.keepalive_timeout)
    ∷ ";\n"
    ∷ "    keepalive_requests "
    ∷ (show_ℤ d.keepalive_requests)
    ∷ ";\n"
    ∷ "    client_max_body_size "
    ∷ (d.client_max_body_size)
    ∷ ";\n"
    ∷ "\n"
    ∷ "    # --- Buffers ---\n"
    ∷ "    client_body_buffer_size 16k;\n"
    ∷ "    client_header_buffer_size 1k;\n"
    ∷ "    large_client_header_buffers 4 8k;\n"
    ∷ "\n"
    ∷ "    # --- Timeouts ---\n"
    ∷ "    client_body_timeout 60s;\n"
    ∷ "    client_header_timeout 60s;\n"
    ∷ "    send_timeout 60s;\n"
    ∷ "\n"
    ∷ (compression d)
    ∷ "\n"
    ∷ "\n"
    ∷ (tls_defaults d)
    ∷ "\n"
    ∷ "\n"
    ∷ (monitoring_server d)
    ∷ "\n"
    ∷ "\n"
    ∷ (http_snippet d)
    ∷ "\n"
    ∷ "\n"
    ∷ "    # --- Virtual Host Configs ---\n"
    ∷ "    include /etc/nginx/conf.d/*.conf;\n"
    ∷ "}\n"
    ∷ [])
