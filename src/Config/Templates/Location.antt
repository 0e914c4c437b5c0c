-- ===== src/Config/Templates/Location.antt =====
-- The location blocks of `routeConfigTemplate` in internal/config/templates.go.
use nginx_operator.Base.{String, [], ◌∷◌, if◌then◌else◌, is_cons}
use nginx_operator.Base.Text.{show_ℤ, join, is_nonempty}
use nginx_operator.Config.Templates.Text.{text, range, with_some, sorted_entries}
use nginx_operator.Config.Data.{LocationData}

unfoldable pub location_target : LocationData → String
location_target loc =
    if (is_nonempty loc.upstream_name)
    then text (
        "\n"
        ∷ "        proxy_pass http://"
        ∷ loc.upstream_name
        ∷ ";\n"
        ∷ (with_some loc.proxy_settings
            (λ proxy_settings. text (
              "\n"
              ∷ "        proxy_connect_timeout "
              ∷ proxy_settings.connect_timeout
              ∷ ";\n"
              ∷ "        proxy_send_timeout "
              ∷ proxy_settings.send_timeout
              ∷ ";\n"
              ∷ "        proxy_read_timeout "
              ∷ proxy_settings.read_timeout
              ∷ ";\n"
              ∷ "        proxy_buffer_size "
              ∷ proxy_settings.buffer_size
              ∷ ";\n"
              ∷ "        proxy_buffers "
              ∷ proxy_settings.buffers
              ∷ ";\n"
              ∷ "        proxy_next_upstream "
              ∷ proxy_settings.next_upstream
              ∷ ";\n"
              ∷ "        proxy_next_upstream_tries "
              ∷ (show_ℤ proxy_settings.next_upstream_tries)
              ∷ ";\n"
              ∷ (if proxy_settings.web_socket
                  then text (
                      "\n" ∷ "        proxy_http_version 1.1;\n"
                      ∷ "        proxy_set_header Upgrade $http_upgrade;\n"
                      ∷ "        proxy_set_header Connection \"upgrade\";\n" ∷ [])
                  else "")
              ∷ "\n"
              ∷ (range
                  (λ (key, value).
                    text ("\n" ∷ "        proxy_set_header " ∷ key ∷ " \"" ∷ value ∷ "\";\n" ∷ []))
                  (sorted_entries proxy_settings.set_headers))
              ∷ "\n"
              ∷ []))
            (text (
              "\n" ∷ "        proxy_set_header Host $host;\n"
              ∷ "        proxy_set_header X-Real-IP $remote_addr;\n"
              ∷ "        proxy_set_header X-Forwarded-For $proxy_add_x_forwarded_for;\n"
              ∷ "        proxy_set_header X-Forwarded-Proto $scheme;\n" ∷ [])))
        ∷ "\n"
        ∷ [])
    else if (is_nonempty loc.proxy_pass)
    then text (
        "\n" ∷ "        proxy_pass " ∷ loc.proxy_pass ∷ ";\n"
        ∷ "        proxy_set_header Host $host;\n"
        ∷ "        proxy_set_header X-Real-IP $remote_addr;\n"
        ∷ "        proxy_set_header X-Forwarded-For $proxy_add_x_forwarded_for;\n"
        ∷ "        proxy_set_header X-Forwarded-Proto $scheme;\n" ∷ [])
    else with_some loc.static_content
        (λ static_content. text (
          "\n"
          ∷ "        root "
          ∷ static_content.root
          ∷ ";\n"
          ∷ (if (is_cons static_content.index)
              then text ("\n" ∷ "        index " ∷ (join " " static_content.index) ∷ ";\n" ∷ [])
              else "")
          ∷ "\n"
          ∷ (if (is_nonempty static_content.try_files)
              then text ("\n" ∷ "        try_files " ∷ static_content.try_files ∷ ";\n" ∷ [])
              else "")
          ∷ "\n"
          ∷ (if static_content.autoindex then text ("\n" ∷ "        autoindex on;\n" ∷ []) else "")
          ∷ "\n"
          ∷ []))
        (with_some loc.return
          (λ ret. text (
            "\n"
            ∷ "        return "
            ∷ (show_ℤ ret.code)
            ∷ (if (is_nonempty ret.body) then text (" \"" ∷ ret.body ∷ "\"" ∷ []) else "")
            ∷ ";\n"
            ∷ []))
          "")

unfoldable pub location_limit : LocationData → String
location_limit loc =
    with_some loc.rate_limit
      (λ rate_limit.
        if rate_limit.enabled
        then text (
            "\n"
            ∷ "        limit_req zone="
            ∷ loc.rate_limit_zone_name
            ∷ " burst="
            ∷ (show_ℤ rate_limit.burst)
            ∷ (if rate_limit.no_delay then " nodelay" else "")
            ∷ ";\n"
            ∷ [])
        else "")
      ""

unfoldable pub location_headers : LocationData → String
location_headers loc =
    with_some loc.headers
      (λ headers. text (
        "\n"
        ∷ (range
            (λ (key, value).
              text ("\n" ∷ "        add_header " ∷ key ∷ " \"" ∷ value ∷ "\" always;\n" ∷ []))
            (sorted_entries headers.add))
        ∷ "\n"
        ∷ []))
      ""

unfoldable pub location_snippet : LocationData → String
location_snippet loc =
    if (is_nonempty loc.custom_location_snippet)
    then text ("\n" ∷ "        " ∷ loc.custom_location_snippet ∷ "\n" ∷ [])
    else ""

unfoldable pub location_block : LocationData → String
location_block loc = text (
    "\n"
    ∷ "    location "
    ∷ (loc.path)
    ∷ " {\n"
    ∷ (location_target loc)
    ∷ "\n"
    ∷ "\n"
    ∷ (location_limit loc)
    ∷ "\n"
    ∷ "\n"
    ∷ (location_headers loc)
    ∷ "\n"
    ∷ "\n"
    ∷ (location_snippet loc)
    ∷ "\n"
    ∷ "    }\n"
    ∷ [])
