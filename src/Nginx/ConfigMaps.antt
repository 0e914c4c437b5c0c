-- ===== src/Nginx/ConfigMaps.antt =====
-- `BuildConfigMap` and `BuildConfDConfigMap` of internal/nginx/manager.go.
use nginx_operator.Base.{String, [], ◌∷◌}
use nginx_operator.Base.Dict.{Dict}
use nginx_operator.Api.Server.{NginxServer}
use nginx_operator.Nginx.Objects.{ConfigMap}
use nginx_operator.Nginx.Labels.{config_map_name, conf_d_config_map_name, managed_meta}

-- The third argument is not used.
unfoldable pub build_config_map : NginxServer → String → Dict String → ConfigMap
build_config_map server main_config server_configs = record {
  meta = managed_meta server (config_map_name server);
  entries = ("nginx.conf", main_config) ∷ [];
}

unfoldable pub build_conf_d_config_map : NginxServer → Dict String → ConfigMap
build_conf_d_config_map server server_configs = record {
  meta = managed_meta server (conf_d_config_map_name server);
  entries = server_configs;
}
