-- ===== src/Nginx/Labels.antt =====
-- The names and labels of internal/nginx/manager.go.
pub mod Laws
use nginx_operator.Base.{String, ◌<>◌, ◌==◌, List, [], ◌∷◌, Option, none, some, if◌then◌else◌}
use nginx_operator.Base.Text.{after_char}
use nginx_operator.Base.Dict.{Dict}
use nginx_operator.Api.Meta.{
  ObjectMeta, label_managed_by, label_managed_by_value, label_instance, label_component,
  label_part_of,
}
use nginx_operator.Api.Zero.{zero_object_meta}
use nginx_operator.Api.Server.{NginxServer}

unfoldable pub deployment_name : NginxServer → String
deployment_name server = server.meta.name <> "-nginx"

unfoldable pub service_name : NginxServer → String
service_name server = server.meta.name <> "-nginx"

unfoldable pub config_map_name : NginxServer → String
config_map_name server = server.meta.name <> "-nginx-config"

unfoldable pub conf_d_config_map_name : NginxServer → String
conf_d_config_map_name server = server.meta.name <> "-nginx-confd"

unfoldable pub extract_image_tag : String → String
extract_image_tag image =
    if image == ""
    then "latest"
    else elim (after_char b':' image) [ some tag ↦ tag | none ↦ "latest" ]

unfoldable pub build_labels : NginxServer → Dict String
build_labels server =
    (label_managed_by, label_managed_by_value)
    ∷ (label_instance, server.meta.name)
    ∷ (label_component, "nginx")
    ∷ (label_part_of, "nginx-operator")
    ∷ ("app.kubernetes.io/name", "nginx")
    ∷ ("app.kubernetes.io/version", extract_image_tag server.spec.image)
    ∷ []

unfoldable pub selector_labels : NginxServer → Dict String
selector_labels server =
    (label_instance, server.meta.name)
    ∷ (label_component, "nginx")
    ∷ ("app.kubernetes.io/name", "nginx")
    ∷ []

-- `metav1.ObjectMeta` of a managed object: a name, the server's namespace and the labels.
abbrev pub managed_meta : NginxServer → String → ObjectMeta
managed_meta server name = record zero_object_meta {
  name = name;
  namespace = server.meta.namespace;
  labels = build_labels server;
}
