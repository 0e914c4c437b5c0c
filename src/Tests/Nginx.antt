-- ===== src/Tests/Nginx.antt =====
-- Instances for internal/nginx/manager.go.
use nginx_operator.Nginx.ConfigMaps.{build_config_map, build_conf_d_config_map}
use nginx_operator.Nginx.Labels.{config_map_name, conf_d_config_map_name}
use nginx_operator.Nginx.Deployment.{build_deployment}
use nginx_operator.Nginx.Deployment.Mounts.{SeesMain, Sees, build_deployment-Mounts}
use nginx_operator.Api.Meta.{label_component}
use nginx_operator.Nginx.Labels.{selector_labels}
use nginx_operator.Base.{[], some, All, ◌≡◌, refl, ◌<>◌, arith, eq_iff}
use nginx_operator.Base.Text.{contains_char, after_char}
use nginx_operator.Base.Dict.{lookup}
use nginx_operator.Nginx.Labels.{extract_image_tag}
use nginx_operator.Nginx.Labels.Laws.{extract_image_tag-append}
use nginx_operator.Nginx.Deployment.Laws.{
  MatchesSelector, build_deployment-MatchesSelector, build_deployment_mismatch,
}
use nginx_operator.Nginx.Service.{build_service}
use nginx_operator.Nginx.Service.Laws.{IsServable, build_service-IsServable}
use nginx_operator.Tests.Samples.{edge, relabelled}

extract_image_tag-append_example :
    extract_image_tag ("localhost" <> ":" <> "5000/nginx:1.27") ≡ "5000/nginx:1.27"
unfolding contains_char
extract_image_tag-append_example = extract_image_tag-append "localhost" "5000/nginx:1.27" refl

build_deployment-MatchesSelector_example : MatchesSelector edge "v1.0.0"
unfolding lookup
build_deployment-MatchesSelector_example =
    build_deployment-MatchesSelector edge "v1.0.0" (refl, tt) refl refl refl

build_deployment_mismatch_example : ¬ MatchesSelector relabelled "v1.0.0"
unfolding lookup build_deployment selector_labels
build_deployment_mismatch_example =
    build_deployment_mismatch relabelled "v1.0.0" label_component "nginx" "proxy" (refl, tt) refl
      refl (ground (arith, eq_iff "proxy" "nginx"))

build_service-IsServable_example : IsServable (build_service edge).spec.ports
build_service-IsServable_example = build_service-IsServable edge

build_deployment-Mounts_example :
    All
      (λ c.
        SeesMain (build_deployment edge "v1.0.0").spec.pod "edge-nginx-config" c
        × Sees
            (build_deployment edge "v1.0.0").spec.pod
            "/etc/nginx/conf.d"
            ""
            []
            "edge-nginx-confd"
            c)
      (build_deployment edge "v1.0.0").spec.pod.containers
    × (lookup "nginx.conf" (build_config_map edge "events {}" []).entries ≡ some "events {}")
    × ((build_config_map edge "events {}" []).meta.namespace
        ≡ (build_deployment edge "v1.0.0").meta.namespace)
    × ((build_conf_d_config_map edge []).meta.namespace
        ≡ (build_deployment edge "v1.0.0").meta.namespace)
unfolding build_config_map build_conf_d_config_map config_map_name conf_d_config_map_name
build_deployment-Mounts_example = build_deployment-Mounts edge "v1.0.0" "events {}" []

tag_of_image : extract_image_tag "nginx:1.27-alpine" ≡ "1.27-alpine"
unfolding extract_image_tag after_char
tag_of_image = refl

tag_without_colon : extract_image_tag "nginx" ≡ "latest"
unfolding extract_image_tag after_char
tag_without_colon = refl
