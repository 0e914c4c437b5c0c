-- ===== src/Nginx/Deployment/Mounts.antt =====
-- Which ConfigMaps of internal/nginx/manager.go the containers of a Deployment see, and where.
use nginx_operator.Base.{
  ◌≡◌, refl, inl, inr, String, Bool, true, List, [], ◌∷◌, Option, none, some, All, Any,
}
use nginx_operator.Base.Dict.{Dict, lookup}
use nginx_operator.Api.Server.{NginxServer}
use nginx_operator.Nginx.Objects.{mount, config_map_volume, Container, PodSpec}
use nginx_operator.Nginx.ConfigMaps.{build_config_map, build_conf_d_config_map}
use nginx_operator.Nginx.Deployment.{
  nginx_container, reloader_container, build_volumes, build_deployment,
}

-- The container sees the ConfigMap of the name at the path: a mount there names a volume of the pod
-- over this ConfigMap. Without items the volume has all its entries.
abbrev pub Sees : PodSpec → String → String → List (String × String) → String → Container → Type 0
Sees pod path sub_path items config_map container =
    Any
      (λ m.
        Any
          (λ v.
            (name : String) × (optional : Option Bool) × (m ≡ mount name path sub_path true)
            × (v ≡ config_map_volume name config_map items optional))
          pod.volumes)
      container.volume_mounts

-- The containers see the main file of the ConfigMap.
abbrev pub SeesMain : PodSpec → String → Container → Type 0
SeesMain pod = Sees pod "/etc/nginx/nginx.conf" "nginx.conf" (("nginx.conf", "nginx.conf") ∷ [])

module _ (server : NginxServer) (tag : String) where
  -- Both containers of a Deployment see, as `/etc/nginx/nginx.conf`, the entry of the server's main
  -- ConfigMap that holds the main configuration, from the namespace of the Deployment; and, as
  -- `/etc/nginx/conf.d`, all of its second ConfigMap.
  pub build_deployment-Mounts :
      (text : String) (server_configs : Dict String)
      → All
          (λ c.
            SeesMain
              (build_deployment server tag).spec.pod
              (build_config_map server text server_configs).meta.name
              c
            × Sees
                (build_deployment server tag).spec.pod
                "/etc/nginx/conf.d"
                ""
                []
                (build_conf_d_config_map server server_configs).meta.name
                c)
          (build_deployment server tag).spec.pod.containers
        × (lookup "nginx.conf" (build_config_map server text server_configs).entries ≡ some text)
        × ((build_config_map server text server_configs).meta.namespace
            ≡ (build_deployment server tag).meta.namespace)
        × ((build_conf_d_config_map server server_configs).meta.namespace
            ≡ (build_deployment server tag).meta.namespace)
  unfolding build_deployment build_config_map build_conf_d_config_map nginx_container
      reloader_container build_volumes lookup
  build_deployment-Mounts text server_configs = (
    (
      (
        inl (inl ("nginx-config", none, refl, refl)),
        inr (inl (inr (inl ("nginx-confd", some true, refl, refl)))),
      ),
      (
        (
          inl (inl ("nginx-config", none, refl, refl)),
          inr (inl (inr (inl ("nginx-confd", some true, refl, refl)))),
        ),
        tt,
      ),
    ),
    refl,
    refl,
    refl,
  )

  -- The sidecar sees the second ConfigMap as `/etc/nginx/conf.d`.
  pub reloader_container-Sees :
      (server_configs : Dict String)
      → Sees
          (build_deployment server tag).spec.pod
          "/etc/nginx/conf.d"
          ""
          []
          (build_conf_d_config_map server server_configs).meta.name
          (reloader_container server tag)
  unfolding build_deployment
  reloader_container-Sees server_configs = (build_deployment-Mounts "" server_configs).0.1.0.1
