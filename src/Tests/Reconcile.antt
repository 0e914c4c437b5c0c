-- ===== src/Tests/Reconcile.antt =====
-- Runs of whole reconciliations of internal/controller at a cluster that keeps what is written.
use nginx_operator.Tests.Samples.{edge}
use nginx_operator.Controller.Server.Reconcile.Watched.{Misses, reconcile-MissesWatched}
use nginx_operator.Nginx.Deployment.Mounts.{Sees}
use nginx_operator.Nginx.Deployment.{reloader_container}
use nginx_operator.Nginx.ConfigMaps.{build_conf_d_config_map}
use nginx_operator.Base.{◌<>◌, All, All}
use nginx_operator.Config.Validator.Report.{add_warning_if, add_error_if}
use nginx_operator.Config.Validator.Server.{validate_service, validate_ports}
use nginx_operator.Base.Dict.{lookup, insert}
use nginx_operator.Controller.Run.{◌>>=◌}
use nginx_operator.Controller.Verdicts.{unless_failed}
use nginx_operator.Controller.Server.Objects.{list_routes_for_server, list_upstreams_for_server}
use nginx_operator.Controller.Server.Reconcile.{reconcile_valid, on_listed, generate_and_apply}
use nginx_operator.Nginx.Deployment.{build_deployment}
use nginx_operator.Base.{inl, ◌≡◌, refl, String, [], ◌∷◌, ok, err, Result, Any}
use nginx_operator.Nginx.Objects.{Deployment}
use nginx_operator.Controller.Cluster.{Cluster}
use nginx_operator.Controller.Run.{◌>>=◌}
use nginx_operator.Controller.Verdicts.{unless_failed}
use nginx_operator.Config.Generator.Full.{generate_full_config}
use nginx_operator.Config.Generator.Full.Linked.{IsLinked, generate_full_config-IsLinked}
use nginx_operator.Config.Generator.Full.Laws.{generate_full_config-ok_iff}
use nginx_operator.Config.Validator.Server.{validate_nginx_server}
use nginx_operator.Controller.Server.Objects.{list_upstreams_for_server, list_routes_for_server}
use nginx_operator.Controller.Server.Reconcile.{
  generate_and_apply, on_listed, reconcile_valid, reconcile, apply_config,
}
use nginx_operator.Controller.Server.Reconcile.Laws.{IsReady}
use nginx_operator.Controller.Route.{reconcile as reconcile_route}
use nginx_operator.Tests.Samples.{shop, api}
use nginx_operator.Tests.Cluster.{
  served, empty, Store, cluster, cluster_with, cluster-KeepsConfigMaps, cluster-IsKeeping,
  with_context,
}

abbrev text_of : Result String → String
text_of (ok text) = text
text_of (err problem) = ""

-- The configuration of `served` with `shop` and `api`
abbrev pub full_text : String
full_text = text_of (generate_full_config served (shop ∷ []) (api ∷ []))

pub full_text_lem : generate_full_config served (shop ∷ []) (api ∷ []) ≡ ok full_text
full_text_lem =
    let (text, e) =
      (generate_full_config-ok_iff served (shop ∷ []) (api ∷ [])).1
        (((λ filled. inl refl), tt), tt) in
    rw e refl

generate_full_config-IsLinked_example :
    All (λ r. All (IsLinked full_text (api ∷ [])) r.spec.locations) (shop ∷ [])
generate_full_config-IsLinked_example =
    generate_full_config-IsLinked served (shop ∷ []) (api ∷ []) full_text_lem

pub served-IsReady : IsReady cluster served
unfolding validate_nginx_server add_warning_if validate_service validate_ports add_error_if lookup
    insert
served-IsReady = record { kept = refl; held = refl; valid = refl }

-- A cluster that fills in security contexts, and its state after a configuration was applied
abbrev filling : Cluster Store
filling = cluster_with with_context

abbrev applied : Store
applied = (apply_config filling "" "v1.0.0" served (shop ∷ []) (api ∷ []) "events {}" empty).world

reconcile-MissesWatched_example :
    (dir : String) × Any
      (λ arg. arg ≡ "--watch-dir=" <> dir)
      (reloader_container edge "v1.0.0").args
    × Sees
        (build_deployment edge "v1.0.0").spec.pod
        dir
        ""
        []
        (build_conf_d_config_map edge []).meta.name
        (reloader_container edge "v1.0.0")
    × All
        (Misses (build_conf_d_config_map edge []).meta.name)
        (reconcile cluster "" "v1.0.0" "prod" "edge" empty).calls
reconcile-MissesWatched_example =
    reconcile-MissesWatched cluster ((cluster-IsKeeping (λ spec. spec)).keys)
      (cluster-KeepsConfigMaps (λ spec. spec)).named edge "v1.0.0" [] "" "v1.0.0" "prod" "edge"
      empty
