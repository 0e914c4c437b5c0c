-- ===== src/Tests/Controller.antt =====
-- Instances for internal/controller.
use nginx_operator.Base.{map, ◌++◌, ◌≡◌, refl, List, [], ◌∷◌, some, All}
use nginx_operator.Base.Int.{pos}
use nginx_operator.Api.Meta.{Condition}
use nginx_operator.Api.Route.{NginxRoute}
use nginx_operator.Api.Upstream.{NginxUpstream}
use nginx_operator.Controller.Conditions.{set_condition}
use nginx_operator.Controller.Conditions.Laws.{
  find_condition, DistinctTypes, find_condition-set_condition, set_condition-DistinctTypes,
}
use nginx_operator.Controller.Cluster.{Endpoints, update_route, update_upstream, found, Write, send}
use nginx_operator.Controller.Run.{◌>>=◌, ask}
use nginx_operator.Controller.Server.Objects.{
  reconcile_config_map, owned, write_config_map, create_or_update,
}
use nginx_operator.Controller.Server.Reconcile.{reconcile}
use nginx_operator.Controller.Server.Reconcile.Laws.{IsJustified}
use nginx_operator.Controller.Route.{
  reconcile as reconcile_route, handle_deletion as route_deletion,
}
use nginx_operator.Controller.Route.Laws.{
  IsJustified as RouteJustified, reconcile_route-IsJustified,
}
use nginx_operator.Controller.Upstream.Reconcile.{
  reconcile as reconcile_upstream, handle_deletion as upstream_deletion,
}
use nginx_operator.Controller.Upstream.Reconcile.Justified.{IsJustified as UpstreamJustified}
use nginx_operator.Controller.Upstream.Reconcile.Laws.{reconcile_upstream-IsJustified}
use nginx_operator.Controller.Upstream.Endpoints.{with_endpoints, endpoint_text}
use nginx_operator.Controller.Upstream.Endpoints.Laws.{all_addresses, with_endpoints-backends}
use nginx_operator.Controller.Verdicts.{unless_failed}
use nginx_operator.Controller.Server.Reconcile.{apply_config}
use nginx_operator.Controller.Server.Reconcile.Complete.{IsApplied, apply_config-IsApplied}
use nginx_operator.Controller.Server.Objects.{
  effective_tag, reconcile_deployment, reconcile_service, write_deployment, write_service,
}
use nginx_operator.Controller.Server.Status.{update_status}
use nginx_operator.Controller.Run.{return}
use nginx_operator.Controller.Cluster.{read_clock}
use nginx_operator.Controller.Route.Deletion.{handle_deletion_releases}
use nginx_operator.Controller.Upstream.Reconcile.Deletion.{handle_upstream_deletion_releases}
use nginx_operator.Tests.Samples.{shop, api}
use nginx_operator.Tests.Cluster.{empty, served, bound, pooled, cluster}

abbrev conditions : List Condition
conditions =
    (record {
      type = "Ready";
      status = "False";
      observed_generation = pos 1;
      last_transition_time = 3;
      reason = "Failed";
      message = "image is required";
    })
    ∷ []

find_condition-set_condition_example :
    find_condition "Ready" (set_condition 9 "Ready" "True" "Reconciled" "fine" (pos 2) conditions)
    ≡ some (record {
      type = "Ready";
      status = "True";
      observed_generation = pos 2;
      last_transition_time = 9;
      reason = "Reconciled";
      message = "fine";
    })
find_condition-set_condition_example =
    find_condition-set_condition 9 "Ready" "True" "Reconciled" "fine" (pos 2) "Ready" conditions

set_condition-DistinctTypes_example :
    DistinctTypes (set_condition 9 "ConfigValid" "True" "ConfigGenerated" "fine" (pos 2) conditions)
set_condition-DistinctTypes_example =
    set_condition-DistinctTypes 9 "ConfigValid" "True" "ConfigGenerated" "fine" (pos 2) conditions
      (refl, tt)

-- `shop` on its way out
abbrev leaving : NginxRoute
leaving = record bound { meta = record bound.meta { deletion_timestamp = some 6 } }

abbrev draining : NginxUpstream
draining = record pooled { meta = record pooled.meta { deletion_timestamp = some 6 } }

reconcile_route-IsJustified_example :
    All
      (λ write.
        (route : NginxRoute) × (cluster.get_route "prod" "shop" empty ≡ found route)
        × RouteJustified cluster route write)
      (reconcile_route cluster "prod" "shop" empty).calls
reconcile_route-IsJustified_example = reconcile_route-IsJustified cluster "prod" "shop" empty

reconcile_upstream-IsJustified_example :
    All
      (λ write.
        (upstream : NginxUpstream) × (cluster.get_upstream "prod" "api" empty ≡ found upstream)
        × UpstreamJustified cluster upstream write)
      (reconcile_upstream cluster "prod" "api" empty).calls
reconcile_upstream-IsJustified_example = reconcile_upstream-IsJustified cluster "prod" "api" empty

handle_deletion_releases_example :
    (triggers : List Write) × ((route_deletion cluster leaving empty).calls
      ≡ triggers
        ++ (update_route (record leaving { meta = record leaving.meta { finalizers = [] } }) ∷ []))
handle_deletion_releases_example = handle_deletion_releases cluster leaving empty refl

handle_upstream_deletion_releases_example :
    (triggers : List Write) × ((upstream_deletion cluster draining empty).calls
      ≡ triggers
        ++ (update_upstream (record draining { meta = record draining.meta { finalizers = [] } })
            ∷ []))
handle_upstream_deletion_releases_example =
    handle_upstream_deletion_releases cluster draining empty refl

abbrev two_subsets : Endpoints
two_subsets = record { subsets = ("10.0.0.7" ∷ "10.0.0.8" ∷ []) ∷ ("10.0.1.1" ∷ []) ∷ [] }

with_endpoints-backends_example :
    (map (λ b. b.address) (with_endpoints api (pos 80) two_subsets).spec.backends
      ≡ all_addresses two_subsets.subsets)
    × All (λ b. b.port ≡ pos 80) (with_endpoints api (pos 80) two_subsets).spec.backends
    × ((with_endpoints api (pos 80) two_subsets).status.discovered_endpoints
        ≡ map
            (λ b. endpoint_text b.port b.address)
            (with_endpoints api (pos 80) two_subsets).spec.backends)
with_endpoints-backends_example = with_endpoints-backends api (pos 80) two_subsets

apply_config-IsApplied_example :
    IsApplied cluster
      (effective_tag "" "v1.0.0")
      served
      "events {}"
      empty
      (apply_config cluster "" "v1.0.0" served (shop ∷ []) (api ∷ []) "events {}" empty).calls
unfolding apply_config unless_failed reconcile_config_map reconcile_deployment reconcile_service
    write_config_map write_deployment write_service owned create_or_update ask send return
    read_clock update_status ◌>>=◌
apply_config-IsApplied_example =
    apply_config-IsApplied cluster "" "v1.0.0" served (shop ∷ []) (api ∷ []) "events {}" empty refl
