-- ===== src/Controller/Route/Deletion.antt =====
-- The deletion in internal/controller/nginxroute_controller.go.
use nginx_operator.Base.{◌++◌, ◌≡◌, refl, true, List, [], ◌∷◌}
use nginx_operator.Api.Meta.{nginx_route_finalizer}
use nginx_operator.Api.Route.{NginxRoute}
use nginx_operator.Controller.Run.{ask, ◌>>=◌}
use nginx_operator.Controller.Cluster.{Cluster, Write, update_route, send}
use nginx_operator.Controller.Verdicts.{unless_failed_quiet}
use nginx_operator.Controller.Route.{trigger_if_found, handle_deletion}

module _ {W : Type 0} (cluster : Cluster W) where
  -- A route with the finalizer that is being deleted: the last write takes the finalizer away,
  -- whatever became of the trigger before it.
  pub handle_deletion_releases :
      (route : NginxRoute) (w : W)
      → cluster.contains_finalizer route.meta nginx_route_finalizer ≡ true
      → (triggers : List Write) × ((handle_deletion cluster route w).calls
          ≡ triggers
            ++ (update_route (record route {
              meta = cluster.remove_finalizer route.meta nginx_route_finalizer;
            })
                ∷ []))
  unfolding handle_deletion ◌>>=◌ ask send
  handle_deletion_releases route w has = (
    (trigger_if_found cluster (cluster.get_server route.meta.namespace route.spec.server_ref w)
        w).calls,
    rw (has, handle_deletion) (rw unless_failed_quiet refl),
  )
