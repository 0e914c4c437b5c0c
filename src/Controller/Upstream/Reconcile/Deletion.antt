-- ===== src/Controller/Upstream/Reconcile/Deletion.antt =====
-- The deletion in internal/controller/nginxupstream_controller.go.
use nginx_operator.Base.{◌++◌, ◌≡◌, refl, true, List, [], ◌∷◌}
use nginx_operator.Api.Meta.{nginx_upstream_finalizer}
use nginx_operator.Api.Upstream.{NginxUpstream}
use nginx_operator.Controller.Run.{ask, ◌>>=◌}
use nginx_operator.Controller.Cluster.{Cluster, Write, update_upstream, send}
use nginx_operator.Controller.Verdicts.{unless_failed_quiet}
use nginx_operator.Controller.Upstream.Reconcile.{trigger_if_found, handle_deletion}

module _ {W : Type 0} (cluster : Cluster W) where
  -- An upstream with the finalizer that is being deleted: the last write takes the finalizer away,
  -- whatever became of the trigger before it.
  pub handle_upstream_deletion_releases :
      (upstream : NginxUpstream) (w : W)
      → cluster.contains_finalizer upstream.meta nginx_upstream_finalizer ≡ true
      → (triggers : List Write) × ((handle_deletion cluster upstream w).calls
          ≡ triggers
            ++ (update_upstream (record upstream {
              meta = cluster.remove_finalizer upstream.meta nginx_upstream_finalizer;
            })
                ∷ []))
  unfolding handle_deletion ◌>>=◌ ask send
  handle_upstream_deletion_releases upstream w has = (
    (trigger_if_found cluster
        (cluster.get_server upstream.meta.namespace upstream.spec.server_ref w) w).calls,
    rw (has, handle_deletion) (rw unless_failed_quiet refl),
  )
