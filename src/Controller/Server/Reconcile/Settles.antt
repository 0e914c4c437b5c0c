-- ===== src/Controller/Server/Reconcile/Settles.antt =====
-- A second reconciliation in internal/controller/nginxserver_controller.go, directly after one
-- without an error.
use nginx_operator.Controller.Server.Reconcile.Rest.{CanOwn, IsReflexive}
use nginx_operator.Controller.Cluster.{found, not_found, failed}
use nginx_operator.Base.{false, ◌≡◌, String, List, none}
use nginx_operator.Api.Server.{NginxServer}
use nginx_operator.Api.Route.{NginxRoute}
use nginx_operator.Api.Upstream.{NginxUpstream}
use nginx_operator.Nginx.Objects.{Deployment, DeploymentSpec}
use nginx_operator.Nginx.Labels.{deployment_name}
use nginx_operator.Controller.Cluster.{Cluster, Answer}
use nginx_operator.Controller.Server.Objects.Kept.{Finds}
use nginx_operator.Controller.Server.Objects.Desired.{IsDeployed}
use nginx_operator.Controller.Server.Reconcile.{apply_config}
use nginx_operator.Controller.Server.Reconcile.Realised.{IsKeeping}

module _ {W : Type 0} (cluster : Cluster W) where
  -- The API server fills fields in, also in what it hands out, and the comparison tells every result
  -- from the wanted specification, which leaves one of these fields open.
  pub record Completes (complete : DeploymentSpec → DeploymentSpec) (wanted : DeploymentSpec)
      : Type 0 where
    pub completed :
        (namespace name : String) (kept : Deployment) (w : W)
        → cluster.get_deployment namespace name w ≡ found kept
        → (spec : DeploymentSpec) × (kept.spec ≡ complete spec)
    pub told_apart :
        (spec : DeploymentSpec) → cluster.equal_deployment_specs (complete spec) wanted ≡ false

  module _ (complete : DeploymentSpec → DeploymentSpec) (laws : IsKeeping cluster complete)
      (same : IsReflexive cluster) (reloader_tag version : String) (server : NginxServer)
      (own : CanOwn cluster server) (routes : List NginxRoute) (upstreams : List NginxUpstream)
      (text : String) (w : W)
      (fine : (apply_config cluster reloader_tag version server routes upstreams text w).value.error
        ≡ none) where
    -- The world after the first application.
    abbrev after : W
    after = (apply_config cluster reloader_tag version server routes upstreams text w).world

    told_apart :
        (wanted : DeploymentSpec) (answer : Answer Deployment)
        → Completes complete wanted
        → cluster.get_deployment server.meta.namespace (deployment_name server) after ≡ answer
        → Finds (IsDeployed cluster complete wanted) answer
        → Finds (λ kept. cluster.equal_deployment_specs kept.spec wanted ≡ false) answer
    told_apart wanted (found kept) defaults read there =
        let (spec, e) = defaults.completed _ _ kept after read in rw e (defaults.told_apart spec)
    told_apart wanted (not_found problem) defaults read there = there
    told_apart wanted (failed problem) defaults read there = there
