-- ===== src/Controller/Server/Reconcile/Complete.antt =====
-- What a reconciliation without an error means in internal/controller/nginxserver_controller.go.
use nginx_operator.Base.{
  Any-append_right, ◌≡◌, refl, inl, ℕ, String, Bool, true, false, List, ◌++◌, Option, none, some,
  Any,
}
use nginx_operator.Api.Meta.{Time}
use nginx_operator.Api.Server.{NginxServer}
use nginx_operator.Api.Route.{NginxRoute}
use nginx_operator.Api.Upstream.{NginxUpstream}
use nginx_operator.Config.Generator.Full.{hash}
use nginx_operator.Controller.Run.{Run, return, ask, ◌>>=◌}
use nginx_operator.Controller.Cluster.{
  Cluster, Verdict, Write, update_server_status, send, read_clock,
}
use nginx_operator.Controller.Verdicts.{unless_failed}
use nginx_operator.Controller.Server.Objects.{
  effective_tag, reconcile_config_map, reconcile_deployment, reconcile_service,
}
use nginx_operator.Controller.Server.Status.{
  with_condition, with_observed, with_ready, deploy_ready, update_status,
}
use nginx_operator.Controller.Server.Reconcile.{apply_config}

-- A status of the server's generation, with the hash.
abbrev pub Records : NginxServer → String → Write → Type 0
Records server config_hash (update_server_status s) =
    (s.status.config_hash ≡ config_hash) × (s.status.observed_generation ≡ server.meta.generation)
Records server config_hash _ = ⊥

with_ready-Records :
    (server : NginxServer) (config_hash : String) (ready : Bool) (now : Time) (s : NginxServer)
    → Records server config_hash (update_server_status s)
    → Records server config_hash (update_server_status (with_ready ready now s))
unfolding with_ready with_condition
with_ready-Records server config_hash true now s h = h
with_ready-Records server config_hash false now s h = h

module _ {W : Type 0} where
  -- A step before others: the whole ends without an error only if the step and the others do.
  step_passed :
      (P : Write → Type 0) (prefix : String) (rest : Run W Write Verdict) (sent : List Write)
      (problem : Option String) (w : W)
      → (unless_failed prefix rest problem w).value.error ≡ none
      → (problem ≡ none)
        × ((rest w).value.error ≡ none)
        × (Any P (rest w).calls → Any P (sent ++ (unless_failed prefix rest problem w).calls))
  unfolding unless_failed return
  step_passed P prefix rest sent none w fine = (refl, fine, Any-append_right P sent _)
  step_passed P prefix rest sent (some problem) w fine = cc

module _ {W : Type 0} (cluster : Cluster W) where
  update_status-Records :
      (server : NginxServer) (config_hash : String) (routes upstreams : ℕ) (w : W)
      → Any
          (Records server config_hash)
          (update_status cluster server config_hash routes upstreams w).calls
  unfolding update_status ◌>>=◌ ask send read_clock return with_condition with_observed
  update_status-Records server config_hash routes upstreams w = inl (
      with_ready-Records server config_hash (deploy_ready _) _ (with_observed _ _ _ _ _ server)
        (refl, refl))

  -- The three objects were reconciled without an error, one after the other, and the status of the
  -- server's generation was sent with the hash.
  pub record IsApplied (tag : String) (server : NginxServer) (text : String) (w : W)
      (sent : List Write) : Type 0 where
    pub config_map : (reconcile_config_map cluster server text w).value ≡ none
    pub deployment :
        (reconcile_deployment cluster tag server
          (cluster.sha256_hex text)
          (reconcile_config_map cluster server text w).world).value
        ≡ none
    pub service :
        (reconcile_service cluster server
          (reconcile_deployment cluster tag server
            (cluster.sha256_hex text)
            (reconcile_config_map cluster server text w).world).world).value
        ≡ none
    pub recorded : Any (Records server (cluster.sha256_hex text)) sent

  -- If applying a configuration ends without an error, then the ConfigMap, the Deployment and the
  -- Service were each reconciled without an error, in this order, and the status was sent with the
  -- hash of the configuration.
  pub apply_config-IsApplied :
      (reloader_tag version : String) (server : NginxServer) (routes : List NginxRoute)
      (upstreams : List NginxUpstream) (text : String) (w : W)
      → (apply_config cluster reloader_tag version server routes upstreams text w).value.error
        ≡ none
      → IsApplied
          (effective_tag reloader_tag version)
          server
          text
          w
          (apply_config cluster reloader_tag version server routes upstreams text w).calls
  unfolding apply_config ◌>>=◌ hash
  apply_config-IsApplied reloader_tag version server routes upstreams text w fine =
      let (p1, fine1, join1) =
        step_passed (Records server (cluster.sha256_hex text)) _ _ _ _ _ fine in
      let (p2, fine2, join2) =
        step_passed (Records server (cluster.sha256_hex text)) _ _ _ _ _ fine1 in
      let (p3, fine3, join3) =
        step_passed (Records server (cluster.sha256_hex text)) _ _ _ _ _ fine2 in
      record {
        config_map = p1;
        deployment = p2;
        service = p3;
        recorded = join1 (join2 (join3 (update_status-Records server _ _ _ _)));
      }
