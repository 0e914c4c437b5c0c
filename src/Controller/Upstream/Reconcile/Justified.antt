-- ===== src/Controller/Upstream/Reconcile/Justified.antt =====
-- What the writes of internal/controller/nginxupstream_controller.go need.
use nginx_operator.Controller.Reports.{IsReported}
use nginx_operator.Base.{err, ◌≡◌, ◌≢◌, ◌⊎◌, String, true, false, none, some}
use nginx_operator.Api.Meta.{nginx_upstream_finalizer, condition_true, condition_false}
use nginx_operator.Api.Server.{NginxServer}
use nginx_operator.Api.Upstream.{NginxUpstream, NginxServiceDiscoverySpec}
use nginx_operator.Config.Validator.Upstream.{validate_nginx_upstream}
use nginx_operator.Controller.Cluster.{
  Cluster, found, not_found, Write, update_server, update_upstream, update_upstream_status,
}
use nginx_operator.Controller.Upstream.Endpoints.{resolve_service_endpoints}
use nginx_operator.Controller.Trigger.{touched}

module _ {W : Type 0} (cluster : Cluster W) where
  -- Why an upstream is not ready: it is not valid, or there is no such server, or its endpoints were
  -- not resolved.
  pub data IsUnready (upstream : NginxUpstream) : Type 0 where
    invalid : (validate_nginx_upstream upstream).valid ≡ false → IsUnready upstream
    missing :
        (problem : String) (w : W)
        → cluster.get_server upstream.meta.namespace upstream.spec.server_ref w ≡ not_found problem
        → IsUnready upstream
    unresolved :
        (sd : NginxServiceDiscoverySpec) (problem : String) (w : W)
        → upstream.spec.service_discovery ≡ some sd
        → sd.enabled ≡ true
        → (resolve_service_endpoints cluster upstream sd w).value ≡ err problem
        → IsUnready upstream

  -- `Ready` is set to what was found out: to true if the upstream is valid and its server was read,
  -- and else to false.
  abbrev pub Explains : NginxUpstream → NginxUpstream → Type 0
  Explains upstream u =
      (IsReported upstream.meta.generation condition_true u.status.conditions
        × ((validate_nginx_upstream upstream).valid ≡ true)
        × ((server : NginxServer) × (w : W) × (cluster.get_server upstream.meta.namespace
                upstream.spec.server_ref w
              ≡ found server)))
      ⊎ (IsReported upstream.meta.generation condition_false u.status.conditions
          × IsUnready upstream)

  -- What a write needs: the upstream itself only has its metadata changed when it is being deleted or
  -- lacks the finalizer; else only its status; a server is only touched if the upstream names it, and
  -- the upstream is being deleted or valid.
  pub data IsJustified (upstream : NginxUpstream) (write : Write) : Type 0 where
    of_metadata :
        (u : NginxUpstream)
        → write ≡ update_upstream u
        → u.spec ≡ upstream.spec
        → u.status ≡ upstream.status
        → (upstream.meta.deletion_timestamp ≢ none)
          ⊎ (cluster.contains_finalizer upstream.meta nginx_upstream_finalizer ≡ false)
        → IsJustified upstream write
    of_status :
        (u : NginxUpstream)
        → write ≡ update_upstream_status u
        → u.meta ≡ upstream.meta
        → upstream.meta.deletion_timestamp ≡ none
        → Explains upstream u
        → IsJustified upstream write
    of_trigger :
        (server : NginxServer) (time : String) (w : W)
        → write ≡ update_server (touched server time)
        → cluster.get_server upstream.meta.namespace upstream.spec.server_ref w ≡ found server
        → (upstream.meta.deletion_timestamp ≢ none)
          ⊎ ((validate_nginx_upstream upstream).valid ≡ true)
        → IsJustified upstream write
