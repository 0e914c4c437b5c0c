-- ===== src/Controller/System/Fair.antt =====
-- Which ConfigMaps the writes of internal/controller carry.
use nginx_operator.Controller.System.{Carries, IsOurs}
use nginx_operator.Base.{◌∙◌, sym, subst, inl, inr, String}
use nginx_operator.Api.Server.{NginxServer}
use nginx_operator.Api.Route.{NginxRoute}
use nginx_operator.Api.Upstream.{NginxUpstream}
use nginx_operator.Nginx.Objects.{ConfigMap}
use nginx_operator.Controller.Cluster.{
  Cluster, Write, create_config_map, update_config_map, create_deployment, update_deployment,
  create_service, update_service, update_server_status,
}
use nginx_operator.Controller.Server.Objects.Laws.{WritesEntries, WritesHash, WritesService}
use nginx_operator.Controller.Server.Objects.Desired.{KeepsKeys}
use nginx_operator.Controller.Server.Status.Laws.{WritesStatus}
use nginx_operator.Controller.Server.Reconcile.Laws.{
  IsReady, IsConfig, IsJustified, of_metadata, of_status, of_object,
}
use nginx_operator.Controller.Server.Reconcile.Watched.{NamesConfigMaps}
use nginx_operator.Controller.Route.Laws as RouteLaws
use nginx_operator.Controller.Upstream.Reconcile.Justified as UpstreamWrites

module _ {W : Type 0} (cluster : Cluster W) where
  -- If it carries a ConfigMap, it is such a one.
  abbrev pub IsFair : Write → Type 0
  IsFair write = (kept : ConfigMap) → Carries kept write → IsOurs cluster kept

  module _ (keys : KeepsKeys cluster) (names : NamesConfigMaps cluster) where
    entries-IsFair :
        (server : NginxServer) (text : String)
        → IsReady cluster server
        → IsConfig cluster server text
        → (write : Write) → WritesEntries cluster server text write
        → IsFair write
    entries-IsFair server text ready config (create_config_map cm) (same, set) =
        let (space, key) = keys server _ cm.meta set in
        λ kept (entries, space', key'). record {
          server = server;
          text = text;
          entries = entries ∙ same;
          namespace = space' ∙ space;
          name = key' ∙ key;
          ready = ready;
          config = config;
        }
    entries-IsFair server text ready config (update_config_map cm)
          (same, (meta, set, (existing, w, read, space1, key1))) =
        let (space, key) = keys server _ meta set in
        let (space2, key2) = names _ _ existing w read in
        λ kept (entries, space', key'). record {
          server = server;
          text = text;
          entries = entries ∙ same;
          namespace = space' ∙ space1 ∙ space2 ∙ space;
          name = key' ∙ key1 ∙ key2 ∙ key;
          ready = ready;
          config = config;
        }
    entries-IsFair server text ready config _ h = absurd h

    hash-IsFair :
        (server : NginxServer) (config_hash : String) (write : Write)
        → WritesHash cluster server config_hash write
        → IsFair write
    hash-IsFair server config_hash (create_deployment d) h = λ kept no. absurd no
    hash-IsFair server config_hash (update_deployment d) h = λ kept no. absurd no
    hash-IsFair server config_hash _ h = absurd h

    service-IsFair :
        (server : NginxServer) (write : Write) → WritesService cluster server write → IsFair write
    service-IsFair server (create_service s) h = λ kept no. absurd no
    service-IsFair server (update_service s) h = λ kept no. absurd no
    service-IsFair server _ h = absurd h

    status-IsFair :
        (server : NginxServer) (write : Write) → WritesStatus server write → IsFair write
    status-IsFair server (update_server_status s) h = λ kept no. absurd no
    status-IsFair server _ h = absurd h

    pub justified-IsFair :
        (server : NginxServer) (write : Write) → IsJustified cluster server write → IsFair write
    justified-IsFair server write (of_metadata s e _ _ _) =
        subst IsFair (sym e) (λ kept no. absurd no)
    justified-IsFair server write (of_status h) = status-IsFair server write h
    justified-IsFair server write (of_object text ready config (inl h)) =
        entries-IsFair server text ready config write h
    justified-IsFair server write (of_object text ready config (inr (inl h))) =
        hash-IsFair server (cluster.sha256_hex text) write h
    justified-IsFair server write (of_object text ready config (inr (inr h))) =
        service-IsFair server write h

  pub of_route-IsFair :
      (route : NginxRoute) (write : Write)
      → RouteLaws.IsJustified cluster route write
      → IsFair write
  of_route-IsFair route write (RouteLaws.of_metadata r e _ _ _) =
      subst IsFair (sym e) (λ kept no. absurd no)
  of_route-IsFair route write (RouteLaws.of_status r e _ _ _ _) =
      subst IsFair (sym e) (λ kept no. absurd no)
  of_route-IsFair route write (RouteLaws.of_trigger server time w e _ _) =
      subst IsFair (sym e) (λ kept no. absurd no)

  pub of_upstream-IsFair :
      (upstream : NginxUpstream) (write : Write)
      → UpstreamWrites.IsJustified cluster upstream write
      → IsFair write
  of_upstream-IsFair upstream write (UpstreamWrites.of_metadata u e _ _ _) =
      subst IsFair (sym e) (λ kept no. absurd no)
  of_upstream-IsFair upstream write (UpstreamWrites.of_status u e _ _ _) =
      subst IsFair (sym e) (λ kept no. absurd no)
  of_upstream-IsFair upstream write (UpstreamWrites.of_trigger server time w e _ _) =
      subst IsFair (sym e) (λ kept no. absurd no)
