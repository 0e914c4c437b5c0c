-- ===== src/Controller/Server/Reconcile/Laws.antt =====
-- When `Reconcile` of internal/controller/nginxserver_controller.go writes, and what.
use nginx_operator.Base.{
  All-map, ◌≡◌, refl, ◌≢◌, ◌⊎◌, inl, inr, String, true, false, is_some, List, Option, none, some,
  Result, ok, err, All, Bool-cases,
}
use nginx_operator.Api.Meta.{
  nginx_server_finalizer, condition_config_valid, condition_false, reason_config_invalid,
}
use nginx_operator.Api.Server.{NginxServer}
use nginx_operator.Api.Route.{NginxRoute}
use nginx_operator.Api.Upstream.{NginxUpstream}
use nginx_operator.Config.Validator.Server.{validate_nginx_server}
use nginx_operator.Config.Generator.Full.{generate_full_config, hash}
use nginx_operator.Controller.Verdicts.{unless_failed-Sends}
use nginx_operator.Controller.Run.{
  Run, Sends, return, ask, return-Sends, bind-Sends, weaken-Sends, if-Sends, ◌>>=◌,
}
use nginx_operator.Controller.Cluster.{
  Cluster, Verdict, Answer, found, not_found, failed, Write, update_server,
}
use nginx_operator.Controller.Server.Objects.Laws.{
  Whatever, WritesEntries, WritesHash, WritesService, send-Sends, reconcile_config_map-Sends,
  reconcile_deployment-Sends, reconcile_service-Sends,
}
use nginx_operator.Controller.Server.Objects.Listed.{
  AllOk, list_routes_for_server-Sends, list_upstreams_for_server-Sends,
}
use nginx_operator.Controller.Server.Status.Laws.{
  WritesStatus, update_status-Sends, update_status_condition-Sends,
}
use nginx_operator.Controller.Server.Reconcile.{
  on_listed, handle_deletion, ensure_finalizer, apply_config, generate_and_apply, reconcile_valid,
  reconcile_found, on_answer, reconcile,
}

pub is_some-ne-none : {A : Type 0} (o : Option A) → is_some o ≡ true → o ≢ none
is_some-ne-none none h = cc
is_some-ne-none (some a) h = λ e. cc

pub is_some-eq-none : {A : Type 0} (o : Option A) → is_some o ≡ false → o ≡ none
is_some-eq-none none h = refl
is_some-eq-none (some a) h = cc

module _ {W : Type 0} (cluster : Cluster W) where
  -- The server may be served: it is not being deleted, has the finalizer and is valid.
  pub record IsReady (server : NginxServer) : Type 0 where
    pub kept : server.meta.deletion_timestamp ≡ none
    pub held : cluster.contains_finalizer server.meta nginx_server_finalizer ≡ true
    pub valid : (validate_nginx_server server).valid ≡ true

  -- The text is the configuration of the server with routes and upstreams that name it.
  pub record IsConfig (server : NginxServer) (text : String) : Type 0 where
    pub routes : List NginxRoute
    pub upstreams : List NginxUpstream
    pub routes_named : All (λ r. r.spec.server_ref ≡ server.meta.name) routes
    pub upstreams_named : All (λ u. u.spec.server_ref ≡ server.meta.name) upstreams
    pub generated : generate_full_config server routes upstreams ≡ ok text

  -- What a write needs: an object is only written for a server that may be served, and carries its
  -- configuration; on the server itself only the metadata or only the status changes.
  pub data IsJustified (server : NginxServer) (write : Write) : Type 0 where
    of_metadata :
        (s : NginxServer)
        → write ≡ update_server s
        → s.spec ≡ server.spec
        → s.status ≡ server.status
        → (server.meta.deletion_timestamp ≢ none)
          ⊎ (cluster.contains_finalizer server.meta nginx_server_finalizer ≡ false)
        → IsJustified server write
    of_status : WritesStatus server write → IsJustified server write
    of_object :
        (text : String)
        → IsReady server
        → IsConfig server text
        → (WritesEntries cluster server text write)
          ⊎ (WritesHash cluster server (cluster.sha256_hex text) write)
          ⊎ (WritesService cluster server write)
        → IsJustified server write

  handle_deletion-Sends :
      (server : NginxServer)
      → server.meta.deletion_timestamp ≢ none
      → Sends (IsJustified server) Whatever (handle_deletion cluster server)
  unfolding handle_deletion
  handle_deletion-Sends server deleted =
      elim (Bool-cases (cluster.contains_finalizer server.meta nginx_server_finalizer)) [
        | inl has ↦ rw has (
            bind-Sends _ _ (send-Sends cluster _ (of_metadata _ refl refl refl (inl deleted)))
              (λ problem _. unless_failed-Sends _ _ problem (λ v. tt) (return-Sends _ tt)))
        | inr lacks ↦ rw lacks (return-Sends _ tt)
      ]

  ensure_finalizer-Sends :
      (server : NginxServer)
      → cluster.contains_finalizer server.meta nginx_server_finalizer ≡ false
      → Sends (IsJustified server) Whatever (ensure_finalizer cluster server)
  unfolding ensure_finalizer
  ensure_finalizer-Sends server lacks =
      bind-Sends _ _ (send-Sends cluster _ (of_metadata _ refl refl refl (inr lacks)))
        (λ problem _. unless_failed-Sends _ _ problem (λ v. tt) (return-Sends _ tt))

  module _ (reloader_tag version : String) (server : NginxServer) where
    apply_config-Sends :
        (routes : List NginxRoute) (upstreams : List NginxUpstream) (text : String)
        → IsReady server
        → IsConfig server text
        → Sends
            (IsJustified server)
            Whatever
            (apply_config cluster reloader_tag version server routes upstreams text)
    unfolding apply_config hash
    apply_config-Sends routes upstreams text ready config =
        bind-Sends _ _
          (weaken-Sends _ (λ c h. of_object text ready config (inl h))
            (reconcile_config_map-Sends cluster server text))
          (λ p1 _.
            unless_failed-Sends _ _ p1 (λ v. tt)
              (bind-Sends _ _
                (weaken-Sends _ (λ c h. of_object text ready config (inr (inl h)))
                  (reconcile_deployment-Sends cluster _ server _))
                (λ p2 _.
                  unless_failed-Sends _ _ p2 (λ v. tt)
                    (bind-Sends _ _
                      (weaken-Sends _ (λ c h. of_object text ready config (inr (inr h)))
                        (reconcile_service-Sends cluster server))
                      (λ p3 _.
                        unless_failed-Sends _ _ p3 (λ v. tt)
                          (weaken-Sends _ (λ c h. of_status h)
                            (update_status-Sends cluster server _ _ _)))))))

    generate_and_apply-Sends :
        (routes : List NginxRoute) (upstreams : List NginxUpstream) (made : Result String)
        → IsReady server
        → ((text : String) → made ≡ ok text → IsConfig server text)
        → Sends
            (IsJustified server)
            Whatever
            (generate_and_apply cluster reloader_tag version server routes upstreams made)
    unfolding generate_and_apply
    generate_and_apply-Sends routes upstreams (ok text) ready config =
        apply_config-Sends routes upstreams text ready (config text refl)
    generate_and_apply-Sends routes upstreams (err problem) ready config =
        bind-Sends _ _
          (weaken-Sends _ (λ c h. of_status h)
            (update_status_condition-Sends cluster server condition_config_valid condition_false
              reason_config_invalid problem))
          (λ ignored _. return-Sends _ tt)

    on_listed-Sends :
        {A : Type 0} {N : A → Type 0} (prefix : String) (rest : List A → Run W Write Verdict)
        (listed : Result (List A))
        → AllOk N listed
        → ((items : List A) → All N items → Sends (IsJustified server) Whatever (rest items))
        → Sends (IsJustified server) Whatever (on_listed cluster prefix rest listed)
    unfolding on_listed
    on_listed-Sends prefix rest (ok items) named h = h items named
    on_listed-Sends prefix rest (err problem) named h = return-Sends _ tt

    reconcile_valid-Sends :
        IsReady server
        → Sends (IsJustified server) Whatever (reconcile_valid cluster reloader_tag version server)
    unfolding reconcile_valid
    reconcile_valid-Sends ready =
        bind-Sends _ _ (list_routes_for_server-Sends cluster server) (λ listed_routes ours.
          on_listed-Sends _ _ listed_routes ours (λ routes routes_ours.
            bind-Sends _ _ (list_upstreams_for_server-Sends cluster server)
              (λ listed_upstreams ours'.
                on_listed-Sends _ _ listed_upstreams ours' (λ upstreams upstreams_ours.
                  generate_and_apply-Sends routes upstreams _ ready (λ text made. record {
                    routes = routes;
                    upstreams = upstreams;
                    routes_named = routes_ours;
                    upstreams_named = upstreams_ours;
                    generated = made;
                  })))))

    reconcile_found-Sends :
        Sends (IsJustified server) Whatever (reconcile_found cluster reloader_tag version server)
    unfolding reconcile_found
    reconcile_found-Sends =
        if-Sends _ _ _ (λ deleted. handle_deletion-Sends server (is_some-ne-none _ deleted))
          (λ kept.
            if-Sends _ _ _
              (λ has.
                if-Sends _ _ _
                  (λ good.
                    reconcile_valid-Sends
                      (record { kept = is_some-eq-none _ kept; held = has; valid = good }))
                  (λ bad.
                    weaken-Sends _ (λ c h. of_status h)
                      (update_status_condition-Sends cluster server _ _ _ _)))
              (λ lacks. ensure_finalizer-Sends server lacks))

  pub reconcile-IsJustified :
      (reloader_tag version namespace name : String) (w : W)
      → All
          (λ write.
            (server : NginxServer) × (cluster.get_server namespace name w ≡ found server)
            × IsJustified server write)
          (reconcile cluster reloader_tag version namespace name w).calls
  unfolding reconcile ◌>>=◌ ask on_answer return
  reconcile-IsJustified reloader_tag version namespace name w =
      answered (cluster.get_server namespace name w) refl
    where
      answered :
          (answer : Answer NginxServer)
          → cluster.get_server namespace name w ≡ answer
          → All
              (λ write.
                (server : NginxServer) × (cluster.get_server namespace name w ≡ found server)
                × IsJustified server write)
              (on_answer cluster reloader_tag version answer w).calls
      answered (not_found problem) e = tt
      answered (failed problem) e = tt
      answered (found server) e =
          All-map (λ write h. (server, e, h)) _
            ((reconcile_found-Sends reloader_tag version server).sent w)
