-- ===== src/Controller/Upstream/Reconcile/Steps.antt =====
-- What the steps of `Reconcile` of internal/controller/nginxupstream_controller.go write.
use nginx_operator.Controller.Reports.{set_ready-IsReported, set_ready_at-IsReported}
use nginx_operator.Controller.Upstream.Reconcile.Justified.{
  IsUnready, IsJustified, of_metadata, of_status, of_trigger,
}
use nginx_operator.Base.{
  ap, Result, ok, err, ◌≡◌, refl, ◌≢◌, inl, inr, String, Bool, true, false, Option, none, some,
}
use nginx_operator.Api.Meta.{
  nginx_upstream_finalizer, condition_ready, condition_true, condition_false,
}
use nginx_operator.Api.Server.{NginxServer}
use nginx_operator.Api.Upstream.{NginxUpstream, NginxServiceDiscoverySpec}
use nginx_operator.Config.Validator.Upstream.{validate_nginx_upstream}
use nginx_operator.Controller.Run.{Sends, ask, return-Sends, ask-Sends, bind-Sends, if-Sends}
use nginx_operator.Controller.Cluster.{Endpoints, Cluster, Answer, found, not_found, failed, Write}
use nginx_operator.Controller.Verdicts.{unless_failed-Sends}
use nginx_operator.Controller.Upstream.Endpoints.{
  resolve_service_endpoints, on_endpoints, with_endpoints,
}
use nginx_operator.Controller.Trigger.{trigger_server-Sends}
use nginx_operator.Controller.Server.Objects.Laws.{Whatever, send-Sends}
use nginx_operator.Controller.Server.Status.Laws.{read_clock-Sends}
use nginx_operator.Controller.Upstream.Reconcile.{
  with_condition, with_applied, update_status_condition, trigger_if_found, handle_deletion,
  ensure_finalizer, finish,
}

module _ {W : Type 0} (cluster : Cluster W) where
  module _ (upstream : NginxUpstream) where
    -- A server that was read under the upstream's reference.
    abbrev pub IsNamed : Answer NginxServer → Type 0
    IsNamed answer =
        (w : W) × (cluster.get_server upstream.meta.namespace upstream.spec.server_ref w ≡ answer)

    pub read_server-Sends :
        {P : Write → Type 0}
        → Sends P IsNamed
            (ask (cluster.get_server upstream.meta.namespace upstream.spec.server_ref))
    read_server-Sends = ask-Sends _ (λ w. (w, refl))

    -- A discovery that succeeded keeps the metadata.
    abbrev pub AllSame : Result NginxUpstream → Type 0
    AllSame (ok u) = u.meta ≡ upstream.meta
    AllSame (err problem) = Unit

    pub resolve-Sends :
        {P : Write → Type 0} (sd : NginxServiceDiscoverySpec)
        → Sends P AllSame (resolve_service_endpoints cluster upstream sd)
    unfolding resolve_service_endpoints on_endpoints with_endpoints
    resolve-Sends sd =
        bind-Sends _ _ (ask-Sends {Q = Whatever} _ (λ w. tt))
          (λ answer _. return-Sends _ (on_endpoints-same answer))
      where
        on_endpoints-same : (answer : Answer Endpoints) → AllSame (on_endpoints upstream sd answer)
        on_endpoints-same (found endpoints) = refl
        on_endpoints-same (not_found problem) = tt
        on_endpoints-same (failed problem) = tt

    -- What a discovery gave.
    abbrev pub IsOutcome : NginxServiceDiscoverySpec → Result NginxUpstream → Type 0
    IsOutcome sd resolved =
        AllSame resolved
        × ((w : W) × ((resolve_service_endpoints cluster upstream sd w).value ≡ resolved))

    pub resolve-IsOutcome :
        {P : Write → Type 0} (sd : NginxServiceDiscoverySpec)
        → Sends P (IsOutcome sd) (resolve_service_endpoints cluster upstream sd)
    resolve-IsOutcome {P} sd =
        let sends : Sends P AllSame (resolve_service_endpoints cluster upstream sd) =
          resolve-Sends sd in
        record { sent = sends.sent; ended = λ w. (sends.ended w, (w, refl)) }

    pub unready-Sends :
        (reason message : String)
        → upstream.meta.deletion_timestamp ≡ none
        → IsUnready cluster upstream
        → Sends (IsJustified cluster upstream) Whatever (
            update_status_condition cluster upstream condition_ready condition_false reason message)
    unfolding update_status_condition with_condition
    unready-Sends reason message kept why = bind-Sends _ _ (read_clock-Sends cluster) (λ now _.
        bind-Sends _ _
          (send-Sends cluster _ (
            of_status _ refl refl kept
              (inr (set_ready-IsReported now condition_false reason message _ _, why))))
          (λ problem _. return-Sends _ tt))

    pub trigger_if_found-Sends :
        (answer : Answer NginxServer)
        → IsNamed answer
        → upstream.meta.deletion_timestamp ≢ none
        → Sends (IsJustified cluster upstream) Whatever (trigger_if_found cluster answer)
    unfolding trigger_if_found
    trigger_if_found-Sends (found server) (w, read) deleted =
        trigger_server-Sends cluster server
          (λ time. of_trigger server time w refl read (inl deleted))
    trigger_if_found-Sends (not_found problem) named deleted = return-Sends _ tt
    trigger_if_found-Sends (failed problem) named deleted = return-Sends _ tt

    pub handle_deletion-Sends :
        upstream.meta.deletion_timestamp ≢ none
        → Sends (IsJustified cluster upstream) Whatever (handle_deletion cluster upstream)
    unfolding handle_deletion
    handle_deletion-Sends deleted =
        if-Sends (cluster.contains_finalizer upstream.meta nginx_upstream_finalizer) _ _
          (λ has. bind-Sends _ _ read_server-Sends (λ answer named.
            bind-Sends _ _ (trigger_if_found-Sends answer named deleted) (λ ignored _.
              bind-Sends _ _ (send-Sends cluster _ (of_metadata _ refl refl refl (inl deleted)))
                (λ problem _. unless_failed-Sends _ _ problem (λ v. tt) (return-Sends _ tt)))))
          (λ lacks. return-Sends _ tt)

    pub ensure_finalizer-Sends :
        cluster.contains_finalizer upstream.meta nginx_upstream_finalizer ≡ false
        → Sends (IsJustified cluster upstream) Whatever (ensure_finalizer cluster upstream)
    unfolding ensure_finalizer
    ensure_finalizer-Sends lacks =
        bind-Sends _ _ (send-Sends cluster _ (of_metadata _ refl refl refl (inr lacks)))
          (λ problem _. unless_failed-Sends _ _ problem (λ v. tt) (return-Sends _ tt))

    pub finish-Sends :
        (server : NginxServer) (refresh : Bool) (u : NginxUpstream) (triggered : Option String)
        → IsNamed (found server)
        → u.meta ≡ upstream.meta
        → upstream.meta.deletion_timestamp ≡ none
        → (validate_nginx_upstream upstream).valid ≡ true
        → Sends (IsJustified cluster upstream) Whatever (finish cluster refresh u triggered)
    unfolding finish with_condition with_applied
    finish-Sends server refresh u (some problem) named same kept good = return-Sends _ tt
    finish-Sends server refresh u none (w, read) same kept good =
        bind-Sends _ _ (read_clock-Sends cluster) (λ now _.
          bind-Sends _ _ (read_clock-Sends cluster) (λ t1 _.
            bind-Sends _ _
              (send-Sends cluster _ (
                of_status _ refl same kept (
                  inl (
                    set_ready_at-IsReported t1 condition_true _ _ _ _ _
                        (ap (λ m. m.generation) same),
                    good,
                    (server, w, read),
                  ))))
              (λ problem _. return-Sends _ tt)))
