-- ===== src/Controller/Upstream/Reconcile/Laws.antt =====
-- When internal/controller/nginxupstream_controller.go writes, and what.
use nginx_operator.Controller.Upstream.Reconcile.Steps.{
  IsNamed, read_server-Sends, IsOutcome, resolve-IsOutcome, unready-Sends, handle_deletion-Sends,
  ensure_finalizer-Sends, finish-Sends,
}
use nginx_operator.Controller.Upstream.Reconcile.Justified.{
  invalid, missing, unresolved, IsJustified, of_trigger,
}
use nginx_operator.Base.{
  Result, ok, err, ◌≡◌, refl, inr, String, Bool, true, false, Option, none, some, All, All-map,
}
use nginx_operator.Api.Server.{NginxServer}
use nginx_operator.Api.Upstream.{NginxUpstream, NginxServiceDiscoverySpec}
use nginx_operator.Config.Validator.Upstream.{validate_nginx_upstream}
use nginx_operator.Controller.Run.{Sends, return, ask, ◌>>=◌, return-Sends, bind-Sends, if-Sends}
use nginx_operator.Controller.Cluster.{Cluster, Answer, found, not_found, failed}
use nginx_operator.Controller.Trigger.{trigger_server-Sends}
use nginx_operator.Controller.Server.Objects.Laws.{Whatever}
use nginx_operator.Controller.Server.Reconcile.Laws.{is_some-ne-none, is_some-eq-none}
use nginx_operator.Controller.Upstream.Reconcile.{
  on_resolved, on_discovery, trigger_and_finish, on_server, reconcile_found, on_answer, reconcile,
}

module _ {W : Type 0} (cluster : Cluster W) where
  module _ (upstream : NginxUpstream) where
    -- The steps from the server to the end, for a valid upstream.
    module _ (server : NginxServer) (named : IsNamed cluster upstream (found server))
        (kept : upstream.meta.deletion_timestamp ≡ none)
        (good : (validate_nginx_upstream upstream).valid ≡ true) where
      trigger_and_finish-Sends :
          (refresh : Bool) (u : NginxUpstream)
          → u.meta ≡ upstream.meta
          → Sends
              (IsJustified cluster upstream)
              Whatever
              (trigger_and_finish cluster refresh server u)
      unfolding trigger_and_finish
      trigger_and_finish-Sends refresh u same =
          bind-Sends _ _
            (trigger_server-Sends cluster server
              (λ time. of_trigger server time named.0 refl named.1 (inr good)))
            (λ triggered _.
              finish-Sends cluster upstream server refresh u triggered named same kept good)

      on_resolved-Sends :
          (sd : NginxServiceDiscoverySpec) (resolved : Result NginxUpstream)
          → upstream.spec.service_discovery ≡ some sd
          → sd.enabled ≡ true
          → IsOutcome cluster upstream sd resolved
          → Sends
              (IsJustified cluster upstream)
              Whatever
              (on_resolved cluster server upstream resolved)
      unfolding on_resolved
      on_resolved-Sends sd (ok u) given on (same, outcome) = trigger_and_finish-Sends true u same
      on_resolved-Sends sd (err problem) given on (same, (w, outcome)) =
          unready-Sends cluster upstream _ _ kept (unresolved sd problem w given on outcome)

      on_discovery-Sends :
          (sd : Option NginxServiceDiscoverySpec)
          → upstream.spec.service_discovery ≡ sd
          → Sends (IsJustified cluster upstream) Whatever (on_discovery cluster server upstream sd)
      unfolding on_discovery
      on_discovery-Sends none given = trigger_and_finish-Sends false upstream refl
      on_discovery-Sends (some sd) given =
          if-Sends sd.enabled _ _
            (λ on.
              bind-Sends _ _ (resolve-IsOutcome cluster upstream sd)
                (λ resolved outcome. on_resolved-Sends sd resolved given on outcome))
            (λ off. trigger_and_finish-Sends false upstream refl)

    on_server-Sends :
        (answer : Answer NginxServer)
        → IsNamed cluster upstream answer
        → upstream.meta.deletion_timestamp ≡ none
        → (validate_nginx_upstream upstream).valid ≡ true
        → Sends (IsJustified cluster upstream) Whatever (on_server cluster upstream answer)
    unfolding on_server
    on_server-Sends (found server) named kept good =
        on_discovery-Sends server named kept good _ refl
    on_server-Sends (not_found problem) (w, read) kept good =
        unready-Sends cluster upstream _ _ kept (missing problem w read)
    on_server-Sends (failed problem) named kept good = return-Sends _ tt

    reconcile_found-Sends :
        Sends (IsJustified cluster upstream) Whatever (reconcile_found cluster upstream)
    unfolding reconcile_found
    reconcile_found-Sends =
        if-Sends _ _ _
          (λ deleted. handle_deletion-Sends cluster upstream (is_some-ne-none _ deleted))
          (λ kept.
            let alive = is_some-eq-none _ kept in
            if-Sends _ _ _
              (λ has.
                if-Sends _ _ _
                  (λ good.
                    bind-Sends _ _ (read_server-Sends cluster upstream)
                      (λ answer named. on_server-Sends answer named alive good))
                  (λ bad. unready-Sends cluster upstream _ _ alive (invalid bad)))
              (λ lacks. ensure_finalizer-Sends cluster upstream lacks))

  -- Every write of a reconciliation of an upstream, from every state of the cluster and whatever calls
  -- fail, is one that the upstream which was read justifies: its metadata only when it is being
  -- deleted or lacks the finalizer, its status only when it is not being deleted, with `Ready` set, at
  -- its generation, to true only if it is valid and its server was read and to false only if it is
  -- not valid, or there is no such server, or its endpoints were not resolved; and a server only if
  -- the upstream names it and is valid or being deleted.
  pub reconcile_upstream-IsJustified :
      (namespace name : String) (w : W)
      → All
          (λ write.
            (upstream : NginxUpstream) × (cluster.get_upstream namespace name w ≡ found upstream)
            × IsJustified cluster upstream write)
          (reconcile cluster namespace name w).calls
  unfolding reconcile ◌>>=◌ ask on_answer return
  reconcile_upstream-IsJustified namespace name w =
      answered (cluster.get_upstream namespace name w) refl
    where
      answered :
          (answer : Answer NginxUpstream)
          → cluster.get_upstream namespace name w ≡ answer
          → All
              (λ write.
                (upstream : NginxUpstream) × (cluster.get_upstream namespace name w
                  ≡ found upstream)
                × IsJustified cluster upstream write)
              (on_answer cluster answer w).calls
      answered (not_found problem) e = tt
      answered (failed problem) e = tt
      answered (found upstream) e =
          All-map (λ write h. (upstream, e, h)) _ ((reconcile_found-Sends upstream).sent w)
