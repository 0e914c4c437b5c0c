-- ===== src/Controller/Route/Laws.antt =====
-- When internal/controller/nginxroute_controller.go writes, and what.
use nginx_operator.Base.{
  ◌≡◌, refl, ◌≢◌, ◌⊎◌, inl, inr, String, true, false, Option, none, some, All, All-map,
}
use nginx_operator.Api.Meta.{
  nginx_route_finalizer, condition_ready, condition_true, condition_false, condition_config_valid,
}
use nginx_operator.Controller.Reports.{IsReported, set_ready-IsReported, set_other-IsReported}
use nginx_operator.Api.Server.{NginxServer}
use nginx_operator.Api.Route.{NginxRoute}
use nginx_operator.Config.Validator.Route.{validate_nginx_route}
use nginx_operator.Controller.Run.{
  Sends, return, ask, ◌>>=◌, return-Sends, ask-Sends, bind-Sends, if-Sends,
}
use nginx_operator.Controller.Cluster.{
  Cluster, Answer, found, not_found, failed, Write, update_server, update_route,
  update_route_status,
}
use nginx_operator.Controller.Verdicts.{unless_failed-Sends}
use nginx_operator.Controller.Trigger.{touched, trigger_server-Sends}
use nginx_operator.Controller.Server.Objects.Laws.{Whatever, send-Sends}
use nginx_operator.Controller.Server.Status.Laws.{read_clock-Sends}
use nginx_operator.Controller.Server.Reconcile.Laws.{is_some-ne-none, is_some-eq-none}
use nginx_operator.Controller.Route.{
  with_condition, with_applied, update_status_condition, trigger_if_found, handle_deletion,
  ensure_finalizer, finish, on_server, reconcile_found, on_answer, reconcile,
}

module _ {W : Type 0} (cluster : Cluster W) where
  -- `Ready` is set to what was found out: to true if the route is valid and its server was read, to
  -- false if the route is not valid or there is no such server.
  abbrev pub Explains : NginxRoute → NginxRoute → Type 0
  Explains route r =
      (IsReported route.meta.generation condition_true r.status.conditions
        × ((validate_nginx_route route).valid ≡ true)
        × ((server : NginxServer) × (w : W) × (cluster.get_server route.meta.namespace
                route.spec.server_ref w
              ≡ found server)))
      ⊎ (IsReported route.meta.generation condition_false r.status.conditions
          × (((validate_nginx_route route).valid ≡ false)
              ⊎ ((problem : String) × (w : W) × (cluster.get_server route.meta.namespace
                      route.spec.server_ref w
                    ≡ not_found problem))))

  -- What a write needs: the route itself only has its metadata changed when it is being deleted or
  -- lacks the finalizer; else only its status; a server is only touched if the route names it, and
  -- the route is being deleted or valid.
  pub data IsJustified (route : NginxRoute) (write : Write) : Type 0 where
    of_metadata :
        (r : NginxRoute)
        → write ≡ update_route r
        → r.spec ≡ route.spec
        → r.status ≡ route.status
        → (route.meta.deletion_timestamp ≢ none)
          ⊎ (cluster.contains_finalizer route.meta nginx_route_finalizer ≡ false)
        → IsJustified route write
    of_status :
        (r : NginxRoute)
        → write ≡ update_route_status r
        → r.meta ≡ route.meta
        → r.spec ≡ route.spec
        → route.meta.deletion_timestamp ≡ none
        → Explains route r
        → IsJustified route write
    of_trigger :
        (server : NginxServer) (time : String) (w : W)
        → write ≡ update_server (touched server time)
        → cluster.get_server route.meta.namespace route.spec.server_ref w ≡ found server
        → (route.meta.deletion_timestamp ≢ none) ⊎ ((validate_nginx_route route).valid ≡ true)
        → IsJustified route write

  module _ (route : NginxRoute) where
    -- A server that was read under the route's reference.
    abbrev IsNamed : Answer NginxServer → Type 0
    IsNamed answer =
        (w : W) × (cluster.get_server route.meta.namespace route.spec.server_ref w ≡ answer)

    read_server-Sends :
        {P : Write → Type 0}
        → Sends P IsNamed (ask (cluster.get_server route.meta.namespace route.spec.server_ref))
    read_server-Sends = ask-Sends _ (λ w. (w, refl))

    unready-Sends :
        (reason message : String)
        → route.meta.deletion_timestamp ≡ none
        → ((validate_nginx_route route).valid ≡ false)
          ⊎ ((problem : String) × (w : W) × (cluster.get_server route.meta.namespace
                  route.spec.server_ref w
                ≡ not_found problem))
        → Sends
            (IsJustified route)
            Whatever
            (update_status_condition cluster route condition_ready condition_false reason message)
    unfolding update_status_condition with_condition
    unready-Sends reason message kept why = bind-Sends _ _ (read_clock-Sends cluster) (λ now _.
        bind-Sends _ _
          (send-Sends cluster _ (
            of_status _ refl refl refl kept
              (inr (set_ready-IsReported now condition_false reason message _ _, why))))
          (λ problem _. return-Sends _ tt))

    trigger_if_found-Sends :
        (answer : Answer NginxServer)
        → IsNamed answer
        → route.meta.deletion_timestamp ≢ none
        → Sends (IsJustified route) Whatever (trigger_if_found cluster answer)
    unfolding trigger_if_found
    trigger_if_found-Sends (found server) (w, read) deleted =
        trigger_server-Sends cluster server
          (λ time. of_trigger server time w refl read (inl deleted))
    trigger_if_found-Sends (not_found problem) named deleted = return-Sends _ tt
    trigger_if_found-Sends (failed problem) named deleted = return-Sends _ tt

    handle_deletion-Sends :
        route.meta.deletion_timestamp ≢ none
        → Sends (IsJustified route) Whatever (handle_deletion cluster route)
    unfolding handle_deletion
    handle_deletion-Sends deleted =
        if-Sends (cluster.contains_finalizer route.meta nginx_route_finalizer) _ _
          (λ has. bind-Sends _ _ read_server-Sends (λ answer named.
            bind-Sends _ _ (trigger_if_found-Sends answer named deleted) (λ ignored _.
              bind-Sends _ _ (send-Sends cluster _ (of_metadata _ refl refl refl (inl deleted)))
                (λ problem _. unless_failed-Sends _ _ problem (λ v. tt) (return-Sends _ tt)))))
          (λ lacks. return-Sends _ tt)

    ensure_finalizer-Sends :
        cluster.contains_finalizer route.meta nginx_route_finalizer ≡ false
        → Sends (IsJustified route) Whatever (ensure_finalizer cluster route)
    unfolding ensure_finalizer
    ensure_finalizer-Sends lacks =
        bind-Sends _ _ (send-Sends cluster _ (of_metadata _ refl refl refl (inr lacks)))
          (λ problem _. unless_failed-Sends _ _ problem (λ v. tt) (return-Sends _ tt))

    finish-Sends :
        (server : NginxServer) (triggered : Option String)
        → IsNamed (found server)
        → route.meta.deletion_timestamp ≡ none
        → (validate_nginx_route route).valid ≡ true
        → Sends (IsJustified route) Whatever (finish cluster route triggered)
    unfolding finish with_condition with_applied
    finish-Sends server (some problem) (w, read) kept good = return-Sends _ tt
    finish-Sends server none (w, read) kept good =
        bind-Sends _ _ (read_clock-Sends cluster) (λ now _.
          bind-Sends _ _ (read_clock-Sends cluster) (λ t1 _.
            bind-Sends _ _ (read_clock-Sends cluster) (λ t2 _.
              bind-Sends _ _
                (send-Sends cluster _ (
                  of_status _ refl refl refl kept (
                    inl (
                      set_other-IsReported t2 condition_config_valid _ _ _ _ _ _ _ refl
                          (set_ready-IsReported t1 condition_true _ _ _ _),
                      good,
                      (server, w, read),
                    ))))
                (λ problem _. return-Sends _ tt))))

    on_server-Sends :
        (answer : Answer NginxServer)
        → IsNamed answer
        → route.meta.deletion_timestamp ≡ none
        → (validate_nginx_route route).valid ≡ true
        → Sends (IsJustified route) Whatever (on_server cluster route answer)
    unfolding on_server
    on_server-Sends (found server) (w, read) kept good =
        bind-Sends _ _
          (trigger_server-Sends cluster server
            (λ time. of_trigger server time w refl read (inr good)))
          (λ triggered _. finish-Sends server triggered (w, read) kept good)
    on_server-Sends (not_found problem) (w, read) kept good =
        unready-Sends _ _ kept (inr (problem, w, read))
    on_server-Sends (failed problem) named kept good = return-Sends _ tt

    reconcile_found-Sends : Sends (IsJustified route) Whatever (reconcile_found cluster route)
    unfolding reconcile_found
    reconcile_found-Sends =
        if-Sends _ _ _ (λ deleted. handle_deletion-Sends (is_some-ne-none _ deleted))
          (λ kept.
            let alive = is_some-eq-none _ kept in
            if-Sends _ _ _
              (λ has.
                if-Sends _ _ _
                  (λ good.
                    bind-Sends _ _ read_server-Sends
                      (λ answer named. on_server-Sends answer named alive good))
                  (λ bad. unready-Sends _ _ alive (inl bad)))
              (λ lacks. ensure_finalizer-Sends lacks))

  -- Every write of a reconciliation of a route, from every state of the cluster and whatever calls
  -- fail, is one that the route which was read justifies: its metadata only when it is being
  -- deleted or lacks the finalizer, its status only when it is not being deleted, with `Ready` set, at
  -- its generation, to true only if it is valid and its server was read and to false only if it is
  -- not valid or there is no such server; and a server only if the route names it and is valid or
  -- being deleted.
  pub reconcile_route-IsJustified :
      (namespace name : String) (w : W)
      → All
          (λ write.
            (route : NginxRoute) × (cluster.get_route namespace name w ≡ found route)
            × IsJustified route write)
          (reconcile cluster namespace name w).calls
  unfolding reconcile ◌>>=◌ ask on_answer return
  reconcile_route-IsJustified namespace name w = answered (cluster.get_route namespace name w) refl
    where
      answered :
          (answer : Answer NginxRoute)
          → cluster.get_route namespace name w ≡ answer
          → All
              (λ write.
                (route : NginxRoute) × (cluster.get_route namespace name w ≡ found route)
                × IsJustified route write)
              (on_answer cluster answer w).calls
      answered (not_found problem) e = tt
      answered (failed problem) e = tt
      answered (found route) e =
          All-map (λ write h. (route, e, h)) _ ((reconcile_found-Sends route).sent w)
