-- ===== src/Controller/Server/Reconcile/Requeue.antt =====
-- When `Reconcile` of internal/controller/nginxserver_controller.go asks to be called again at once.
use nginx_operator.Controller.Server.Objects.Kept.{Finds, Finds-at}
use nginx_operator.Controller.Server.Reconcile.Never.{reconcile_found-NoRequeue, leaving-NoRequeue}
use nginx_operator.Base.{
  is_some, inr, inl, Bool-cases, ◌≡◌, refl, String, true, false, Option, none, some,
}
use nginx_operator.Api.Meta.{nginx_server_finalizer}
use nginx_operator.Api.Server.{NginxServer}
use nginx_operator.Controller.Run.{ask, return, ◌>>=◌}
use nginx_operator.Controller.Cluster.{
  failed, not_found, found, send, update_server, Answer, Cluster, Verdict, Write,
}
use nginx_operator.Controller.Verdicts.{unless_failed}
use nginx_operator.Controller.Server.Reconcile.{
  reconcile, on_answer, ensure_finalizer, reconcile_found,
}

module _ {W : Type 0} (cluster : Cluster W) where
  -- The update that adds the finalizer.
  abbrev pub with_finalizer : NginxServer → Write
  with_finalizer server =
      update_server
        (record server { meta = cluster.add_finalizer server.meta nginx_server_finalizer })

  unless_failed_requeues :
      (prefix : String) (v : Verdict) (problem : Option String) (w : W)
      → (unless_failed prefix (return v) problem w).value.requeue ≡ true
      → (problem ≡ none) × ((unless_failed prefix (return v) problem w).world ≡ w)
  unfolding unless_failed return
  unless_failed_requeues prefix v none w again = (refl, refl)
  unless_failed_requeues prefix v (some problem) w again = cc

  -- If an immediate call is asked for, the finalizer was added, and nothing else was done.
  ensure_finalizer_requeues :
      (server : NginxServer) (w : W)
      → (ensure_finalizer cluster server w).value.requeue ≡ true
      → ((cluster.apply (with_finalizer server) w).1 ≡ none)
        × ((ensure_finalizer cluster server w).world ≡ (cluster.apply (with_finalizer server) w).0)
  unfolding ensure_finalizer ◌>>=◌ send
  ensure_finalizer_requeues server w again = unless_failed_requeues _ _ _ _ again

  module _ (reloader_tag version : String) where
    -- Where an immediate call is asked for, a server was found, and its update with the finalizer
    -- passed and is all that was done.
    reconcile_found_requeues :
        (server : NginxServer) (w : W)
        → (reconcile_found cluster reloader_tag version server w).value.requeue ≡ true
        → ((cluster.apply (with_finalizer server) w).1 ≡ none)
          × ((reconcile_found cluster reloader_tag version server w).world
              ≡ (cluster.apply (with_finalizer server) w).0)
    unfolding reconcile_found
    reconcile_found_requeues server w again =
        elim (Bool-cases (cluster.contains_finalizer server.meta nginx_server_finalizer)) [
          | inl held ↦
              cc (
                again,
                (reconcile_found-NoRequeue cluster reloader_tag version server held).never w,
              )
          | inr lacks ↦ elim (Bool-cases (is_some server.meta.deletion_timestamp)) [
            | inl leaving ↦
                cc (again, (leaving-NoRequeue cluster reloader_tag version server leaving).never w)
            | inr live ↦
                rw (live, lacks) (ensure_finalizer_requeues server w (rw (live, lacks) at again))
          ]
        ]

    on_answer_requeues :
        (answer : Answer NginxServer) (w : W)
        → (on_answer cluster reloader_tag version answer w).value.requeue ≡ true
        → (server : NginxServer) × (answer ≡ found server)
          × ((cluster.apply (with_finalizer server) w).1 ≡ none)
          × ((on_answer cluster reloader_tag version answer w).world
              ≡ (cluster.apply (with_finalizer server) w).0)
    unfolding on_answer return
    on_answer_requeues (not_found problem) w again = cc
    on_answer_requeues (failed problem) w again = cc
    on_answer_requeues (found server) w again =
        let (passed, after) = reconcile_found_requeues server w again in
        (server, refl, passed, after)

    on_found-NoRequeue :
        (answer : Answer NginxServer) (w : W)
        → Finds (λ kept. cluster.contains_finalizer kept.meta nginx_server_finalizer ≡ true) answer
        → (on_answer cluster reloader_tag version answer w).value.requeue ≡ false
    unfolding on_answer
    on_found-NoRequeue (found kept) w held =
        (reconcile_found-NoRequeue cluster reloader_tag version kept held).never w
    on_found-NoRequeue (not_found problem) w h = absurd h
    on_found-NoRequeue (failed problem) w h = absurd h

  -- A cluster keeps the finalizer that was added: after the update a read of the server finds it.
  pub record KeepsFinalizers : Type 0 where
    pub added :
        (server : NginxServer) (w : W)
        → (cluster.apply (with_finalizer server) w).1 ≡ none
        → Finds
            (λ kept. cluster.contains_finalizer kept.meta nginx_server_finalizer ≡ true)
            (cluster.get_server server.meta.namespace server.meta.name
              (cluster.apply (with_finalizer server) w).0)
    pub named :
        (namespace name : String) (server : NginxServer) (w : W)
        → cluster.get_server namespace name w ≡ found server
        → (server.meta.namespace ≡ namespace) × (server.meta.name ≡ name)

  -- In a cluster that keeps finalizers, immediate calls come to an end: if a reconciliation asks for
  -- one, then the next one, directly after it, does not.
  pub reconcile_requeues_once :
      KeepsFinalizers
      → (reloader_tag version namespace name : String) (w : W)
      → (reconcile cluster reloader_tag version namespace name w).value.requeue ≡ true
      → (reconcile cluster reloader_tag version namespace name
          (reconcile cluster reloader_tag version namespace name w).world).value.requeue
        ≡ false
  unfolding reconcile ◌>>=◌ ask
  reconcile_requeues_once laws reloader_tag version namespace name w again =
      let (server, read, passed, after) =
        on_answer_requeues reloader_tag version (cluster.get_server namespace name w) w again in
      let (space, same) = laws.named namespace name server w read in
      let stored = laws.added server w passed in
      on_found-NoRequeue reloader_tag version _ _
        (rw after (Finds-at cluster.get_server _ _ space same stored))
