-- ===== src/Controller/Server/Reconcile/Never.antt =====
-- The runs of internal/controller/nginxserver_controller.go that never ask for an immediate call.
use nginx_operator.Base.{
  is_some, inr, inl, Bool-cases, ◌≡◌, refl, String, ℕ, Bool, true, false, List, Option, none, some,
  Result, ok, err, if◌then◌else◌,
}
use nginx_operator.Api.Meta.{nginx_server_finalizer}
use nginx_operator.Api.Server.{NginxServer}
use nginx_operator.Api.Route.{NginxRoute}
use nginx_operator.Api.Upstream.{NginxUpstream}
use nginx_operator.Controller.Run.{Run, return, ◌>>=◌}
use nginx_operator.Controller.Cluster.{Cluster, Verdict, Write}
use nginx_operator.Controller.Verdicts.{done, unless_failed}
use nginx_operator.Controller.Server.Status.{update_status, update_status_condition}
use nginx_operator.Controller.Server.Reconcile.{
  validate_nginx_server, on_listed, handle_deletion, apply_config, generate_and_apply,
  reconcile_valid, reconcile_found,
}

-- From no world is an immediate call asked for.
pub record NoRequeue {W : Type 0} (m : Run W Write Verdict) : Type 0 where
  pub never : (w : W) → (m w).value.requeue ≡ false

module _ {W : Type 0} where
  return-NoRequeue : (v : Verdict) → v.requeue ≡ false → NoRequeue {W = W} (return v)
  unfolding return
  return-NoRequeue v h = record { never = λ w. h }

  bind-NoRequeue :
      {A : Type 0} (m : Run W Write A) (f : A → Run W Write Verdict)
      → ((a : A) → NoRequeue (f a))
      → NoRequeue (m >>= f)
  unfolding ◌>>=◌
  bind-NoRequeue m f h = record { never = λ w. (h (m w).value).never (m w).world }

  unless_failed-NoRequeue :
      (prefix : String) (rest : Run W Write Verdict) (problem : Option String)
      → NoRequeue rest
      → NoRequeue (unless_failed prefix rest problem)
  unfolding unless_failed
  unless_failed-NoRequeue prefix rest none h = h
  unless_failed-NoRequeue prefix rest (some problem) h = return-NoRequeue _ refl

  by_problem-NoRequeue :
      (problem : Option String) (on_error : String → Verdict) (otherwise : Verdict)
      → ((p : String) → (on_error p).requeue ≡ false)
      → otherwise.requeue ≡ false
      → NoRequeue {W = W} (return (elim problem [ some p ↦ on_error p | none ↦ otherwise ]))
  by_problem-NoRequeue none on_error otherwise h k = return-NoRequeue _ k
  by_problem-NoRequeue (some p) on_error otherwise h k = return-NoRequeue _ (h p)

  if-NoRequeue :
      (b : Bool) (m n : Run W Write Verdict)
      → NoRequeue m
      → (b ≡ false → NoRequeue n)
      → NoRequeue (if b then m else n)
  if-NoRequeue true m n h k = h
  if-NoRequeue false m n h k = k refl

module _ {W : Type 0} (cluster : Cluster W) where
  update_status-NoRequeue :
      (server : NginxServer) (config_hash : String) (routes upstreams : ℕ)
      → NoRequeue (update_status cluster server config_hash routes upstreams)
  unfolding update_status
  update_status-NoRequeue server config_hash routes upstreams = bind-NoRequeue _ _ (λ answer.
      bind-NoRequeue _ _ (λ now. bind-NoRequeue _ _ (λ t1. bind-NoRequeue _ _ (λ t2.
        bind-NoRequeue _ _ (λ t3.
          bind-NoRequeue _ _ (λ problem. by_problem-NoRequeue problem _ _ (λ p. refl) refl))))))

  update_status_condition-NoRequeue :
      (server : NginxServer) (type status reason message : String)
      → NoRequeue (update_status_condition cluster server type status reason message)
  unfolding update_status_condition
  update_status_condition-NoRequeue server type status reason message =
      bind-NoRequeue _ _
        (λ now. bind-NoRequeue _ _ (λ problem. by_problem-NoRequeue problem _ _ (λ p. refl) refl))

  on_listed-NoRequeue :
      {A : Type 0} (prefix : String) (rest : List A → Run W Write Verdict)
      (listed : Result (List A))
      → ((items : List A) → NoRequeue (rest items))
      → NoRequeue (on_listed cluster prefix rest listed)
  unfolding on_listed
  on_listed-NoRequeue prefix rest (ok items) h = h items
  on_listed-NoRequeue prefix rest (err problem) h = return-NoRequeue _ refl

  handle_deletion-NoRequeue : (server : NginxServer) → NoRequeue (handle_deletion cluster server)
  unfolding handle_deletion
  handle_deletion-NoRequeue server =
      if-NoRequeue (cluster.contains_finalizer server.meta nginx_server_finalizer) _ (return done)
        (bind-NoRequeue _ _
          (λ problem. unless_failed-NoRequeue _ (return done) problem (return-NoRequeue done refl)))
        (λ e. return-NoRequeue done refl)

  module _ (reloader_tag version : String) where
    generate_and_apply-NoRequeue :
        (server : NginxServer) (routes : List NginxRoute) (upstreams : List NginxUpstream)
        (generated : Result String)
        → NoRequeue
            (generate_and_apply cluster reloader_tag version server routes upstreams generated)
    unfolding generate_and_apply apply_config
    generate_and_apply-NoRequeue server routes upstreams (ok text) = bind-NoRequeue _ _ (λ p1.
        unless_failed-NoRequeue _ _ p1 (
          bind-NoRequeue _ _ (λ p2. unless_failed-NoRequeue _ _ p2 (
            bind-NoRequeue _ _
              (λ p3. unless_failed-NoRequeue _ _ p3 (update_status-NoRequeue server _ _ _))))))
    generate_and_apply-NoRequeue server routes upstreams (err problem) =
        bind-NoRequeue _ _ (λ ignored. return-NoRequeue _ refl)

    reconcile_valid-NoRequeue :
        (server : NginxServer) → NoRequeue (reconcile_valid cluster reloader_tag version server)
    unfolding reconcile_valid
    reconcile_valid-NoRequeue server = bind-NoRequeue _ _ (λ listed.
        on_listed-NoRequeue _ _ listed (λ routes. bind-NoRequeue _ _ (λ listed'.
          on_listed-NoRequeue _ _ listed'
            (λ upstreams. generate_and_apply-NoRequeue server routes upstreams _))))

    -- A server that has the finalizer is never asked for again at once.
    pub reconcile_found-NoRequeue :
        (server : NginxServer)
        → cluster.contains_finalizer server.meta nginx_server_finalizer ≡ true
        → NoRequeue (reconcile_found cluster reloader_tag version server)
    unfolding reconcile_found
    reconcile_found-NoRequeue server held =
        elim (Bool-cases (is_some server.meta.deletion_timestamp)) [
          | inl leaving ↦ rw leaving (handle_deletion-NoRequeue server)
          | inr live ↦ elim (Bool-cases (validate_nginx_server server).valid) [
            | inl valid ↦ rw (live, held, valid) (reconcile_valid-NoRequeue server)
            | inr invalid ↦
                rw (live, held, invalid) (update_status_condition-NoRequeue server _ _ _ _)
          ]
        ]

    pub leaving-NoRequeue :
        (server : NginxServer)
        → is_some server.meta.deletion_timestamp ≡ true
        → NoRequeue (reconcile_found cluster reloader_tag version server)
    unfolding reconcile_found
    leaving-NoRequeue server leaving = rw leaving (handle_deletion-NoRequeue server)
