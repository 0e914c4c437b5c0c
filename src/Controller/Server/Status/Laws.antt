-- ===== src/Controller/Server/Status/Laws.antt =====
-- What the status updates of internal/controller/nginxserver_controller.go write.
use nginx_operator.Base.{ℕ, ◌≡◌, refl, String, Bool, true, false}
use nginx_operator.Api.Meta.{Time}
use nginx_operator.Api.Server.{NginxServer}
use nginx_operator.Controller.Run.{Sends, return-Sends, ask-Sends, bind-Sends}
use nginx_operator.Controller.Cluster.{Cluster, Write, update_server_status, read_clock}
use nginx_operator.Controller.Server.Objects.Laws.{Whatever, send-Sends}
use nginx_operator.Controller.Server.Status.{
  with_condition, with_observed, with_ready, deploy_ready, update_status, update_status_condition,
}

-- Nothing but the status differs.
abbrev pub SameBut : NginxServer → NginxServer → Type 0
SameBut server s = (s.meta ≡ server.meta) × (s.spec ≡ server.spec)

-- A write of the status of the server, at its generation, and no other write.
abbrev pub WritesStatus : NginxServer → Write → Type 0
WritesStatus server (update_server_status s) = SameBut server s
WritesStatus server _ = ⊥

with_ready-SameBut :
    (server : NginxServer) (ready : Bool) (now : Time) (s : NginxServer)
    → SameBut server s
    → SameBut server (with_ready ready now s)
unfolding with_ready with_condition
with_ready-SameBut server true now s h = h
with_ready-SameBut server false now s h = h

module _ {W : Type 0} (cluster : Cluster W) where
  pub read_clock-Sends : {P : Write → Type 0} → Sends P Whatever (read_clock cluster)
  unfolding read_clock
  read_clock-Sends = record { sent = λ w. tt; ended = λ w. tt }

  pub update_status-Sends :
      (server : NginxServer) (config_hash : String) (routes upstreams : ℕ)
      → Sends
          (WritesStatus server)
          Whatever
          (update_status cluster server config_hash routes upstreams)
  unfolding update_status with_observed with_condition
  update_status-Sends server config_hash routes upstreams =
      bind-Sends _ _ (ask-Sends {Q = Whatever} _ (λ w. tt)) (λ answer _.
        bind-Sends _ _ read_clock-Sends (λ now _. bind-Sends _ _ read_clock-Sends (λ t1 _.
          bind-Sends _ _ read_clock-Sends (λ t2 _. bind-Sends _ _ read_clock-Sends (λ t3 _.
            bind-Sends _ _
              (send-Sends cluster _ (
                with_ready-SameBut server (deploy_ready answer) t1
                  (with_observed answer config_hash routes upstreams now server) (refl, refl)))
              (λ problem _. return-Sends _ tt))))))

  pub update_status_condition-Sends :
      (server : NginxServer) (type status reason message : String)
      → Sends
          (WritesStatus server)
          Whatever
          (update_status_condition cluster server type status reason message)
  unfolding update_status_condition with_condition
  update_status_condition-Sends server type status reason message =
      bind-Sends _ _ read_clock-Sends (λ now _.
        bind-Sends _ _ (send-Sends cluster _ (refl, refl)) (λ problem _. return-Sends _ tt))
