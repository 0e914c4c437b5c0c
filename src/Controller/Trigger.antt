-- ===== src/Controller/Trigger.antt =====
-- `triggerServerReconcile` of internal/controller/nginxroute_controller.go, which
-- internal/controller/nginxupstream_controller.go repeats.
use nginx_operator.Base.{String, ◌<>◌, Option, none, some}
use nginx_operator.Base.Dict.{insert}
use nginx_operator.Api.Meta.{annotation_last_reload}
use nginx_operator.Api.Server.{NginxServer}
use nginx_operator.Controller.Run.{Run, Sends, return, ◌>>=◌, return-Sends, bind-Sends}
use nginx_operator.Controller.Cluster.{Cluster, Write, update_server, send, read_clock}
use nginx_operator.Controller.Server.Objects.Laws.{Whatever, send-Sends}
use nginx_operator.Controller.Server.Status.Laws.{read_clock-Sends}

-- The server with the time as an annotation.
unfoldable pub touched : NginxServer → String → NginxServer
touched server time =
    let meta = server.meta in
    record server {
      meta = record meta { annotations = insert annotation_last_reload time meta.annotations };
    }

module _ {W : Type 0} (cluster : Cluster W) where
  unfoldable pub trigger_server : NginxServer → Run W Write (Option String)
  trigger_server server = do
    now ← read_clock cluster
    problem ← send cluster (update_server (touched server (cluster.format_time now)))
    return (elim problem [
      | none ↦ none
      | some p ↦ some ("failed to trigger NginxServer reconciliation: " <> p)
    ])

  -- The server's update is the only write.
  pub trigger_server-Sends :
      {P : Write → Type 0} (server : NginxServer)
      → ((time : String) → P (update_server (touched server time)))
      → Sends P Whatever (trigger_server server)
  unfolding trigger_server
  trigger_server-Sends server p =
      bind-Sends _ _ (read_clock-Sends cluster)
        (λ now _. bind-Sends _ _ (send-Sends cluster _ (p _)) (λ problem _. return-Sends _ tt))
