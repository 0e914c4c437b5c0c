-- ===== src/Controller/Server/Reconcile/Watched.antt =====
-- What the sidecar of cmd/reloader/main.go watches, and what the reconciliations of
-- internal/controller/nginxserver_controller.go write.
use text.Mathlib.TextLemmas.{cons-append, nil-append}
use nginx_operator.Base.{
  arith, subst, ◌≡◌, refl, ◌≢◌, ◌∙◌, sym, ap, inl, inr, ℕ, String, ◌<>◌, code, [], All, All-map,
  Any,
}
use nginx_operator.Api.Server.{NginxServer}
use nginx_operator.Base.Dict.{Dict}
use nginx_operator.Nginx.ConfigMaps.{build_conf_d_config_map}
use nginx_operator.Controller.Server.Status.Laws.{WritesStatus}
use nginx_operator.Nginx.Objects.{ConfigMap}
use nginx_operator.Nginx.Labels.{config_map_name, conf_d_config_map_name}
use nginx_operator.Nginx.Deployment.{reloader_container, build_deployment}
use nginx_operator.Nginx.Deployment.Mounts.{Sees, reloader_container-Sees}
use nginx_operator.Controller.Cluster.{
  update_service, update_deployment, create_deployment, update_server_status, create_service,
  Cluster, Write, found, create_config_map, update_config_map,
}
use nginx_operator.Controller.Server.Objects.Laws.{WritesEntries, WritesHash, WritesService}
use nginx_operator.Controller.Server.Objects.Desired.{KeepsKeys}
use nginx_operator.Controller.Server.Reconcile.{reconcile}
use nginx_operator.Controller.Server.Reconcile.Laws.{
  of_metadata, of_status, of_object, IsJustified, reconcile-IsJustified,
}

-- The last character, after one before the text.
abbrev last_code : ℕ → String → ℕ
last_code n String.[] = n
last_code n (String.◌∷◌ c s) = last_code (code c) s

last_code-append : (n : ℕ) (s t : String) → last_code n (s <> t) ≡ last_code (last_code n s) t
last_code-append n String.[] t = ap (last_code n) (nil-append t)
last_code-append n (String.◌∷◌ c s) t =
    ap (last_code n) (cons-append c s t) ∙ last_code-append (code c) s t

codes_differ : ◌≢◌ {A = ℕ} 103 100
codes_differ = omega arith

-- No server's main ConfigMap has the name of a second ConfigMap, of whichever server.
config_map_name-ne : (s t : NginxServer) → config_map_name s ≢ conf_d_config_map_name t
unfolding config_map_name conf_d_config_map_name
config_map_name-ne s t e = codes_differ (
    sym (last_code-append 0 s.meta.name "-nginx-config")
    ∙ ap (last_code 0) e
    ∙ last_code-append 0 t.meta.name "-nginx-confd")

-- Not a write of a ConfigMap of the name.
abbrev pub Misses : String → Write → Type 0
Misses name (create_config_map cm) = cm.meta.name ≢ name
Misses name (update_config_map cm) = cm.meta.name ≢ name
Misses name _ = Unit

module _ {W : Type 0} (cluster : Cluster W) where
  -- A read of a ConfigMap answers with one of the key that was asked for.
  abbrev pub NamesConfigMaps : Type 0
  NamesConfigMaps =
      (namespace name : String) (cm : ConfigMap) (w : W)
      → cluster.get_config_map namespace name w ≡ found cm
      → (cm.meta.namespace ≡ namespace) × (cm.meta.name ≡ name)

  module _ (keys : KeepsKeys cluster) (names : NamesConfigMaps) (t : NginxServer) where
    entries-Misses :
        (server : NginxServer) (text : String) (write : Write)
        → WritesEntries cluster server text write
        → Misses (conf_d_config_map_name t) write
    entries-Misses server text (create_config_map cm) (entries, set) =
        λ e. config_map_name-ne server t (sym ((keys server _ cm.meta set).1) ∙ e)
    entries-Misses server text (update_config_map cm)
          (entries, (meta, set, (kept, w, read, space, name))) =
        λ e.
          config_map_name-ne server t
            (sym ((keys server _ meta set).1) ∙ sym ((names _ _ kept w read).1) ∙ sym name ∙ e)
    entries-Misses server text _ h = absurd h

    hash-Misses :
        (server : NginxServer) (config_hash : String) (write : Write)
        → WritesHash cluster server config_hash write
        → Misses (conf_d_config_map_name t) write
    hash-Misses server config_hash (create_deployment d) h = tt
    hash-Misses server config_hash (update_deployment d) h = tt
    hash-Misses server config_hash _ h = absurd h

    service-Misses :
        (server : NginxServer) (write : Write)
        → WritesService cluster server write
        → Misses (conf_d_config_map_name t) write
    service-Misses server (create_service s) h = tt
    service-Misses server (update_service s) h = tt
    service-Misses server _ h = absurd h

    status-Misses :
        (server : NginxServer) (write : Write)
        → WritesStatus server write
        → Misses (conf_d_config_map_name t) write
    status-Misses server (update_server_status s) h = tt
    status-Misses server _ h = absurd h

    justified-Misses :
        (server : NginxServer) (write : Write)
        → IsJustified cluster server write
        → Misses (conf_d_config_map_name t) write
    justified-Misses server write (of_metadata s e _ _ _) =
        subst (Misses (conf_d_config_map_name t)) (sym e) tt
    justified-Misses server write (of_status h) = status-Misses server write h
    justified-Misses server write (of_object text ready config (inl h)) =
        entries-Misses server text write h
    justified-Misses server write (of_object text ready config (inr (inl h))) =
        hash-Misses server (cluster.sha256_hex text) write h
    justified-Misses server write (of_object text ready config (inr (inr h))) =
        service-Misses server write h

    -- Where owner references keep the keys of objects and reads of ConfigMaps answer with the key
    -- that was asked for: the directory that a sidecar is told to watch is, for it, the second
    -- ConfigMap of its server, and no reconciliation, of this or another server, from whatever
    -- state of the cluster, writes a ConfigMap of that name.
    pub reconcile-MissesWatched :
        (tag : String) (server_configs : Dict String) (reloader_tag version namespace name : String)
        (w : W)
        → (dir : String) × Any (λ arg. arg ≡ "--watch-dir=" <> dir) (reloader_container t tag).args
          × Sees
              (build_deployment t tag).spec.pod
              dir
              ""
              []
              (build_conf_d_config_map t server_configs).meta.name
              (reloader_container t tag)
          × All
              (Misses (build_conf_d_config_map t server_configs).meta.name)
              (reconcile cluster reloader_tag version namespace name w).calls
    unfolding build_conf_d_config_map reloader_container
    reconcile-MissesWatched tag server_configs reloader_tag version namespace name w = (
      "/etc/nginx/conf.d",
      inl refl,
      reloader_container-Sees t tag server_configs,
      All-map (λ write (server, _, h). justified-Misses server write h) _
          (reconcile-IsJustified cluster reloader_tag version namespace name w),
    )
