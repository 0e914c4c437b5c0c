-- ===== src/Controller/Server/Objects/Settled.antt =====
-- `reconcileConfigMap` of internal/controller/nginxserver_controller.go against an API server that
-- keeps what is written.
use nginx_operator.Base.{◌≡◌, refl, ap, subst, String, true, [], ◌∷◌, none}
use nginx_operator.Api.Server.{NginxServer}
use nginx_operator.Nginx.Objects.{ConfigMap}
use nginx_operator.Nginx.ConfigMaps.{build_config_map}
use nginx_operator.Controller.Run.{return, ask, ◌>>=◌}
use nginx_operator.Controller.Cluster.{Cluster, create_config_map, update_config_map}
use nginx_operator.Controller.Server.Objects.{
  merge_config_map, write_config_map, reconcile_config_map,
}
use nginx_operator.Controller.Server.Objects.Kept.{
  Keeps, Keeps-Secures, Finds, Secures, create_or_update-Finds, create_or_update_quiet,
  owned_passed,
}

module _ {W : Type 0} (cluster : Cluster W) where
  -- A read of a ConfigMap's key finds one with the same entries.
  abbrev pub IsStored : ConfigMap → W → Type 0
  IsStored cm w =
      Finds (λ kept. cluster.equal_entries kept.entries cm.entries ≡ true)
        (cluster.get_config_map cm.meta.namespace cm.meta.name w)

  -- An API server keeps the entries of ConfigMaps.
  abbrev pub KeepsConfigMaps : Type 0
  KeepsConfigMaps =
      Keeps cluster cluster.get_config_map (λ cm. cm.meta) create_config_map update_config_map
        (λ kept cm. cluster.equal_entries kept.entries cm.entries ≡ true)

  config_map-Secures :
      KeepsConfigMaps
      → (desired : ConfigMap)
      → Secures cluster
          (create_config_map desired)
          (λ existing. cluster.equal_entries existing.entries desired.entries)
          (λ existing. update_config_map (merge_config_map existing desired))
          (cluster.get_config_map desired.meta.namespace desired.meta.name)
          (λ kept. cluster.equal_entries kept.entries desired.entries ≡ true)
  unfolding merge_config_map
  config_map-Secures laws desired =
      Keeps-Secures cluster cluster.get_config_map (λ cm. cm.meta) create_config_map
        update_config_map (λ kept cm. cluster.equal_entries kept.entries cm.entries ≡ true) desired
        _ (λ existing. merge_config_map existing desired) _ laws (λ existing. (refl, refl))
        (λ kept h. h) (λ existing kept h. h) (λ existing e. e)

  pub write_config_map-IsStored :
      KeepsConfigMaps
      → (desired : ConfigMap) (w : W) → (write_config_map cluster desired w).value ≡ none
      → IsStored desired (write_config_map cluster desired w).world
  unfolding write_config_map ◌>>=◌ ask
  write_config_map-IsStored laws desired w fine =
      create_or_update-Finds cluster _ _ _ _ _ _ _ w (config_map-Secures laws desired) refl fine

  -- Where the object is stored, nothing is written.
  pub write_config_map_quiet :
      (desired : ConfigMap) (w : W)
      → IsStored desired w
      → write_config_map cluster desired w ≡ return none w
  unfolding write_config_map ◌>>=◌ ask return
  write_config_map_quiet desired w stored =
      create_or_update_quiet cluster "ConfigMap" (create_config_map desired) _
        (λ existing. update_config_map (merge_config_map existing desired)) _ w stored

  -- The cluster holds the configuration text, and a run would write nothing and end without error.
  abbrev pub IsSettled : NginxServer → String → W → Type 0
  IsSettled server text w =
      ((cm : ConfigMap) × (cm.entries ≡ ("nginx.conf", text) ∷ []) × IsStored cm w)
      × ((reconcile_config_map cluster server text w).calls ≡ [])
      × ((reconcile_config_map cluster server text w).value ≡ none)

  -- On a cluster that keeps ConfigMaps, a run of `reconcileConfigMap` without an error leaves a
  -- ConfigMap with the configuration behind, and a run directly after it writes nothing and ends
  -- without an error too.
  pub reconcile_config_map-IsSettled :
      KeepsConfigMaps
      → (server : NginxServer) (text : String) (w : W)
      → (reconcile_config_map cluster server text w).value ≡ none
      → IsSettled server text (reconcile_config_map cluster server text w).world
  unfolding reconcile_config_map build_config_map return
  reconcile_config_map-IsSettled laws server text w fine =
      let (meta, _, e) = owned_passed cluster server "ConfigMap" _ _ w fine in
      let desired = record (build_config_map server text []) { meta = meta } in
      let ended = subst (λ m. (m w).value ≡ none) e fine in
      let stored = write_config_map-IsStored laws desired w ended in
      let quiet = write_config_map_quiet desired _ stored in
      rw e ((desired, refl, stored), ap (λ r. r.calls) quiet, ap (λ r. r.value) quiet)
