-- ===== src/Controller/Server/Objects/Listed.antt =====
-- The routes and upstreams that internal/controller/nginxserver_controller.go reads for a server.
use nginx_operator.Controller.Server.Objects.Laws.{Whatever}
use nginx_operator.Base.{
  ◌<>◌, inr, inl, ◌≡◌, String, ◌==◌, eq_iff, List, [], ◌∷◌, Result, ok, err, All, select,
  Bool-cases,
}
use nginx_operator.Api.Server.{NginxServer}
use nginx_operator.Api.Route.{NginxRoute}
use nginx_operator.Api.Upstream.{NginxUpstream}
use nginx_operator.Controller.Run.{Sends, return, return-Sends, ask-Sends, bind-Sends}
use nginx_operator.Controller.Cluster.{Cluster, Write}
use nginx_operator.Controller.Server.Objects.{list_routes_for_server, list_upstreams_for_server}

-- Every item of a list that was read satisfies `P`.
abbrev pub AllOk {ℓ} : {A : Type ℓ} → (A → Type 0) → Result (List A) → Type 0
AllOk P (ok xs) = All P xs
AllOk P (err problem) = Unit

select-All :
    {A : Type 0} (name : String) (ref : A → String) (xs : List A)
    → All (λ x. ref x ≡ name) (select (λ x. ref x == name) xs)
select-All name ref [] = tt
select-All name ref (x ∷ xs) = elim (Bool-cases (ref x == name)) [
  | inl same ↦ rw same ((eq_iff (ref x) name).0 same, select-All name ref xs)
  | inr other ↦ rw other (select-All name ref xs)
]

module _ {W : Type 0} (cluster : Cluster W) where
  -- The routes that are used name the server.
  pub list_routes_for_server-Sends :
      {P : Write → Type 0} (server : NginxServer)
      → Sends P
          (AllOk (λ r. r.spec.server_ref ≡ server.meta.name))
          (list_routes_for_server cluster server)
  unfolding list_routes_for_server
  list_routes_for_server-Sends server =
      bind-Sends _ _ (ask-Sends {Q = Whatever} _ (λ w. tt)) (λ listed _. kept listed)
    where
      kept :
          {P : Write → Type 0} (listed : Result (List NginxRoute))
          → Sends {W = W} P (AllOk (λ r. r.spec.server_ref ≡ server.meta.name)) (
              return (elim listed [
                | err problem ↦ err ("failed to list NginxRoutes: " <> problem)
                | ok routes ↦ ok (select (λ r. r.spec.server_ref == server.meta.name) routes)
              ]))
      kept (ok routes) =
          return-Sends _ (select-All server.meta.name (λ r. r.spec.server_ref) routes)
      kept (err problem) = return-Sends _ tt

  pub list_upstreams_for_server-Sends :
      {P : Write → Type 0} (server : NginxServer)
      → Sends P
          (AllOk (λ u. u.spec.server_ref ≡ server.meta.name))
          (list_upstreams_for_server cluster server)
  unfolding list_upstreams_for_server
  list_upstreams_for_server-Sends server =
      bind-Sends _ _ (ask-Sends {Q = Whatever} _ (λ w. tt)) (λ listed _. kept listed)
    where
      kept :
          {P : Write → Type 0} (listed : Result (List NginxUpstream))
          → Sends {W = W} P (AllOk (λ u. u.spec.server_ref ≡ server.meta.name)) (
              return (elim listed [
                | err problem ↦ err ("failed to list NginxUpstreams: " <> problem)
                | ok upstreams ↦ ok (select (λ u. u.spec.server_ref == server.meta.name) upstreams)
              ]))
      kept (ok upstreams) =
          return-Sends _ (select-All server.meta.name (λ u. u.spec.server_ref) upstreams)
      kept (err problem) = return-Sends _ tt
