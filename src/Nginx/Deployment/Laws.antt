-- ===== src/Nginx/Deployment/Laws.antt =====
-- What `BuildDeployment` of internal/nginx/manager.go gives the pods.
use mathlib.Core.Option.{some-injective}
use nginx_operator.Base.{
  subst, sym, ◌≡◌, refl, ◌≢◌, ◌⊎◌, inl, inr, String, eq_iff, [], Option, none, some, arith, ap, ◌∙◌,
}
use nginx_operator.Base.Dict.{lookup, lookup-insert_all, or_else, NodupKeys}
use nginx_operator.Api.Meta.{label_instance, label_component}
use nginx_operator.Api.Server.{NginxServer}
use nginx_operator.Nginx.Labels.{build_labels, selector_labels}
use nginx_operator.Nginx.Labels.Laws.{selector_labels_sub}
use nginx_operator.Nginx.Deployment.{pod_labels, build_deployment}

build_labels-NodupKeys : (server : NginxServer) → NodupKeys (build_labels server)
unfolding build_labels lookup
build_labels-NodupKeys server = (refl, (refl, (refl, (refl, (refl, (refl, tt))))))

lookup-nil : (k : String) → lookup {V = String} k [] ≡ none
unfolding lookup
lookup-nil k = refl

or_else-none : (o : Option String) → or_else o none ≡ o
or_else-none none = refl
or_else-none (some v) = refl

-- A pod has the labels of the specification, and under keys that those leave free the labels of
-- the managed objects.
pub lookup-pod_labels :
    (server : NginxServer) (k : String)
    → NodupKeys server.spec.pod_labels
    → lookup k (pod_labels server)
      ≡ or_else (lookup k server.spec.pod_labels) (lookup k (build_labels server))
unfolding pod_labels
lookup-pod_labels server k h = rw (lookup-insert_all k server.spec.pod_labels _ h) (
    rw (lookup-insert_all k (build_labels server) [] (build_labels-NodupKeys server))
      (ap (or_else (lookup k server.spec.pod_labels)) (rw lookup-nil (or_else-none _))))

selecting_key :
    (server : NginxServer) (k : String) {v : String}
    → lookup k (selector_labels server) ≡ some v
    → (label_instance ≡ k) ⊎ (label_component ≡ k) ⊎ ("app.kubernetes.io/name" ≡ k)
unfolding selector_labels lookup
selecting_key server k h =
    ground
      (arith, eq_iff label_instance k, eq_iff label_component k, eq_iff "app.kubernetes.io/name" k)

pod_label_of_free :
    (server : NginxServer) (k v : String)
    → NodupKeys server.spec.pod_labels
    → lookup k server.spec.pod_labels ≡ none
    → lookup k (build_labels server) ≡ some v
    → lookup k (pod_labels server) ≡ some v
pod_label_of_free server k v h free e = rw (lookup-pod_labels server k h, free) e

-- Whether the pods of a Deployment match its selector.
abbrev pub MatchesSelector : NginxServer → String → Type 0
MatchesSelector server tag =
    let spec = (build_deployment server tag).spec in
    (k v : String) → lookup k spec.match_labels ≡ some v → lookup k spec.template_labels ≡ some v

-- If the labels of the specification leave the three selecting keys free, the pods match the
-- selector of their Deployment.
pub build_deployment-MatchesSelector :
    (server : NginxServer) (tag : String)
    → NodupKeys server.spec.pod_labels
    → lookup label_instance server.spec.pod_labels ≡ none
    → lookup label_component server.spec.pod_labels ≡ none
    → lookup "app.kubernetes.io/name" server.spec.pod_labels ≡ none
    → MatchesSelector server tag
unfolding build_deployment
build_deployment-MatchesSelector server tag h i c n k v e =
    pod_label_of_free server k v h free (selector_labels_sub server k v e)
  where
    free : lookup k server.spec.pod_labels ≡ none
    free = elim (selecting_key server k e) [
      | inl same ↦ subst (λ j. lookup j server.spec.pod_labels ≡ none) same i
      | inr (inl same) ↦ subst (λ j. lookup j server.spec.pod_labels ≡ none) same c
      | inr (inr same) ↦ subst (λ j. lookup j server.spec.pod_labels ≡ none) same n
    ]

-- A specification that sets a label of the selector, whichever of them, to another value makes pods
-- that do not match.
pub build_deployment_mismatch :
    (server : NginxServer) (tag k wanted v : String)
    → NodupKeys server.spec.pod_labels
    → lookup k (build_deployment server tag).spec.match_labels ≡ some wanted
    → lookup k server.spec.pod_labels ≡ some v
    → v ≢ wanted
    → ¬ MatchesSelector server tag
unfolding build_deployment
build_deployment_mismatch server tag k wanted v h selected e differs m = differs (
    some-injective v wanted (sym (rw (lookup-pod_labels server k h, e) refl) ∙ m k wanted selected))
