-- ===== src/Config/Validator/Server/Laws.antt =====
-- When `ValidateNginxServer` accepts a server.
use mathlib.Core.Bool.{and-eq-true_iff}
use nginx_operator.Base.{
  ==-false_iff, if◌then◌else◌, ℕ, suc, ◌≡◌, refl, ◌≢◌, ◌↔◌, ◌∙◌, String, ◌==◌, eq_iff, Bool, true,
  false, List, [], ◌∷◌, Option, none, some, ◌&&◌, is_some, not, All, arith,
}
use nginx_operator.Base.Int.{ltb_ℤ-false_iff, ℤ, pos, ◌≤ℤ◌, is_positive}
use nginx_operator.Base.Dict.{Dict, lookup, insert, lookup-insert}
use nginx_operator.Api.Server.{
  NginxServer, NginxServicePort, NginxServiceSpec, NginxTlsSpec, NginxAutoscalingSpec, NginxPdbSpec,
}
use nginx_operator.Config.Validator.Report.{
  Given, ValidationResult, add_error_if-valid, add_warning_if-valid,
}
use nginx_operator.Config.Validator.Server.{
  replicas_negative, secret_missing, autoscaling_inverted, budget_twice, min_above_max, flag,
  validate_ports, validate_service, validate_nginx_server,
}

-- Every port has a name, and no two have the same.
abbrev pub DistinctNames : List NginxServicePort → Type 0
DistinctNames [] = Unit
DistinctNames (p ∷ ps) = (p.name ≢ "") × All (λ q. q.name ≢ p.name) ps × DistinctNames ps

-- What an acceptable server satisfies, without reference to the checks.
pub record IsAcceptable (server : NginxServer) : Type 0 where
  pub replicas : Given (λ n. pos 0 ≤ℤ n) server.spec.replicas
  pub image : server.spec.image ≢ ""
  pub secret : Given (λ t. t.enabled ≡ true → t.secret_name ≢ "") server.spec.tls
  pub scaling :
      Given
        (λ a.
          a.enabled ≡ true
          → is_positive a.max_replicas ≡ true
          → Given (λ least. least ≤ℤ a.max_replicas) a.min_replicas)
        server.spec.autoscaling
  pub budget :
      Given
        (λ p. p.enabled ≡ true → ¬ ((p.min_available ≢ none) × (p.max_unavailable ≢ none)))
        server.spec.pod_disruption_budget
  pub ports : Given (λ s. DistinctNames s.ports) server.spec.service

-- The names still to come that the loop accepts: not empty, not seen, not repeated.
abbrev ports_ok : Dict Bool → List NginxServicePort → Bool
ports_ok names [] = true
ports_ok names (p ∷ ps) =
    (not (p.name == "") && not (flag p.name names)) && ports_ok (insert p.name true names) ps

validate_ports-valid :
    (i : ℕ) (names : Dict Bool) (ps : List NginxServicePort) (r : ValidationResult)
    → (validate_ports i names ps r).valid ≡ (r.valid && ports_ok names ps)
unfolding validate_ports
validate_ports-valid i names [] r = ground arith
validate_ports-valid i names (p ∷ ps) r =
    validate_ports-valid (suc i) (insert p.name true names) ps _
    ∙ simp add_error_if-valid (ground arith)

flag-insert :
    (j k : String) (names : Dict Bool)
    → flag j (insert k true names) ≡ (if k == j then true else flag j names)
flag-insert j k names = rw (lookup-insert, flag) (ground arith)

abbrev Fresh : Dict Bool → List NginxServicePort → Type 0
Fresh names = All (λ p. flag p.name names ≡ false)

Fresh-insert :
    (k : String) (names : Dict Bool) (ps : List NginxServicePort)
    → Fresh (insert k true names) ps ↔ (All (λ q. q.name ≢ k) ps × Fresh names ps)
Fresh-insert k names [] = (λ _. (tt, tt), λ _. tt)
Fresh-insert k names (p ∷ ps) =
    let (to, from) = Fresh-insert k names ps in
    (
      λ (f, fs). ground (arith, flag-insert p.name k names, eq_iff k p.name, to fs),
      λ ((n, ns), (f, fs)).
          (ground (arith, flag-insert p.name k names, eq_iff k p.name), from (ns, fs)),
    )

ports_ok_iff :
    (names : Dict Bool) (ps : List NginxServicePort)
    → (ports_ok names ps ≡ true) ↔ (DistinctNames ps × Fresh names ps)
ports_ok_iff names [] = (λ _. (tt, tt), λ _. refl)
ports_ok_iff names (p ∷ ps) =
    let (to, from) = ports_ok_iff (insert p.name true names) ps in
    let (split, merge) = Fresh-insert p.name names ps in
    (
      λ h.
          let (here, later) =
            (and-eq-true_iff (not (p.name == "") && not (flag p.name names)) _).0 h in
          let (distinct, fresh) = to later in
          let (others, old) = split fresh in
          ((ground (arith, eq_iff p.name ""), others, distinct), (ground arith, old)),
      λ ((named, others, distinct), (new, old)).
          (and-eq-true_iff _ _).1
            (ground (arith, eq_iff p.name ""), from (distinct, merge (others, old))),
    )

Fresh-nil : (ps : List NginxServicePort) → Fresh [] ps
unfolding lookup
Fresh-nil [] = tt
Fresh-nil (p ∷ ps) = (refl, Fresh-nil ps)

service_ok : Option NginxServiceSpec → Bool
service_ok none = true
service_ok (some s) = ports_ok [] s.ports

validate_service-valid :
    (s : Option NginxServiceSpec) (r : ValidationResult)
    → (validate_service s r).valid ≡ (r.valid && service_ok s)
unfolding validate_service service_ok
validate_service-valid none r = ground arith
validate_service-valid (some s) r = validate_ports-valid 0 [] s.ports r

service_ok_iff :
    (s : Option NginxServiceSpec) → (service_ok s ≡ true) ↔ Given (λ s. DistinctNames s.ports) s
unfolding service_ok
service_ok_iff none = (λ _. tt, λ _. refl)
service_ok_iff (some s) = (
  λ h. ((ports_ok_iff [] s.ports).0 h).0,
  λ d. (ports_ok_iff [] s.ports).1 (d, Fresh-nil s.ports),
)

replicas_iff : (n : Option ℤ) → (replicas_negative n ≡ false) ↔ Given (λ n. pos 0 ≤ℤ n) n
replicas_iff none = (λ _. tt, λ _. refl)
replicas_iff (some n) = ltb_ℤ-false_iff n (pos 0)

secret_iff :
    (t : Option NginxTlsSpec)
    → (secret_missing t ≡ false) ↔ Given (λ t. t.enabled ≡ true → t.secret_name ≢ "") t
secret_iff none = (λ _. tt, λ _. refl)
secret_iff (some t) = ground (arith, eq_iff t.secret_name "")

scaling_fields :
    (enabled : Bool) (least : Option ℤ) (most : ℤ)
    → ((enabled && min_above_max least most) ≡ false)
      ↔ (enabled ≡ true → is_positive most ≡ true → Given (λ n. n ≤ℤ most) least)
scaling_fields enabled none most = (λ _ _ _. tt, λ _. ground arith)
scaling_fields false (some n) most = (λ _ e. cc, λ _. refl)
scaling_fields true (some n) most = ground (arith, ltb_ℤ-false_iff most n)

scaling_iff :
    (a : Option NginxAutoscalingSpec)
    → (autoscaling_inverted a ≡ false)
      ↔ Given
          (λ a.
            a.enabled ≡ true
            → is_positive a.max_replicas ≡ true
            → Given (λ least. least ≤ℤ a.max_replicas) a.min_replicas)
          a
scaling_iff none = (λ _. tt, λ _. refl)
scaling_iff (some a) = scaling_fields a.enabled a.min_replicas a.max_replicas

budget_fields :
    (enabled : Bool) (least most : Option ℤ)
    → ((enabled && (is_some least && is_some most)) ≡ false)
      ↔ (enabled ≡ true → ¬ ((least ≢ none) × (most ≢ none)))
budget_fields false least most = (λ _ e. cc, λ _. refl)
budget_fields true none most = (λ _ _ h. h.0 refl, λ _. refl)
budget_fields true (some m) none = (λ _ _ h. h.1 refl, λ _. refl)
budget_fields true (some m) (some n) = (λ e. cc, λ h. absurd (h refl ((λ e. cc), (λ e. cc))))

budget_iff :
    (p : Option NginxPdbSpec)
    → (budget_twice p ≡ false)
      ↔ Given (λ p. p.enabled ≡ true → ¬ ((p.min_available ≢ none) × (p.max_unavailable ≢ none))) p
budget_iff none = (λ _. tt, λ _. refl)
budget_iff (some p) = budget_fields p.enabled p.min_available p.max_unavailable

-- Whether all seven checks pass.
all_checks : NginxServer → Bool
all_checks server =
    not (replicas_negative server.spec.replicas)
    && not (server.spec.image == "")
    && not (secret_missing server.spec.tls)
    && not (autoscaling_inverted server.spec.autoscaling)
    && not (budget_twice server.spec.pod_disruption_budget)
    && service_ok server.spec.service

validate_nginx_server-valid :
    (server : NginxServer) → (validate_nginx_server server).valid ≡ all_checks server
unfolding validate_nginx_server all_checks
validate_nginx_server-valid server =
    simp (add_warning_if-valid, validate_service-valid, add_error_if-valid)

six_checks :
    (a b c d e f : Bool)
    → ((not a && not b && not c && not d && not e && f) ≡ true)
      ↔ ((a ≡ false) × (b ≡ false) × (c ≡ false) × (d ≡ false) × (e ≡ false) × (f ≡ true))
six_checks a b c d e f = ground arith

-- `ValidateNginxServer` accepts a server exactly if: a replica count that is given is not
-- negative; the image is not empty; enabled TLS has a secret name; where autoscaling is enabled with
-- a positive maximum, a minimum that is given is at most that maximum; an enabled disruption budget
-- does not set both bounds; and the service's ports have names that are not empty and differ.
pub validate_nginx_server-valid_iff :
    (server : NginxServer) → ((validate_nginx_server server).valid ≡ true) ↔ IsAcceptable server
unfolding all_checks
validate_nginx_server-valid_iff server =
    let spec = server.spec in
    let (split, join) =
      six_checks (replicas_negative spec.replicas) (spec.image == "") (secret_missing spec.tls)
        (autoscaling_inverted spec.autoscaling) (budget_twice spec.pod_disruption_budget)
        (service_ok spec.service) in
    rw validate_nginx_server-valid (
      λ h.
          let (a, b, c, d, e, f) = split h in
          record {
            replicas = (replicas_iff spec.replicas).0 a;
            image = (==-false_iff spec.image "").0 b;
            secret = (secret_iff spec.tls).0 c;
            scaling = (scaling_iff spec.autoscaling).0 d;
            budget = (budget_iff spec.pod_disruption_budget).0 e;
            ports = (service_ok_iff spec.service).0 f;
          },
      λ w. join (
        (replicas_iff spec.replicas).1 w.replicas,
        (==-false_iff spec.image "").1 w.image,
        (secret_iff spec.tls).1 w.secret,
        (scaling_iff spec.autoscaling).1 w.scaling,
        (budget_iff spec.pod_disruption_budget).1 w.budget,
        (service_ok_iff spec.service).1 w.ports,
      ),
    )
