-- ===== src/Config/Validator/Route/Laws.antt =====
-- When `ValidateNginxRoute` accepts a route.
use mathlib.Core.Bool.{and_assoc, not-not, and-eq-true_iff}
use Prim.Native.Nat.{◌+◌}
use nginx_operator.Base.{
  Bool-cases, inl, inr, ltb, ℕ, ◌≡◌, refl, ◌≢◌, ◌↔◌, ◌⊎◌, String, ◌==◌, ==-false_iff, eq_iff, Bool,
  true, false, eqb, List, [], ◌∷◌, Option, none, some, ◌&&◌, not, is_some, is_cons, all, all_iff,
  All, arith,
}
use nginx_operator.Base.Text.{contains_char}
use nginx_operator.Api.Route.{
  NginxRoute, NginxLocationSpec, NginxRateLimitSpec, NginxAccessControlSpec,
}
use nginx_operator.Config.Validator.Report.{
  Given, ValidationResult, add_error_if-valid, validate_each, validate_each-valid,
}
use nginx_operator.Config.Validator.Route.{
  is_valid_cidr_or_ip, one_if, config_count, settings_unused, validate_location, rate_missing,
  validate_cidr, validate_access, validate_nginx_route,
}

-- A location names one of its four kinds of target, and leaves the other three out.
abbrev pub OneTarget : NginxLocationSpec → Type 0
OneTarget loc =
    ((loc.upstream_ref ≢ "")
      × (loc.proxy_pass ≡ "")
      × (loc.static_content ≡ none)
      × (loc.return ≡ none))
    ⊎ ((loc.upstream_ref ≡ "")
        × (loc.proxy_pass ≢ "")
        × (loc.static_content ≡ none)
        × (loc.return ≡ none))
    ⊎ ((loc.upstream_ref ≡ "")
        × (loc.proxy_pass ≡ "")
        × (loc.static_content ≢ none)
        × (loc.return ≡ none))
    ⊎ ((loc.upstream_ref ≡ "")
        × (loc.proxy_pass ≡ "")
        × (loc.static_content ≡ none)
        × (loc.return ≢ none))

-- A location that is well formed: a path, one target, and proxy settings for a proxy only.
pub record IsAcceptableLocation (loc : NginxLocationSpec) : Type 0 where
  pub path : loc.path ≢ ""
  pub target : OneTarget loc
  pub settings : loc.proxy_settings ≢ none → (loc.upstream_ref ≢ "") ⊎ (loc.proxy_pass ≢ "")

-- An entry of an access list, as far as the check goes.
abbrev pub IsAddress : String → Type 0
IsAddress s = (s ≡ "all") ⊎ (contains_char b':' s ≡ true) ⊎ (contains_char b'.' s ≡ true)

-- What an acceptable route satisfies, without reference to the checks.
pub record IsAcceptable (route : NginxRoute) : Type 0 where
  pub server_ref : route.spec.server_ref ≢ ""
  pub server_name : route.spec.server_name ≢ ""
  pub some_location : route.spec.locations ≢ []
  pub locations : All IsAcceptableLocation route.spec.locations
  pub rate : Given (λ l. l.enabled ≡ true → l.rate ≢ "") route.spec.rate_limit
  pub access : Given (λ a. All IsAddress a.allow × All IsAddress a.deny) route.spec.access_control

location_ok : NginxLocationSpec → Bool
location_ok loc = (not (loc.path == "") && eqb (config_count loc) 1) && not (settings_unused loc)

count_one :
    (a b c : Bool) (n : ℕ)
    → (a && b && not (eqb n 0) && not (ltb 1 n) && c) ≡ (a && (b && eqb n 1 && c))
count_one a b c n = ground arith

validate_location-valid :
    (i : ℕ) (loc : NginxLocationSpec) (r : ValidationResult)
    → (validate_location i loc r).valid ≡ (r.valid && location_ok loc)
unfolding validate_location location_ok
validate_location-valid i loc r =
    simp add_error_if-valid
      (count_one r.valid (not (loc.path == "")) (not (settings_unused loc)) (config_count loc))

-- The four targets, by their fields.
abbrev OneOf {ℓ κ} :
    {A : Type ℓ} {B : Type κ} → String → String → Option A → Option B → Type (ℓ ⊔ κ)
OneOf ref pass static ret =
    ((ref ≢ "") × (pass ≡ "") × (static ≡ none) × (ret ≡ none))
    ⊎ ((ref ≡ "") × (pass ≢ "") × (static ≡ none) × (ret ≡ none))
    ⊎ ((ref ≡ "") × (pass ≡ "") × (static ≢ none) × (ret ≡ none))
    ⊎ ((ref ≡ "") × (pass ≡ "") × (static ≡ none) × (ret ≢ none))

abbrev count {ℓ κ} : {A : Type ℓ} {B : Type κ} → String → String → Option A → Option B → ℕ
count ref pass static ret =
    one_if (not (ref == ""))
    + one_if (not (pass == ""))
    + one_if (is_some static)
    + one_if (is_some ret)

count_iff :
    {A : Type 0} {B : Type 0} (ref pass : String) (static : Option A) (ret : Option B)
    → (eqb (count ref pass static ret) 1 ≡ true) ↔ OneOf ref pass static ret
count_iff ref pass none none = ground (arith, eq_iff ref "", eq_iff pass "")
count_iff ref pass (some a) none = ground (arith, eq_iff ref "", eq_iff pass "")
count_iff ref pass none (some b) = ground (arith, eq_iff ref "", eq_iff pass "")
count_iff ref pass (some a) (some b) = ground (arith, eq_iff ref "", eq_iff pass "")

either_iff : (ref pass : String) → ((ref == "" && pass == "") ≡ false) ↔ ((ref ≢ "") ⊎ (pass ≢ ""))
either_iff ref pass = ground (arith, eq_iff ref "", eq_iff pass "")

settings_iff :
    {A : Type 0} (settings : Option A) (ref pass : String)
    → ((is_some settings && (ref == "" && pass == "")) ≡ false)
      ↔ (settings ≢ none → (ref ≢ "") ⊎ (pass ≢ ""))
settings_iff none ref pass = (λ _ h. absurd (h refl), λ _. refl)
settings_iff (some a) ref pass =
    (λ e _. (either_iff ref pass).0 e, λ h. (either_iff ref pass).1 (h (λ e. cc)))

two_checks :
    (a b c : Bool) → ((not a && b && not c) ≡ true) ↔ ((a ≡ false) × (b ≡ true) × (c ≡ false))
two_checks a b c = ground arith

location_ok_iff : (loc : NginxLocationSpec) → (location_ok loc ≡ true) ↔ IsAcceptableLocation loc
unfolding location_ok config_count
location_ok_iff loc =
    let (split, join) =
      two_checks (loc.path == "") (eqb (config_count loc) 1) (settings_unused loc) in
    let (to, from) = count_iff loc.upstream_ref loc.proxy_pass loc.static_content loc.return in
    let (used, unused) = settings_iff loc.proxy_settings loc.upstream_ref loc.proxy_pass in
    (
      λ h.
          let (a, b, c) = split h in
          record { path = (==-false_iff loc.path "").0 a; target = to b; settings = used c },
      λ w. join ((==-false_iff loc.path "").1 w.path, from w.target, unused w.settings),
    )

contains-nil : (c : ℕ) → contains_char c "" ≡ false
unfolding contains_char
contains-nil c = refl

cidr_iff : (s : String) → (is_valid_cidr_or_ip s ≡ true) ↔ IsAddress s
unfolding is_valid_cidr_or_ip
cidr_iff s = elim (Bool-cases (s == "")) [
  | inl empty ↦
      rw ((eq_iff s "").0 empty)
        (ground (arith, eq_iff "" "all", contains-nil b':', contains-nil b'.'))
  | inr filled ↦ rw (filled, is_valid_cidr_or_ip) (ground (arith, eq_iff s "all"))
]

validate_cidr-valid :
    (field : String) (i : ℕ) (s : String) (r : ValidationResult)
    → (validate_cidr field i s r).valid ≡ (r.valid && is_valid_cidr_or_ip s)
unfolding validate_cidr
validate_cidr-valid field i s r = simp (add_error_if-valid, not-not)

access_ok : Option NginxAccessControlSpec → Bool
access_ok none = true
access_ok (some a) = all is_valid_cidr_or_ip a.allow && all is_valid_cidr_or_ip a.deny

validate_cidrs-valid :
    (field : String) (i : ℕ) (xs : List String) (r : ValidationResult)
    → (validate_each (validate_cidr field) i xs r).valid ≡ (r.valid && all is_valid_cidr_or_ip xs)
validate_cidrs-valid field i xs r =
    validate_each-valid (validate_cidr field) is_valid_cidr_or_ip (validate_cidr-valid field) i xs r

validate_access-valid :
    (a : Option NginxAccessControlSpec) (r : ValidationResult)
    → (validate_access a r).valid ≡ (r.valid && access_ok a)
unfolding validate_access access_ok
validate_access-valid none r = ground arith
validate_access-valid (some a) r =
    simp validate_cidrs-valid
      (and_assoc r.valid (all is_valid_cidr_or_ip a.allow) (all is_valid_cidr_or_ip a.deny))

access_iff :
    (a : Option NginxAccessControlSpec)
    → (access_ok a ≡ true) ↔ Given (λ a. All IsAddress a.allow × All IsAddress a.deny) a
unfolding access_ok
access_iff none = (λ _. tt, λ _. refl)
access_iff (some a) =
    let (to, from) = all_iff is_valid_cidr_or_ip IsAddress cidr_iff a.allow in
    let (to', from') = all_iff is_valid_cidr_or_ip IsAddress cidr_iff a.deny in
    (
      λ h. let (x, y) = (and-eq-true_iff (all is_valid_cidr_or_ip a.allow) _).0 h in (to x, to' y),
      λ (x, y). (and-eq-true_iff (all is_valid_cidr_or_ip a.allow) _).1 (from x, from' y),
    )

rate_iff :
    (l : Option NginxRateLimitSpec)
    → (rate_missing l ≡ false) ↔ Given (λ l. l.enabled ≡ true → l.rate ≢ "") l
rate_iff none = (λ _. tt, λ _. refl)
rate_iff (some l) = ground (arith, eq_iff l.rate "")

is_cons_iff {ℓ} : {A : Type ℓ} (xs : List A) → (is_cons xs ≡ true) ↔ (xs ≢ [])
is_cons_iff [] = (λ e. cc, λ h. absurd (h refl))
is_cons_iff (x ∷ xs) = (λ _ e. cc, λ _. refl)

-- Whether all checks pass.
all_checks : NginxRoute → Bool
all_checks route =
    not (route.spec.server_ref == "")
    && not (route.spec.server_name == "")
    && is_cons route.spec.locations
    && all location_ok route.spec.locations
    && not (rate_missing route.spec.rate_limit)
    && access_ok route.spec.access_control

validate_nginx_route-valid :
    (route : NginxRoute) → (validate_nginx_route route).valid ≡ all_checks route
unfolding validate_nginx_route all_checks
validate_nginx_route-valid route = simp (
  validate_access-valid,
  validate_each-valid validate_location location_ok validate_location-valid,
  add_error_if-valid,
  not-not,
)

six_checks :
    (a b c d e f : Bool)
    → ((not a && not b && c && d && not e && f) ≡ true)
      ↔ ((a ≡ false) × (b ≡ false) × (c ≡ true) × (d ≡ true) × (e ≡ false) × (f ≡ true))
six_checks a b c d e f = ground arith

-- `ValidateNginxRoute` accepts a route exactly if: it names a server and a server name; it has a
-- location; every location has a path, exactly one of its four targets, and proxy settings only
-- with an upstream or a proxy target; an enabled rate limit has a rate; and every entry of the
-- access lists is `all` or holds a colon or a dot.
pub validate_nginx_route-valid_iff :
    (route : NginxRoute) → ((validate_nginx_route route).valid ≡ true) ↔ IsAcceptable route
unfolding all_checks
validate_nginx_route-valid_iff route =
    let spec = route.spec in
    let (split, join) =
      six_checks (spec.server_ref == "") (spec.server_name == "") (is_cons spec.locations)
        (all location_ok spec.locations) (rate_missing spec.rate_limit)
        (access_ok spec.access_control) in
    let (to, from) = all_iff location_ok IsAcceptableLocation location_ok_iff spec.locations in
    rw validate_nginx_route-valid (
      λ h.
          let (a, b, c, d, e, f) = split h in
          record {
            server_ref = (==-false_iff spec.server_ref "").0 a;
            server_name = (==-false_iff spec.server_name "").0 b;
            some_location = (is_cons_iff spec.locations).0 c;
            locations = to d;
            rate = (rate_iff spec.rate_limit).0 e;
            access = (access_iff spec.access_control).0 f;
          },
      λ w. join (
        (==-false_iff spec.server_ref "").1 w.server_ref,
        (==-false_iff spec.server_name "").1 w.server_name,
        (is_cons_iff spec.locations).1 w.some_location,
        from w.locations,
        (rate_iff spec.rate_limit).1 w.rate,
        (access_iff spec.access_control).1 w.access,
      ),
    )
