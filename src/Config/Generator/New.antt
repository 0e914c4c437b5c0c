-- ===== src/Config/Generator/New.antt =====
-- `Generator` and `NewGenerator` of internal/config/generator.go. Parsing is that of text/template.
use nginx_operator.Base.{◌≡◌, ap, ◌∙◌, ok-injective, refl, String, ◌<>◌, Result, ok, err}

-- The three texts of internal/config/templates.go.
pub data Source : Type 0 where
  main_source route_source upstream_source : Source

pub record Generator (Template : Type 0) : Type 0 where
  pub main_template : Template
  pub route_template : Template
  pub upstream_template : Template

-- What follows on a template that was parsed; a problem ends the function with the prefix before it.
unfoldable pub on_parsed : {A B : Type 0} → (prefix : String) → Result A → (A → Result B) → Result B
on_parsed prefix (err problem) rest = err (prefix <> ": " <> problem)
on_parsed prefix (ok template) rest = rest template

module _ {Template : Type 0} (parse : (name : String) → Source → Result Template) where
  unfoldable pub new_generator : Result (Generator Template)
  unfolding on_parsed
  new_generator =
      on_parsed "failed to parse main config template" (parse "nginx.conf" main_source)
        (λ main_template.
          on_parsed "failed to parse route config template" (parse "route.conf" route_source)
            (λ route_template.
              on_parsed "failed to parse upstream config template"
                (parse "upstream.conf" upstream_source)
                (λ upstream_template. ok (record {
                  main_template = main_template;
                  route_template = route_template;
                  upstream_template = upstream_template;
                }))))

on_parsed-ok :
    {A B : Type 0} (prefix : String) (parsed : Result A) (rest : A → Result B) {b : B}
    → on_parsed prefix parsed rest ≡ ok b
    → (a : A) × (parsed ≡ ok a) × (rest a ≡ ok b)
unfolding on_parsed
on_parsed-ok prefix (err problem) rest e = cc
on_parsed-ok prefix (ok template) rest e = (template, refl, e)

-- A generator holds the three templates as they were parsed.
pub new_generator-ok :
    {Template : Type 0} (parse : (name : String) → Source → Result Template)
    {generator : Generator Template}
    → new_generator parse ≡ ok generator
    → (parse "nginx.conf" main_source ≡ ok generator.main_template)
      × (parse "route.conf" route_source ≡ ok generator.route_template)
      × (parse "upstream.conf" upstream_source ≡ ok generator.upstream_template)
unfolding new_generator
new_generator-ok parse e =
    let (main, parsed_main, e1) =
      on_parsed-ok "failed to parse main config template" (parse "nginx.conf" main_source) _ e in
    let (route, parsed_route, e2) =
      on_parsed-ok "failed to parse route config template" (parse "route.conf" route_source) _ e1 in
    let (upstream, parsed_upstream, e3) =
      on_parsed-ok "failed to parse upstream config template"
        (parse "upstream.conf" upstream_source) _ e2 in
    let same = ok-injective e3 in
    (
      parsed_main ∙ ap (λ g. ok g.main_template) same,
      parsed_route ∙ ap (λ g. ok g.route_template) same,
      parsed_upstream ∙ ap (λ g. ok g.upstream_template) same,
    )
