-- ===== src/Tests/Generator.antt =====
-- Instances for internal/config/generator.go.
use nginx_operator.Base.{◌≡◌, ◌↔◌, refl, String, ◌∷◌, [], List, Result, ok, err, All}
use nginx_operator.Base.Dict.{Dict, lookup, insert}
use nginx_operator.Config.Data.{LocationData}
use nginx_operator.Config.Generator.Names.{sanitize_name, sanitize_char}
use nginx_operator.Config.Generator.Names.Laws.{Alike, sanitize_name-eq_iff}
use nginx_operator.Config.Generator.Main.{main_config_data}
use nginx_operator.Config.Generator.Main.Laws.{
  IsComplete as IsCompleteMain, main_config_data-IsComplete,
}
use nginx_operator.Config.Templates.Route.{route_config_template}
use nginx_operator.Config.Generator.Route.{
  generate_route_config, locations_data, location_data, resolve_upstream, route_config_data,
}
use nginx_operator.Config.Generator.Route.Laws.{AllResolved, generate_route_config-AllResolved}
use nginx_operator.Config.Generator.Upstream.{generate_upstream_config, upstream_block_name}
use nginx_operator.Config.Generator.Upstream.Laws.{upstream_block_name_collision}
use nginx_operator.Config.Generator.Full.{sorted_routes, upstream_blocks, generate_full_config}
use nginx_operator.Config.Generator.Full.Laws.{AllListed, generate_full_config-ok_iff}
use nginx_operator.Config.Templates.Upstream.{upstream_config_template}
use nginx_operator.Config.Templates.Text.{text, range}
use nginx_operator.Base.Text.{show_ℤ}
use nginx_operator.Config.Templates.Text.Contains.{Contains}
use nginx_operator.Config.Generator.Full.Contents.{
  RouteIn, upstream_text, generate_full_config-Contains,
}
use nginx_operator.Config.Generator.Full.{server_blocks}
use nginx_operator.Config.Generator.Main.{generate_main_config}
use nginx_operator.Config.Templates.Main.{main_config_template}
use nginx_operator.Base.Sort.{sort_slice}
use nginx_operator.Tests.Samples.{edge, shop, blog, api, dotted, dashed}

sanitize_name-eq_iff_example : (sanitize_name "a.b" ≡ sanitize_name "a-b") ↔ Alike "a.b" "a-b"
sanitize_name-eq_iff_example = sanitize_name-eq_iff "a.b" "a-b"

main_config_data-IsComplete_example : IsCompleteMain (main_config_data edge)
main_config_data-IsComplete_example = main_config_data-IsComplete edge

abbrev api_map : Dict String
api_map = ("api", "prod_api") ∷ []

abbrev text_of : Result String → String
text_of (ok text) = text
text_of (err problem) = ""

generate_route_config-AllResolved_example :
    (ds : List LocationData) × AllResolved api_map shop.spec.locations ds
    × (text_of (generate_route_config shop api_map)
        ≡ route_config_template (route_config_data shop ds))
unfolding generate_route_config locations_data location_data resolve_upstream lookup
generate_route_config-AllResolved_example = generate_route_config-AllResolved api_map shop refl

upstream_block_name_collision_example : upstream_block_name dotted ≡ upstream_block_name dashed
upstream_block_name_collision_example =
    upstream_block_name_collision dotted dashed "api" "v1" refl refl refl

generate_full_config-ok_iff_example :
    ((text : String) × (generate_full_config edge (shop ∷ blog ∷ []) (api ∷ []) ≡ ok text))
    ↔ All (AllListed (api ∷ [])) (shop ∷ blog ∷ [])
generate_full_config-ok_iff_example = generate_full_config-ok_iff edge (shop ∷ blog ∷ []) (api ∷ [])

api_block :
    generate_upstream_config api
    ≡ ok (
      "prod_api",
      "# Upstream: prod_api\nupstream prod_api {\n\n\n\n    server 10.0.0.1:8080 weight=0 max_fails=0 fail_timeout=;\n\n\n    keepalive 32;\n    keepalive_timeout 60s;\n    keepalive_requests 100;\n\n\n}\n",
    )
unfolding generate_upstream_config upstream_config_template text sanitize_char range show_ℤ
api_block = refl

abbrev full_text : String
full_text = text_of (generate_full_config edge (shop ∷ []) (api ∷ []))

generate_full_config-Contains_example :
    Contains (main_config_template (main_config_data edge)) full_text
    × All (λ u. Contains (upstream_text u) full_text) (api ∷ [])
    × ((upstream_map : Dict String) × (confs : List String) × (upstream_blocks [] (api ∷ [])
          ≡ ok (upstream_map, confs))
        × All (RouteIn upstream_map full_text) (shop ∷ []))
unfolding generate_full_config generate_main_config upstream_blocks generate_upstream_config
    sorted_routes sort_slice server_blocks generate_route_config locations_data location_data
    resolve_upstream lookup insert
generate_full_config-Contains_example =
    generate_full_config-Contains edge (shop ∷ []) (api ∷ []) refl
