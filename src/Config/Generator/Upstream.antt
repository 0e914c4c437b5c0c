-- ===== src/Config/Generator/Upstream.antt =====
-- `GenerateUpstreamConfig` of internal/config/generator.go.
pub mod Laws
use nginx_operator.Base.{String, ◌<>◌, ◌==◌, false, none, some, Result, ok, if◌then◌else◌}
use nginx_operator.Base.Int.{pos, eqb_ℤ}
use nginx_operator.Api.Upstream.{NginxUpstream}
use nginx_operator.Config.Data.{UpstreamConfigData}
use nginx_operator.Config.Generator.Names.{sanitize_name}
use nginx_operator.Config.Templates.Upstream.{upstream_config_template}

unfoldable pub upstream_block_name : NginxUpstream → String
unfolding sanitize_name
upstream_block_name upstream = sanitize_name (upstream.meta.namespace <> "-" <> upstream.meta.name)

unfoldable pub upstream_config_data : NginxUpstream → UpstreamConfigData
unfolding upstream_block_name
upstream_config_data upstream =
    let spec = upstream.spec in
    record {
      name = upstream_block_name upstream;
      algorithm = elim spec.load_balancing [ none ↦ "round_robin" | some lb ↦ lb.algorithm ];
      random_two_choices = elim spec.load_balancing [
        | none ↦ false
        | some lb ↦ lb.random_two_choices
      ];
      backends = spec.backends;
      keepalive = if eqb_ℤ spec.keepalive (pos 0) then pos 32 else spec.keepalive;
      keepalive_timeout = if spec.keepalive_timeout == "" then "60s" else spec.keepalive_timeout;
      keepalive_requests =
          if eqb_ℤ spec.keepalive_requests (pos 0) then pos 100 else spec.keepalive_requests;
      custom_snippet = spec.custom_upstream_snippet;
    }

-- The name of the block and its text.
unfoldable pub generate_upstream_config : NginxUpstream → Result (String × String)
unfolding upstream_config_data
generate_upstream_config upstream =
    ok (upstream_block_name upstream, upstream_config_template (upstream_config_data upstream))
