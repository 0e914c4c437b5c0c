-- ===== src/Config/Generator/Upstream/Laws.antt =====
-- The data of an upstream block, and names of upstreams that share a block name.
use nginx_operator.Base.{◌≡◌, refl, ◌≢◌, String, ◌<>◌, eq_iff, arith, if◌then◌else◌}
use nginx_operator.Base.Int.{ℤ, pos, eqb_ℤ, eqb_ℤ_iff}
use nginx_operator.Api.Upstream.{NginxUpstream}
use nginx_operator.Config.Data.{UpstreamConfigData}
use nginx_operator.Config.Generator.Names.{sanitize_char, sanitize_name}
use nginx_operator.Config.Generator.Names.Laws.{
  sanitize_name-append, IsPlain, sanitize_name-IsPlain,
}
use nginx_operator.Config.Generator.Upstream.{upstream_block_name, upstream_config_data}

-- The keepalive settings that are rendered are set, and the block's name is an identifier.
pub record IsComplete (d : UpstreamConfigData) : Type 0 where
  pub name : IsPlain d.name
  pub keepalive : d.keepalive ≢ pos 0
  pub keepalive_timeout : d.keepalive_timeout ≢ ""
  pub keepalive_requests : d.keepalive_requests ≢ pos 0

or_default : (v d : ℤ) → d ≢ pos 0 → (if eqb_ℤ v (pos 0) then d else v) ≢ pos 0
or_default v d h = ground (arith, eqb_ℤ_iff v (pos 0))

-- Whatever the specification sets, an upstream block has a plain name and keepalive settings that
-- are neither zero nor empty.
pub upstream_config_data-IsComplete :
    (upstream : NginxUpstream) → IsComplete (upstream_config_data upstream)
unfolding upstream_config_data
upstream_config_data-IsComplete upstream = record {
  name = sanitize_name-IsPlain _;
  keepalive = or_default upstream.spec.keepalive (pos 32) (λ e. cc);
  keepalive_timeout = ground (arith, eq_iff upstream.spec.keepalive_timeout "", eq_iff "60s" "");
  keepalive_requests = or_default upstream.spec.keepalive_requests (pos 100) (λ e. cc);
}

sanitize_name-dot : sanitize_name "." ≡ sanitize_name "-"
unfolding sanitize_name sanitize_char
sanitize_name-dot = refl

-- In one namespace, an upstream named with a dot and one named alike with a dash at that place
-- have the same block name.
pub upstream_block_name_collision :
    (u v : NginxUpstream) (s t : String)
    → u.meta.namespace ≡ v.meta.namespace
    → u.meta.name ≡ s <> "." <> t
    → v.meta.name ≡ s <> "-" <> t
    → upstream_block_name u ≡ upstream_block_name v
unfolding upstream_block_name
upstream_block_name_collision u v s t same dotted dashed =
    rw (same, dotted, dashed) (simp (sanitize_name-append, sanitize_name-dot))
