-- ===== src/Tests/Samples.antt =====
-- A small NGINX instance: a server, a route to an upstream, and the upstream.
use nginx_operator.Base.{String, ◌∷◌, [], some, true}
use nginx_operator.Base.Int.{pos}
use nginx_operator.Api.Zero.{
  zero_object_meta, zero_nginx_service_port, zero_nginx_service_spec, zero_nginx_tls_spec,
  zero_nginx_server, zero_nginx_server_spec, zero_nginx_location_spec, zero_nginx_route_spec,
  zero_nginx_route, zero_nginx_backend_spec, zero_nginx_upstream_spec, zero_nginx_upstream,
}
use nginx_operator.Version.{Runtime}
use nginx_operator.Api.Meta.{ObjectMeta}
use nginx_operator.Api.Server.{NginxServer}
use nginx_operator.Api.Route.{NginxRoute, NginxLocationSpec}
use nginx_operator.Api.Upstream.{NginxUpstream}

abbrev named : String → ObjectMeta
named name = record zero_object_meta { name = name; namespace = "prod" }

abbrev pub edge : NginxServer
edge = record zero_nginx_server {
  meta = named "edge";
  spec = record zero_nginx_server_spec {
    replicas = some (pos 2);
    image = "nginx:1.27";
    tls = some (record zero_nginx_tls_spec { enabled = true; secret_name = "edge-tls" });
    service = some (record zero_nginx_service_spec {
      ports =
          (record zero_nginx_service_port { name = "http"; port = pos 80 })
          ∷ (record zero_nginx_service_port { name = "admin"; port = pos 8081 })
          ∷ [];
    });
    pod_labels = ("team", "web") ∷ [];
  };
}

-- A pod label that the selector uses
abbrev pub relabelled : NginxServer
relabelled = record zero_nginx_server {
  meta = named "edge";
  spec = record zero_nginx_server_spec {
    image = "nginx:1.27";
    pod_labels = ("app.kubernetes.io/component", "proxy") ∷ [];
  };
}

abbrev pub to_api : NginxLocationSpec
to_api = record zero_nginx_location_spec { path = "/api"; upstream_ref = "api" }

abbrev pub shop : NginxRoute
shop = record zero_nginx_route {
  meta = named "shop";
  spec = record zero_nginx_route_spec {
    server_ref = "edge";
    server_name = "shop.example.com";
    locations = to_api ∷ [];
    priority = pos 200;
  };
}

abbrev pub blog : NginxRoute
blog = record zero_nginx_route {
  meta = named "blog";
  spec = record zero_nginx_route_spec {
    server_ref = "edge";
    server_name = "blog.example.com";
    locations = to_api ∷ [];
    priority = pos 100;
  };
}

abbrev upstream_named : String → NginxUpstream
upstream_named name = record zero_nginx_upstream {
  meta = named name;
  spec = record zero_nginx_upstream_spec {
    server_ref = "edge";
    backends = record zero_nginx_backend_spec { address = "10.0.0.1"; port = pos 8080 } ∷ [];
  };
}

abbrev pub api : NginxUpstream
api = upstream_named "api"

abbrev pub dotted : NginxUpstream
dotted = upstream_named "api.v1"

abbrev pub dashed : NginxUpstream
dashed = upstream_named "api-v1"

-- The machine that runs the programs
abbrev pub linux : Runtime
linux = record { go_version = "go1.24.0"; os = "linux"; arch = "amd64" }
