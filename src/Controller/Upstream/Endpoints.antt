-- ===== src/Controller/Upstream/Endpoints.antt =====
-- `resolveServiceEndpoints` of internal/controller/nginxupstream_controller.go.
pub mod Laws
use nginx_operator.Base.{
  String, ◌<>◌, ◌==◌, false, List, [], ◌∷◌, ◌++◌, Result, ok, err, if◌then◌else◌,
}
use nginx_operator.Base.Int.{ℤ, pos}
use nginx_operator.Base.Text.{show_ℤ}
use nginx_operator.Api.Upstream.{NginxUpstream, NginxBackendSpec, NginxServiceDiscoverySpec}
use nginx_operator.Controller.Run.{Run, return, ask, ◌>>=◌}
use nginx_operator.Controller.Cluster.{Cluster, Answer, found, not_found, failed, Endpoints, Write}

unfoldable pub endpoint_namespace : NginxUpstream → NginxServiceDiscoverySpec → String
endpoint_namespace upstream sd =
    if sd.namespace == "" then upstream.meta.namespace else sd.namespace

-- `"%s:%d"` of an address
unfoldable pub endpoint_text : ℤ → String → String
endpoint_text port ip = ip <> ":" <> show_ℤ port

unfoldable pub discovered_backend : ℤ → String → NginxBackendSpec
discovered_backend port ip = record {
  address = ip;
  port = port;
  weight = pos 1;
  max_connections = pos 0;
  max_fails = pos 3;
  fail_timeout = "10s";
  backup = false;
  down = false;
}

-- The inner loop, over the addresses of a subset: the texts and the backends.
unfoldable pub from_addresses : ℤ → List String → List String × List NginxBackendSpec
from_addresses port [] = ([], [])
from_addresses port (ip ∷ ips) =
    let (texts, backends) = from_addresses port ips in
    (endpoint_text port ip ∷ texts, discovered_backend port ip ∷ backends)

-- The outer loop, over the subsets.
unfoldable pub from_subsets : ℤ → List (List String) → List String × List NginxBackendSpec
from_subsets port [] = ([], [])
from_subsets port (ips ∷ rest) =
    let (texts, backends) = from_addresses port ips in
    let (texts', backends') = from_subsets port rest in (texts ++ texts', backends ++ backends')

-- The assignments to the specification in memory and to the status.
unfoldable pub with_endpoints : NginxUpstream → ℤ → Endpoints → NginxUpstream
with_endpoints upstream port endpoints =
    let (texts, backends) = from_subsets port endpoints.subsets in
    let spec = upstream.spec in
    let status = upstream.status in
    record upstream {
      spec = record spec { backends = backends };
      status = record status { discovered_endpoints = texts };
    }

abbrev lookup_failed : String → NginxServiceDiscoverySpec → String → String
lookup_failed namespace sd problem =
    "failed to get Endpoints for Service " <> namespace <> "/" <> sd.service_name <> ": " <> problem

unfoldable pub on_endpoints :
    NginxUpstream → NginxServiceDiscoverySpec → Answer Endpoints → Result NginxUpstream
on_endpoints upstream sd (found endpoints) = ok (with_endpoints upstream sd.service_port endpoints)
on_endpoints upstream sd (not_found problem) =
    err (lookup_failed (endpoint_namespace upstream sd) sd problem)
on_endpoints upstream sd (failed problem) =
    err (lookup_failed (endpoint_namespace upstream sd) sd problem)

unfoldable pub resolve_service_endpoints :
    {W : Type 0}
    → Cluster W
    → NginxUpstream
    → NginxServiceDiscoverySpec
    → Run W Write (Result NginxUpstream)
resolve_service_endpoints cluster upstream sd = do
  answer ← ask (cluster.get_endpoints (endpoint_namespace upstream sd) sd.service_name)
  return (on_endpoints upstream sd answer)
