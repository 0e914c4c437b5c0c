-- ===== src/Nginx/Service.antt =====
-- `BuildService` of internal/nginx/manager.go.
pub mod Laws
use nginx_operator.Base.{
  String, ◌==◌, Bool, true, false, List, [], ◌∷◌, ◌++◌, map, Option, none, some, ◌&&◌, ◌||◌, not,
  if◌then◌else◌, is_cons,
}
use nginx_operator.Base.Int.{pos, eqb_ℤ, is_positive}
use nginx_operator.Base.Dict.{Dict, insert_all}
use nginx_operator.Api.Server.{NginxServer, NginxServiceSpec, NginxServicePort}
use nginx_operator.Nginx.Objects.{ServicePort, Service}
use nginx_operator.Nginx.Labels.{service_name, selector_labels, managed_meta}
use nginx_operator.Nginx.Deployment.{tls_on}

-- One round of the loop over the ports of the specification.
unfoldable pub service_port : NginxServicePort → ServicePort
service_port p = record {
  name = p.name;
  port = p.port;
  target_port = if is_positive p.target_port then p.target_port else pos 0;
  protocol = if p.protocol == "" then "TCP" else p.protocol;
}

abbrev pub http_port : ServicePort
http_port = record { name = "http"; port = pos 80; target_port = pos 80; protocol = "TCP" }

abbrev pub https_port : ServicePort
https_port = record { name = "https"; port = pos 443; target_port = pos 443; protocol = "TCP" }

-- The ports before the HTTPS port is considered.
unfoldable pub base_ports : Option NginxServiceSpec → List ServicePort
unfolding service_port
base_ports none = http_port ∷ []
base_ports (some service) =
    if is_cons service.ports then map service_port service.ports else http_port ∷ []

-- `hasHTTPS`
unfoldable pub has_https : List ServicePort → Bool
has_https [] = false
has_https (p ∷ ps) = if eqb_ℤ p.port (pos 443) then true else has_https ps

unfoldable pub with_https : Bool → List ServicePort → List ServicePort
unfolding has_https
with_https tls ports = if tls && not (has_https ports) then ports ++ (https_port ∷ []) else ports

unfoldable pub service_type : Option NginxServiceSpec → String
service_type none = "ClusterIP"
service_type (some service) = if service.type == "" then "ClusterIP" else service.type

abbrev pub service_annotations : Option NginxServiceSpec → Dict String
service_annotations none = []
service_annotations (some service) = insert_all service.annotations []

-- A string field that is copied from the service specification if there is one.
abbrev pub from_service : (NginxServiceSpec → String) → Option NginxServiceSpec → String
from_service field none = ""
from_service field (some service) = field service

unfoldable pub build_service : NginxServer → Service
unfolding base_ports with_https service_type
build_service server =
    let service = server.spec.service in
    record {
      meta = record (managed_meta server (service_name server)) {
        annotations = service_annotations service;
      };
      spec = record {
        type = service_type service;
        selector = selector_labels server;
        ports = with_https (tls_on server.spec.tls) (base_ports service);
        load_balancer_ip = from_service (λ s. s.load_balancer_ip) service;
        external_traffic_policy = from_service (λ s. s.external_traffic_policy) service;
      };
    }
