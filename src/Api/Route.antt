-- ===== src/Api/Route.antt =====
-- The types of api/v1alpha1/nginxroute_types.go, field by field; the list type of the API is `List`.
use nginx_operator.Base.{String, Bool, List, Option}
use nginx_operator.Base.Int.{ℤ}
use nginx_operator.Base.Dict.{Dict}
use nginx_operator.Api.Meta.{Time, Condition, ObjectMeta}

pub record NginxListenSpec : Type 0 where
  pub port : ℤ
  pub https_port : ℤ
  pub proxy_protocol : Bool

pub record NginxRouteTlsSpec : Type 0 where
  pub enabled : Bool
  pub secret_name : String
  pub redirect_http : Bool

pub record NginxStaticContentSpec : Type 0 where
  pub root : String
  pub index : List String
  pub try_files : String
  pub autoindex : Bool

pub record NginxReturnSpec : Type 0 where
  pub code : ℤ
  pub body : String

pub record NginxProxySettingsSpec : Type 0 where
  pub connect_timeout : String
  pub send_timeout : String
  pub read_timeout : String
  pub buffer_size : String
  pub buffers : String
  pub set_headers : Dict String
  pub web_socket : Bool
  pub next_upstream : String
  pub next_upstream_tries : ℤ

pub record NginxRateLimitSpec : Type 0 where
  pub enabled : Bool
  pub zone : String
  pub rate : String
  pub burst : ℤ
  pub no_delay : Bool
  pub key : String

pub record NginxHeadersSpec : Type 0 where
  pub add : Dict String
  pub remove : List String
  pub security_headers : Bool

pub record NginxLocationSpec : Type 0 where
  pub path : String
  pub upstream_ref : String
  pub proxy_pass : String
  pub static_content : Option NginxStaticContentSpec
  pub return : Option NginxReturnSpec
  pub proxy_settings : Option NginxProxySettingsSpec
  pub rate_limit : Option NginxRateLimitSpec
  pub headers : Option NginxHeadersSpec
  pub custom_location_snippet : String

pub record NginxAccessControlSpec : Type 0 where
  pub allow : List String
  pub deny : List String

pub record NginxCorsSpec : Type 0 where
  pub enabled : Bool
  pub allow_origins : List String
  pub allow_methods : List String
  pub allow_headers : List String
  pub expose_headers : List String
  pub max_age : ℤ
  pub allow_credentials : Bool

pub record NginxRouteSpec : Type 0 where
  pub server_ref : String
  pub server_name : String
  pub listen : Option NginxListenSpec
  pub tls : Option NginxRouteTlsSpec
  pub locations : List NginxLocationSpec
  pub rate_limit : Option NginxRateLimitSpec
  pub access_control : Option NginxAccessControlSpec
  pub headers : Option NginxHeadersSpec
  pub cors : Option NginxCorsSpec
  pub custom_server_snippet : String
  pub priority : ℤ

pub record NginxRouteStatus : Type 0 where
  pub conditions : List Condition
  pub config_hash : String
  pub last_applied_time : Option Time
  pub observed_generation : ℤ

pub record NginxRoute : Type 0 where
  pub meta : ObjectMeta
  pub spec : NginxRouteSpec
  pub status : NginxRouteStatus
