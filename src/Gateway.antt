-- ===== src/Gateway.antt =====
-- The Gateway API objects that the operator writes, with the fields it sets. A pointer is an
-- `Option`; the kind of a filter is its constructor.
use transfergw.Base.{String, Bool, List, Option}
use transfergw.Base.Int.{ℤ}

pub data PathMatchType : Type 0 where
  exact path_prefix : PathMatchType

pub record HttpPathMatch : Type 0 where
  pub type : PathMatchType
  pub value : String

pub record HttpRouteMatch : Type 0 where
  pub path : Option HttpPathMatch

pub data HttpPathModifier : Type 0 where
  full_path prefix_match : String → HttpPathModifier

pub record HttpRequestRedirectFilter : Type 0 where
  pub scheme : Option String
  pub hostname : Option String
  pub path : Option HttpPathModifier
  pub status_code : Option ℤ

pub record HttpHeader : Type 0 where
  pub name : String
  pub value : String

pub record HttpCorsFilter : Type 0 where
  pub allow_origins : List String
  pub allow_credentials : Option Bool
  pub allow_methods : List String
  pub allow_headers : List String
  pub expose_headers : List String
  pub max_age : ℤ

pub data HttpRouteFilter : Type 0 where
  request_redirect : HttpRequestRedirectFilter → HttpRouteFilter
  url_rewrite : HttpPathModifier → HttpRouteFilter
  request_header_modifier : List HttpHeader → HttpRouteFilter
  cors : HttpCorsFilter → HttpRouteFilter

pub data SessionPersistenceType : Type 0 where
  cookie_based : SessionPersistenceType

pub record SessionPersistence : Type 0 where
  pub type : Option SessionPersistenceType
  pub session_name : Option String

-- Durations are texts such as "30s".
pub record HttpRouteTimeouts : Type 0 where
  pub request : Option String
  pub backend_request : Option String

pub record BackendRef : Type 0 where
  pub group : Option String
  pub kind : Option String
  pub name : String
  pub port : Option ℤ
  pub weight : Option ℤ

pub record HttpRouteRule : Type 0 where
  pub matches : List HttpRouteMatch
  pub filters : List HttpRouteFilter
  pub backend_refs : List BackendRef
  pub session_persistence : Option SessionPersistence
  pub timeouts : Option HttpRouteTimeouts

pub record ParentReference : Type 0 where
  pub group : Option String
  pub kind : Option String
  pub namespace : Option String
  pub name : String

pub record HttpRouteSpec : Type 0 where
  pub parent_refs : List ParentReference
  pub hostnames : List String
  pub rules : List HttpRouteRule

pub record HttpRoute : Type 0 where
  pub namespace : String
  pub name : String
  pub spec : HttpRouteSpec

pub record GrpcRouteRule : Type 0 where
  pub backend_refs : List BackendRef

pub record GrpcRouteSpec : Type 0 where
  pub parent_refs : List ParentReference
  pub hostnames : List String
  pub rules : List GrpcRouteRule

pub record GrpcRoute : Type 0 where
  pub namespace : String
  pub name : String
  pub spec : GrpcRouteSpec

pub data ProtocolType : Type 0 where
  http https : ProtocolType

pub data TlsMode : Type 0 where
  terminate : TlsMode

pub record SecretReference : Type 0 where
  pub namespace : Option String
  pub name : String

pub record ListenerTlsConfig : Type 0 where
  pub mode : Option TlsMode
  pub certificate_refs : List SecretReference

pub data FromNamespaces : Type 0 where
  all_namespaces : FromNamespaces

pub record Listener : Type 0 where
  pub name : String
  pub protocol : ProtocolType
  pub port : ℤ
  pub tls : Option ListenerTlsConfig
  pub allowed_from : Option FromNamespaces

pub record GatewaySpec : Type 0 where
  pub gateway_class_name : String
  pub listeners : List Listener
