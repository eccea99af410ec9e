-- ===== src/Kube.antt =====
-- The Kubernetes objects that the operator reads, with the fields it reads: Ingress, Service,
-- Namespace, label selectors and status conditions. A pointer is an `Option`.
use transfergw.Base.{String, List, Option}
use transfergw.Base.Int.{ℤ}

-- An int32 port, 0 if unset, or a port name, "" if unset.
pub record ServiceBackendPort : Type 0 where
  pub name : String
  pub number : ℤ

pub record IngressServiceBackend : Type 0 where
  pub name : String
  pub port : ServiceBackendPort

-- Without a Service the backend is a resource.
pub record IngressBackend : Type 0 where
  pub service : Option IngressServiceBackend

pub data PathType : Type 0 where
  exact prefix implementation_specific : PathType
  unknown : String → PathType

pub record HttpIngressPath : Type 0 where
  pub path : String
  pub path_type : Option PathType
  pub backend : IngressBackend

-- `paths` is the field HTTP.Paths; `none` is a rule without HTTP.
pub record IngressRule : Type 0 where
  pub host : String
  pub paths : Option (List HttpIngressPath)

pub record IngressTls : Type 0 where
  pub hosts : List String
  pub secret_name : String

-- The annotations are a map: an association list, where the first entry of a key counts.
pub record Ingress : Type 0 where
  pub namespace : String
  pub name : String
  pub annotations : List (String × String)
  pub ingress_class_name : Option String
  pub default_backend : Option IngressBackend
  pub tls : List IngressTls
  pub rules : List IngressRule

pub record ServicePort : Type 0 where
  pub name : String
  pub port : ℤ

pub data NamespacePhase : Type 0 where
  active terminating : NamespacePhase

pub record Namespace : Type 0 where
  pub name : String
  pub phase : NamespacePhase

pub record LabelSelectorRequirement : Type 0 where
  pub key : String
  pub operator : String
  pub values : List String

pub record LabelSelector : Type 0 where
  pub match_labels : List (String × String)
  pub match_expressions : List LabelSelectorRequirement

pub data ConditionStatus : Type 0 where
  cond_true cond_false cond_unknown : ConditionStatus

-- A time is a number of nanoseconds.
pub record Condition : Type 0 where
  pub type : String
  pub status : ConditionStatus
  pub observed_generation : ℤ
  pub last_transition_time : ℤ
  pub reason : String
  pub message : String

pub record ObjectKey : Type 0 where
  pub namespace : String
  pub name : String
