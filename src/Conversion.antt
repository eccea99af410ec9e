-- ===== src/Conversion.antt =====
-- The conversion engine: the types of internal/conversion/engine.go and its small functions. The
-- children follow the files: Path and Backend are route.go, Annotations the annotation loop of
-- engine.go, Routes its ConvertIngress, Grpc grpc.go.
pub mod Path
pub mod Backend
pub mod Annotations
pub mod Grpc
pub mod Routes
pub mod Completeness
pub mod Approximation
pub mod World
pub mod Effects
use transfergw.Base.Sort.{sort_texts}
use transfergw.Base.Dict.{Dict, keys}
use transfergw.Base.{
  ◌≡◌, String, ◌<>◌, Bool, true, false, ◌||◌, not, Option, none, some, List, [], ◌∷◌, contains,
  ◌==◌, string_eq, if◌then◌else◌,
}
use transfergw.Base.Int.{ℤ}
use transfergw.Kube.{Ingress}
use transfergw.Gateway.{HttpRoute, GrpcRoute}
use transfergw.Api.{Severity, info, warning, error}
use transfergw.Env.{Result}
use transfergw.Translator.{Issue}

-- A look-up of a Service port may read the world, whose state has the type S.
abbrev pub PortResolver : Type 0 → Type 0
PortResolver S = String → String → String → S → Result ℤ × S

-- AnnotationPolicy is the list of the keys to drop.
pub record Options (S : Type 0) : Type 0 where
  pub gateway_name : String
  pub gateway_namespace : String
  pub annotation_policy : Option (List String)
  pub port_resolver : Option (PortResolver S)

-- AnnotationPolicy.dropped
unfoldable pub dropped : Option (List String) → String → Bool
dropped none key = false
dropped (some drop) key = contains drop key

pub record ConversionResult : Type 0 where
  pub route : Option HttpRoute
  pub grpc_route : Option GrpcRoute
  pub issues : List Issue

unfoldable pub is_error : Severity → Bool
is_error error = true
is_error _ = false

unfoldable pub any_error : List Issue → Bool
unfolding is_error
any_error [] = false
any_error (i ∷ is) = is_error i.severity || any_error is

-- Result.Failed
unfoldable pub has_failed : ConversionResult → Bool
unfolding any_error
has_failed r = any_error r.issues

unfoldable pub key : Ingress → String
key ing = ing.namespace <> ("/" <> ing.name)

unfoldable pub issue_of : Ingress → Severity → String → String → Issue
unfolding key
issue_of ing severity message recommendation = record {
  ingress = key ing;
  message = message;
  severity = severity;
  recommendation = recommendation;
}

-- A set is the list of its items.
unfoldable pub sorted_keys : List String → List String
unfolding sort_texts
sorted_keys m = sort_texts m

unfoldable pub sorted_map_keys : Dict String → List String
unfolding sort_texts keys
sorted_map_keys m = sort_texts (keys m)
