-- ===== src/Conversion/Grpc.antt =====
-- isGRPCBackend and convertGRPCRoute, internal/conversion/grpc.go, with the parts that they share
-- with ConvertIngress: the host names and the parent reference.
use transfergw.Base.{
  String, ◌<>◌, Bool, false, not, ◌||◌, ◌&&◌, Option, none, some, List, [], ◌∷◌, ◌++◌, contains,
  ◌==◌, string_eq, if◌then◌else◌,
}
use transfergw.Base.Text.{quote, equal_fold}
use transfergw.Base.Dict.{text_at, lookup}
use transfergw.Kube.{Ingress, IngressRule, HttpIngressPath}
use transfergw.Gateway.{GrpcRouteRule, ParentReference}
use transfergw.Api.{info, warning, error}
use transfergw.Translator.{Issue, nginx_prefix}
use transfergw.Registry.Appgw.{appgw_prefix}
use transfergw.Registry.Alb.{alb_prefix}
use transfergw.Conversion.{sorted_keys, Options, ConversionResult, PortResolver, issue_of}
use transfergw.Conversion.Backend.{converted, rejected, convert_backend}

abbrev grpc_backend_protocol_keys : List String
grpc_backend_protocol_keys =
    (nginx_prefix <> "backend-protocol")
    ∷ (appgw_prefix <> "backend-protocol")
    ∷ (alb_prefix <> "backend-protocol")
    ∷ []

marks_grpc : Ingress → List String → Bool
unfolding text_at lookup equal_fold
marks_grpc ing [] = false
marks_grpc ing (k ∷ ks) = equal_fold (text_at k ing.annotations) "GRPC" || marks_grpc ing ks

unfoldable pub is_grpc_backend : Ingress → Bool
unfolding marks_grpc
is_grpc_backend ing = marks_grpc ing grpc_backend_protocol_keys

-- The set of the host names, each once.
unfoldable pub hosts_of : List IngressRule → List String
hosts_of [] = []
hosts_of (r ∷ rs) =
    let rest = hosts_of rs in if r.host == "" || contains rest r.host then rest else r.host ∷ rest

-- The set's sorted keys.
unfoldable pub hostnames : List IngressRule → List String
unfolding hosts_of sorted_keys
hostnames rules = sorted_keys (hosts_of rules)

-- The Gateway, qualified by its namespace where that is not the Ingress's own.
unfoldable pub parent_of : String → String → Ingress → ParentReference
parent_of gateway_name gateway_namespace ing = record {
  group = some "gateway.networking.k8s.io";
  kind = some "Gateway";
  namespace =
      if not (gateway_namespace == "") && not (gateway_namespace == ing.namespace)
      then some gateway_namespace
      else none;
  name = gateway_name;
}

-- The issue of a default backend, with its advice.
unfoldable pub default_backend_issue : Ingress → String → List Issue
default_backend_issue ing advice = elim ing.default_backend [
  | none ↦ []
  | some b ↦
      issue_of ing warning "spec.defaultBackend has no Gateway API equivalent and was not converted"
        advice
      ∷ []
]

abbrev pub paths_of : IngressRule → List HttpIngressPath
paths_of r = elim r.paths [ none ↦ [] | some ps ↦ ps ]

module _ {S : Type 0} (ing : Ingress) (resolver : Option (PortResolver S)) where
  -- The body of the inner loop: the issues and the rules that a path adds.
  unfoldable pub grpc_path : HttpIngressPath → S → (List Issue × List GrpcRouteRule) × S
  grpc_path p s =
      let (b, s') = convert_backend ing p resolver s in
      elim b [
        | rejected i ↦ ((i ∷ [], []), s')
        | converted ref ↦ (
          (
            if not (p.path == "") && not (p.path == "/")
                then issue_of ing info
                    ("path "
                      <> (quote p.path
                          <> " was not preserved on the generated GRPCRoute: gRPC routes match by service/method, not URL path, and the Ingress spec carries no such information; this rule matches every gRPC call to the host"))
                    "Add a method match directly on the GRPCRoute if you need to split traffic by gRPC service or method."
                  ∷ []
                else [],
            record { backend_refs = ref ∷ [] } ∷ [],
          ),
          s',
        )
      ]

  unfoldable pub grpc_paths : List HttpIngressPath → S → (List Issue × List GrpcRouteRule) × S
  unfolding grpc_path
  grpc_paths [] s = (([], []), s)
  grpc_paths (p ∷ ps) s =
      let ((is, rs), s') = grpc_path p s in
      let ((is', rs'), s'') = grpc_paths ps s' in ((is ++ is', rs ++ rs'), s'')

  unfoldable pub grpc_rules : List IngressRule → S → (List Issue × List GrpcRouteRule) × S
  unfolding grpc_paths
  grpc_rules [] s = (([], []), s)
  grpc_rules (r ∷ rest) s =
      let ((is, rs), s') = grpc_paths (paths_of r) s in
      let ((is', rs'), s'') = grpc_rules rest s' in ((is ++ is', rs ++ rs'), s'')

-- The part of convertGRPCRoute behind the loop.
unfoldable pub finish_grpc :
    {S : Type 0} → Ingress → Options S → List Issue → List GrpcRouteRule → ConversionResult
finish_grpc ing opts issues [] = record {
  route = none;
  grpc_route = none;
  issues =
      issues
      ++ (issue_of ing error "Ingress produced no convertible gRPC rules"
            "Ensure at least one rule defines an http path with a Service backend."
          ∷ []);
}
finish_grpc ing opts issues (r ∷ rs) = record {
  route = none;
  grpc_route = some (record {
    namespace = ing.namespace;
    name = ing.name;
    spec = record {
      parent_refs = parent_of opts.gateway_name opts.gateway_namespace ing ∷ [];
      hostnames = hostnames ing.rules;
      rules = r ∷ rs;
    };
  });
  issues = issues;
}

unfoldable pub convert_grpc_route : {S : Type 0} → Ingress → Options S → S → ConversionResult × S
unfolding finish_grpc grpc_rules parent_of hostnames default_backend_issue
convert_grpc_route ing opts s =
    let ((issues, rules), s') = grpc_rules ing opts.port_resolver ing.rules s in
    (
      finish_grpc ing opts
          (issues
            ++ default_backend_issue ing
                "Add an explicit catch-all rule to the generated GRPCRoute if you need this behaviour.")
          rules,
      s',
    )
