-- ===== src/Conversion/Routes.antt =====
-- ConvertIngress, internal/conversion/engine.go.
use transfergw.Base.{String, ◌<>◌, Option, none, some, List, [], ◌∷◌, ◌++◌, length, if◌then◌else◌}
use transfergw.Base.Text.{decimal}
use transfergw.Base.Dict.{Dict}
use transfergw.Kube.{Ingress, IngressRule, HttpIngressPath}
use transfergw.Gateway.{HttpRouteRule, SessionPersistence, HttpRouteTimeouts}
use transfergw.Api.{info, error}
use transfergw.Translator.{Issue, RuleEffect, Translator, Url}
use transfergw.Conversion.{Options, ConversionResult, PortResolver, issue_of}
use transfergw.Conversion.Path.{convert_path}
use transfergw.Conversion.Backend.{converted, rejected, convert_backend}
use transfergw.Conversion.Annotations.{Annotated, convert_annotations}
use transfergw.Conversion.Grpc.{
  is_grpc_backend, hostnames, parent_of, default_backend_issue, paths_of, convert_grpc_route,
}

unfoldable pub issue_list : Option Issue → List Issue
issue_list none = []
issue_list (some i) = i ∷ []

persistence_of : Option RuleEffect → Option SessionPersistence
persistence_of none = none
persistence_of (some e) = e.session_persistence

unfoldable pub timeouts_of : Option RuleEffect → Option HttpRouteTimeouts
timeouts_of none = none
timeouts_of (some e) = e.timeouts

module _ {S : Type 0} (ing : Ingress) (resolver : Option (PortResolver S)) (a : Annotated) where
  -- The body of the inner loop: the issues and the rules that a path adds.
  unfoldable pub http_path : HttpIngressPath → S → (List Issue × List HttpRouteRule) × S
  unfolding persistence_of timeouts_of issue_list
  http_path p s =
      let (b, s') = convert_backend ing p resolver s in
      elim b [
        | rejected i ↦ ((i ∷ [], []), s')
        | converted ref ↦
            let (match, i) = convert_path ing p in
            (
              (
                issue_list i,
                record {
                  matches = match ∷ [];
                  filters = a.filters;
                  backend_refs = ref ∷ [];
                  session_persistence = persistence_of a.effect;
                  timeouts = timeouts_of a.effect;
                }
                    ∷ [],
              ),
              s',
            )
      ]

  unfoldable pub http_paths : List HttpIngressPath → S → (List Issue × List HttpRouteRule) × S
  unfolding http_path
  http_paths [] s = (([], []), s)
  http_paths (p ∷ ps) s =
      let ((is, rs), s') = http_path p s in
      let ((is', rs'), s'') = http_paths ps s' in ((is ++ is', rs ++ rs'), s'')

  unfoldable pub http_rules : List IngressRule → S → (List Issue × List HttpRouteRule) × S
  unfolding http_paths
  http_rules [] s = (([], []), s)
  http_rules (r ∷ rest) s =
      let ((is, rs), s') = http_paths (paths_of r) s in
      let ((is', rs'), s'') = http_rules rest s' in ((is ++ is', rs ++ rs'), s'')

-- The issue of an Ingress with TLS blocks.
unfoldable pub tls_issue : Ingress → List Issue
unfolding decimal
tls_issue ing = elim ing.tls [
  | [] ↦ []
  | t ∷ ts ↦
      issue_of ing info
        ("Ingress declares "
          <> (decimal (length (t ∷ ts))
              <> " TLS block(s); certificates are configured on the Gateway listener, not the HTTPRoute"))
        "Add an HTTPS listener to the Gateway referencing the same Secret."
      ∷ []
]

-- The part of ConvertIngress behind the loop and the default backend.
unfoldable pub finish_http :
    {S : Type 0} → Ingress → Options S → List Issue → List HttpRouteRule → ConversionResult
unfolding tls_issue
finish_http ing opts issues [] = record {
  route = none;
  grpc_route = none;
  issues =
      issues
      ++ (issue_of ing error "Ingress produced no convertible rules"
            "Ensure at least one rule defines an http path with a Service backend."
          ∷ []);
}
finish_http ing opts issues (r ∷ rs) = record {
  route = some (record {
    namespace = ing.namespace;
    name = ing.name;
    spec = record {
      parent_refs = parent_of opts.gateway_name opts.gateway_namespace ing ∷ [];
      hostnames = hostnames ing.rules;
      rules = r ∷ rs;
    };
  });
  grpc_route = none;
  issues = issues ++ tls_issue ing;
}

module _ (translators : Dict Translator) (parse_url : String → Option Url) where
  unfoldable pub convert_http_route : {S : Type 0} → Ingress → Options S → S → ConversionResult × S
  unfolding finish_http http_rules
  convert_http_route ing opts s =
      let a = convert_annotations translators parse_url ing opts.annotation_policy in
      let ((issues, rules), s') = http_rules ing opts.port_resolver a ing.rules s in
      (
        finish_http ing opts
            (a.issues
              ++ (issues
                  ++ default_backend_issue ing
                      "Add an explicit catch-all rule with path prefix \"/\" to the generated HTTPRoute if you need this behaviour."))
            rules,
        s',
      )

  unfoldable pub convert_ingress : {S : Type 0} → Ingress → Options S → S → ConversionResult × S
  unfolding convert_http_route
  convert_ingress ing opts s =
      let grpc = convert_grpc_route ing opts s in
      let http = convert_http_route ing opts s in if is_grpc_backend ing then grpc else http
