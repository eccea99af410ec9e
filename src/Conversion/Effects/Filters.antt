-- ===== src/Conversion/Effects/Filters.antt =====
-- What the filters of an HTTPRoute stand for.
use transfergw.Base.{IsIn, ◌≡◌, ◌↔◌, String, false, Option, some, [], ◌∷◌, All, string_eq}
use transfergw.Base.Dict.{Dict}
use transfergw.Kube.{Ingress}
use transfergw.Gateway.{HttpRoute, HttpRouteRule, HttpRouteFilter, BackendRef}
use transfergw.Translator.{Translator, Url}
use transfergw.Conversion.{Options}
use transfergw.Conversion.Annotations.{convert_annotations}
use transfergw.Conversion.Annotations.Filters.{IsTranslated, convert_annotations-IsTranslated}
use transfergw.Conversion.Effects.Rules.{IsAnnotated, All-map, convert_ingress-IsAnnotated}
use transfergw.Conversion.Grpc.{is_grpc_backend}
use transfergw.Conversion.Routes.{convert_ingress}

module _ {S : Type 0} (translators : Dict Translator) (parse_url : String → Option Url)
    (ing : Ingress) (opts : Options S) (s : S) where
  -- In the HTTPRoute of an Ingress without a gRPC backend, a filter is among those of a rule exactly
  -- if the translator of an annotation that the policy does not drop gives it for the annotation's
  -- value; every rule, one with a redirect too, has one backend.
  pub convert_ingress-IsTranslated :
      (f : HttpRouteFilter) (route : HttpRoute)
      → is_grpc_backend ing ≡ false
      → (convert_ingress translators parse_url ing opts s).0.route ≡ some route
      → All
          (λ (r : HttpRouteRule).
            (IsIn f r.filters ↔ IsTranslated translators parse_url ing opts.annotation_policy f)
            × ((ref : BackendRef) × (r.backend_refs ≡ ref ∷ [])))
          route.spec.rules
  convert_ingress-IsTranslated f route http e =
      let a = convert_annotations translators parse_url ing opts.annotation_policy in
      All-map (IsAnnotated a) _
        (λ (r : HttpRouteRule) (q : IsAnnotated a r). (
          rw q.0
              (convert_annotations-IsTranslated translators parse_url ing opts.annotation_policy f),
          q.1,
        ))
        route.spec.rules (convert_ingress-IsAnnotated translators parse_url ing opts s route http e)
