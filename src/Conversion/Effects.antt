-- ===== src/Conversion/Effects.antt =====
-- What the annotations of an Ingress bring about in its HTTPRoute, and what they do not in its
-- GRPCRoute.
pub mod Rules
pub mod Filters
pub mod Validity
use transfergw.Base.{
  Any, Any-append_left, ℕ, ◌*◌, ◌≡◌, refl, sym, String, true, false, Option, none, some, List, [],
  ◌∷◌, contains, string_eq, arith, All, All-append, inl, inr,
}
use transfergw.Base.Int.{pos}
use transfergw.Base.Dict.{Dict, lookup, text_at, keys}
use transfergw.Kube.{Ingress, IngressRule, HttpIngressPath}
use transfergw.Gateway.{HttpRoute, HttpRouteRule}
use transfergw.Translator.{Translator, RuleEffect, Issue, Url}
use transfergw.Conversion.{Options, PortResolver, dropped, issue_of}
use transfergw.Conversion.Backend.{convert_backend, convert_service}
use transfergw.Conversion.Completeness.{Backend-cases}
use transfergw.Conversion.Annotations.{Annotated, convert_annotations}
use transfergw.Conversion.Annotations.Reports.{
  IsAbout, is_inexpressible, convert_annotations-IsAbout,
}
use transfergw.Conversion.Annotations.Timeouts.{
  Timeout, timeout_in, field_in, AtLeast, IsSeconds, timeout_translator,
  convert_annotations-AtLeast,
}
use transfergw.Conversion.Effects.Rules.{IsAnnotated, All-map, convert_ingress-IsAnnotated}
use transfergw.Conversion.Grpc.{
  is_grpc_backend, paths_of, grpc_path, grpc_paths, grpc_rules, finish_grpc, default_backend_issue,
  convert_grpc_route,
}
use transfergw.Conversion.Routes.{
  timeouts_of, http_path, http_paths, http_rules, finish_http, convert_http_route, convert_ingress,
}

finish_http_keeps :
    {S : Type 0} (P : Issue → Type 0) (ing : Ingress) (opts : Options S) (issues : List Issue)
    (rules : List HttpRouteRule)
    → Any P issues
    → Any P (finish_http ing opts issues rules).issues
unfolding finish_http
finish_http_keeps P ing opts issues [] h = Any-append_left P issues _ h
finish_http_keeps P ing opts issues (r ∷ rs) h = Any-append_left P issues _ h

timeout_in-timeouts_of :
    (w : Timeout) (e : Option RuleEffect) → timeout_in w e ≡ field_in w (timeouts_of e)
unfolding timeouts_of
timeout_in-timeouts_of w none = refl
timeout_in-timeouts_of w (some e) = refl

module _ {S : Type 0} (translators : Dict Translator) (parse_url : String → Option Url)
    (ing : Ingress) (opts : Options S) (s : S) (k : String)
    (there : contains (keys ing.annotations) k ≡ true)
    (wanted : dropped opts.annotation_policy k ≡ false) where
  -- An annotation of an Ingress without a gRPC backend that the policy does not drop, and that has
  -- a known vendor's prefix but no translator, or a translator that only says that there is no
  -- equivalent, is named by an issue of the conversion that belongs to the Ingress.
  pub convert_ingress-IsAbout :
      is_grpc_backend ing ≡ false
      → is_inexpressible (lookup k translators) k ≡ true
      → Any (IsAbout ing k) (convert_ingress translators parse_url ing opts s).0.issues
  unfolding convert_ingress convert_http_route
  convert_ingress-IsAbout http h =
      rw (convert_ingress, http)
        (finish_http_keeps (IsAbout ing k) ing opts _ _ (
          Any-append_left (IsAbout ing k) _ _ (
            convert_annotations-IsAbout translators parse_url ing opts.annotation_policy k there
              wanted h)))

  -- An annotation of an Ingress without a gRPC backend that the policy does not drop, whose
  -- translator is one of the two for timeouts and whose value is a number of seconds up to
  -- 9223372036, has a timeout of that kind in every rule of the HTTPRoute, as a text that denotes
  -- those seconds or more, whatever the other annotations ask for.
  pub convert_ingress-AtLeast :
      (w : Timeout) (n : ℕ) (route : HttpRoute)
      → is_grpc_backend ing ≡ false
      → lookup k translators ≡ some (timeout_translator w)
      → IsSeconds (text_at k ing.annotations) n
      → (convert_ingress translators parse_url ing opts s).0.route ≡ some route
      → All
          (λ (r : HttpRouteRule). AtLeast (pos (n * 1000000000)) (field_in w r.timeouts))
          route.spec.rules
  unfolding convert_ingress convert_http_route
  convert_ingress-AtLeast w n route http l h e =
      let a = convert_annotations translators parse_url ing opts.annotation_policy in
      let long =
        convert_annotations-AtLeast translators parse_url ing opts.annotation_policy w k n there
          wanted l h in
      All-map (IsAnnotated a) _
        (λ (r : HttpRouteRule) (q : IsAnnotated a r).
          rw (q.2, sym (timeout_in-timeouts_of w a.effect)) long)
        route.spec.rules (convert_ingress-IsAnnotated translators parse_url ing opts s route http e)

-- The same Ingress with other annotations.
abbrev pub annotated : Ingress → Dict String → Ingress
annotated ing all = record ing { annotations = all }

module _ {S : Type 0} (ing : Ingress) (all : Dict String) where
  convert_backend-annotated :
      (p : HttpIngressPath) (resolver : Option (PortResolver S)) (s : S)
      → convert_backend (annotated ing all) p resolver s ≡ convert_backend ing p resolver s
  unfolding convert_backend convert_service issue_of
  convert_backend-annotated p resolver s = refl

  grpc_path-annotated :
      (resolver : Option (PortResolver S)) (p : HttpIngressPath) (s : S)
      → grpc_path (annotated ing all) resolver p s ≡ grpc_path ing resolver p s
  unfolding grpc_path convert_backend convert_service issue_of
  grpc_path-annotated resolver p s = refl

  grpc_paths-annotated :
      (resolver : Option (PortResolver S)) (ps : List HttpIngressPath) (s : S)
      → grpc_paths (annotated ing all) resolver ps s ≡ grpc_paths ing resolver ps s
  unfolding grpc_paths
  grpc_paths-annotated resolver [] s = refl
  grpc_paths-annotated resolver (p ∷ ps) s =
      rw
        (
          grpc_path-annotated resolver p s,
          grpc_paths-annotated resolver ps (grpc_path ing resolver p s).1,
        )
        refl

  grpc_rules-annotated :
      (resolver : Option (PortResolver S)) (rules : List IngressRule) (s : S)
      → grpc_rules (annotated ing all) resolver rules s ≡ grpc_rules ing resolver rules s
  unfolding grpc_rules
  grpc_rules-annotated resolver [] s = refl
  grpc_rules-annotated resolver (r ∷ rest) s =
      rw
        (
          grpc_paths-annotated resolver (paths_of r) s,
          grpc_rules-annotated resolver rest (grpc_paths ing resolver (paths_of r) s).1,
        )
        refl

  convert_grpc_route-annotated :
      (opts : Options S) (s : S)
      → convert_grpc_route (annotated ing all) opts s ≡ convert_grpc_route ing opts s
  unfolding convert_grpc_route finish_grpc default_backend_issue issue_of
  convert_grpc_route-annotated opts s =
      rw (grpc_rules-annotated opts.port_resolver ing.rules s, convert_grpc_route) refl

  -- Two Ingresses with gRPC backends that differ in their annotations alone are converted to the
  -- same result, with the same issues: none of them is translated or reported.
  pub convert_ingress-annotated :
      (translators : Dict Translator) (parse_url : String → Option Url) (opts : Options S) (s : S)
      → is_grpc_backend ing ≡ true
      → is_grpc_backend (annotated ing all) ≡ true
      → convert_ingress translators parse_url (annotated ing all) opts s
        ≡ convert_ingress translators parse_url ing opts s
  unfolding convert_ingress
  convert_ingress-annotated translators parse_url opts s g g' =
      rw (convert_ingress, g, g') (convert_grpc_route-annotated opts s)
