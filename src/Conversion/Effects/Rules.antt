-- ===== src/Conversion/Effects/Rules.antt =====
-- The rules of an HTTPRoute as the annotations of its Ingress make them.
use transfergw.Base.{
  ◌≡◌, refl, sym, String, false, Option, some, List, [], ◌∷◌, string_eq, arith, All, All-append,
  inl, inr,
}
use transfergw.Base.Dict.{Dict}
use transfergw.Kube.{Ingress, IngressRule, HttpIngressPath}
use transfergw.Gateway.{HttpRoute, HttpRouteRule, BackendRef}
use transfergw.Translator.{Translator, Issue, Url}
use transfergw.Conversion.{Options, PortResolver}
use transfergw.Conversion.Backend.{convert_backend}
use transfergw.Conversion.Completeness.{Backend-cases}
use transfergw.Conversion.Annotations.{Annotated, convert_annotations}
use transfergw.Conversion.Grpc.{is_grpc_backend, paths_of}
use transfergw.Conversion.Routes.{
  timeouts_of, http_path, http_paths, http_rules, finish_http, convert_http_route, convert_ingress,
}

-- A rule with the filters and the timeouts of the annotations, and with one backend.
abbrev pub IsAnnotated : Annotated → HttpRouteRule → Type 0
IsAnnotated a r =
    (r.filters ≡ a.filters)
    × ((ref : BackendRef) × (r.backend_refs ≡ ref ∷ []))
    × (r.timeouts ≡ timeouts_of a.effect)

module _ {S : Type 0} (ing : Ingress) (resolver : Option (PortResolver S)) (a : Annotated) where
  http_path-IsAnnotated :
      (p : HttpIngressPath) (s : S) → All (IsAnnotated a) (http_path ing resolver a p s).0.1
  unfolding http_path
  http_path-IsAnnotated p s = elim (Backend-cases (convert_backend ing p resolver s).0) [
    | inl (ref, e) ↦ rw (http_path, e) ((refl, (ref, refl), refl), tt)
    | inr (i, e) ↦ rw (http_path, e) tt
  ]

-- What holds of the rules that each path gives, if the path has what that needs.
module _ {S : Type 0} (ing : Ingress) (resolver : Option (PortResolver S)) (a : Annotated)
    (R : HttpIngressPath → Type 0) (Q : HttpRouteRule → Type 0)
    (made : (p : HttpIngressPath) (s : S) → R p → All Q (http_path ing resolver a p s).0.1) where
  http_paths-made :
      (ps : List HttpIngressPath) (s : S) → All R ps → All Q (http_paths ing resolver a ps s).0.1
  unfolding http_paths
  http_paths-made [] s h = tt
  http_paths-made (p ∷ ps) s h = All-append Q _ _ (made p s h.0) (http_paths-made ps _ h.1)

  http_rules-made :
      (rules : List IngressRule) (s : S)
      → All (λ r. All R (paths_of r)) rules
      → All Q (http_rules ing resolver a rules s).0.1
  unfolding http_rules
  http_rules-made [] s h = tt
  http_rules-made (r ∷ rest) s h =
      All-append Q _ _ (http_paths-made (paths_of r) s h.0) (http_rules-made rest _ h.1)

finish_http-rules :
    {S : Type 0} (P : HttpRouteRule → Type 0) (ing : Ingress) (opts : Options S)
    (issues : List Issue) (rules : List HttpRouteRule) (route : HttpRoute)
    → All P rules
    → (finish_http ing opts issues rules).route ≡ some route
    → All P route.spec.rules
unfolding finish_http
finish_http-rules P ing opts issues [] route h e = cc e
finish_http-rules P ing opts issues (r ∷ rs) route h e =
    let same : r ∷ rs ≡ route.spec.rules = ground (arith, e) in rw (sym same) h

pub All-map {ℓ} :
    {A : Type ℓ} (P Q : A → Type 0) (f : (a : A) → P a → Q a) (xs : List A) → All P xs → All Q xs
All-map P Q f [] h = tt
All-map P Q f (x ∷ xs) h = (f x h.0, All-map P Q f xs h.1)

All-of {ℓ} : {A : Type ℓ} (P : A → Type 0) → ((a : A) → P a) → (xs : List A) → All P xs
All-of P f [] = tt
All-of P f (x ∷ xs) = (f x, All-of P f xs)

module _ {S : Type 0} (translators : Dict Translator) (parse_url : String → Option Url)
    (ing : Ingress) (opts : Options S) (s : S) (route : HttpRoute)
    (http : is_grpc_backend ing ≡ false)
    (e : (convert_ingress translators parse_url ing opts s).0.route ≡ some route) where
  abbrev annotations : Annotated
  annotations = convert_annotations translators parse_url ing opts.annotation_policy

  pub convert_ingress-made :
      (R : HttpIngressPath → Type 0) (Q : HttpRouteRule → Type 0)
      → ((p : HttpIngressPath) (s : S)
          → R p
          → All Q (http_path ing opts.port_resolver annotations p s).0.1)
      → All (λ r. All R (paths_of r)) ing.rules
      → All Q route.spec.rules
  unfolding convert_ingress convert_http_route
  convert_ingress-made R Q made h =
      finish_http-rules Q ing opts _ _ route
        (http_rules-made ing opts.port_resolver annotations R Q made ing.rules s h)
        (rw (convert_ingress, http) at e)

  -- Every rule of the HTTPRoute is made of what the annotations give.
  pub convert_ingress-IsAnnotated : All (IsAnnotated annotations) route.spec.rules
  convert_ingress-IsAnnotated =
      convert_ingress-made (λ p. Unit) (IsAnnotated annotations)
        (λ p s _. http_path-IsAnnotated ing opts.port_resolver annotations p s)
        (All-of _ (λ r. All-of _ (λ p. tt) (paths_of r)) ing.rules)
