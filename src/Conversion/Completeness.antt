-- ===== src/Conversion/Completeness.antt =====
-- ConvertIngress of internal/conversion/engine.go as a whole: what its result is for every Ingress.
use transfergw.Base.{
  ◌≡◌, refl, ◌⊎◌, inl, inr, String, Bool, true, false, ◌||◌, Option, none, some, List, [], ◌∷◌,
  ◌++◌, string_eq, arith, Bool-cases, Option-cases,
}
use transfergw.Api.{error}
use transfergw.Base.Int.{pos}
use transfergw.Base.Dict.{Dict}
use transfergw.Kube.{Ingress, IngressRule, IngressServiceBackend, HttpIngressPath}
use transfergw.Gateway.{HttpRoute, GrpcRoute, HttpRouteRule, GrpcRouteRule, BackendRef}
use transfergw.Translator.{Issue, Translator, Url}
use transfergw.Conversion.{
  Options, ConversionResult, PortResolver, is_error, any_error, has_failed, issue_of,
}
use transfergw.Conversion.Path.{convert_path}
use transfergw.Conversion.Backend.{
  Backend, converted, rejected, service_ref, convert_service, convert_backend,
}
use transfergw.Conversion.Annotations.{Annotated, convert_annotations}
use transfergw.Conversion.Grpc.{
  is_grpc_backend, paths_of, grpc_path, grpc_paths, grpc_rules, finish_grpc, convert_grpc_route,
}
use transfergw.Conversion.Routes.{
  http_path, http_paths, http_rules, finish_http, convert_http_route, convert_ingress,
}

any_error-append : (xs ys : List Issue) → any_error (xs ++ ys) ≡ any_error xs || any_error ys
unfolding any_error
any_error-append [] ys = refl
any_error-append (x ∷ xs) ys = ground (arith, any_error-append xs ys)

no_error-append :
    (xs ys : List Issue)
    → any_error (xs ++ ys) ≡ false
    → (any_error xs ≡ false) × (any_error ys ≡ false)
no_error-append xs ys h = ground (arith, any_error-append xs ys)

pub Backend-cases :
    (b : Backend) → ((ref : BackendRef) × (b ≡ converted ref)) ⊎ ((i : Issue) × (b ≡ rejected i))
Backend-cases (converted ref) = inl (ref, refl)
Backend-cases (rejected i) = inr (i, refl)

-- The Service of a path, once, with the weight 1.
abbrev pub RefersTo : Option IngressServiceBackend → BackendRef → Type 0
RefersTo service ref =
    (svc : IngressServiceBackend) × (service ≡ some svc)
    × (ref.name ≡ svc.name)
    × (ref.weight ≡ some (pos 1))

-- A backend that is not converted is an error.
IsSound : Option IngressServiceBackend → Backend → Type 0
IsSound service (converted ref) = RefersTo service ref
IsSound service (rejected i) = is_error i.severity ≡ true

IsSoundFor : IngressServiceBackend → Backend → Type 0
IsSoundFor svc (converted ref) = (ref.name ≡ svc.name) × (ref.weight ≡ some (pos 1))
IsSoundFor svc (rejected i) = is_error i.severity ≡ true

IsSoundFor-IsSound :
    (svc : IngressServiceBackend) (b : Backend) → IsSoundFor svc b → IsSound (some svc) b
unfolding IsSound IsSoundFor
IsSoundFor-IsSound svc (converted ref) (n, w) = (svc, refl, n, w)
IsSoundFor-IsSound svc (rejected i) h = h

-- The rules of a route stand for the paths, one for one and in order.
abbrev pub EachFor : {A B : Type 0} → (A → B → Type 0) → List A → List B → Type 0
EachFor R [] [] = Unit
EachFor R (x ∷ xs) (y ∷ ys) = R x y × EachFor R xs ys
EachFor R _ _ = ⊥

EachFor-append :
    {A B : Type 0} (R : A → B → Type 0) (xs xs' : List A) (ys ys' : List B)
    → EachFor R xs ys
    → EachFor R xs' ys'
    → EachFor R (xs ++ xs') (ys ++ ys')
EachFor-append R [] xs' [] ys' h h' = h'
EachFor-append R [] xs' (y ∷ ys) ys' h h' = absurd h
EachFor-append R (x ∷ xs) xs' [] ys' h h' = absurd h
EachFor-append R (x ∷ xs) xs' (y ∷ ys) ys' (r, h) h' = (r, EachFor-append R xs xs' ys ys' h h')

abbrev pub all_paths : List IngressRule → List HttpIngressPath
all_paths [] = []
all_paths (r ∷ rs) = paths_of r ++ all_paths rs

-- A rule matches what its path does, and refers to its Service.
abbrev pub HttpRuleFor : Ingress → HttpIngressPath → HttpRouteRule → Type 0
HttpRuleFor ing p r =
    (r.matches ≡ (convert_path ing p).0 ∷ [])
    × ((ref : BackendRef) × (r.backend_refs ≡ ref ∷ []) × RefersTo p.backend.service ref)

abbrev pub GrpcRuleFor : HttpIngressPath → GrpcRouteRule → Type 0
GrpcRuleFor p r = (ref : BackendRef) × (r.backend_refs ≡ ref ∷ []) × RefersTo p.backend.service ref

module _ {S : Type 0} (ing : Ingress) (resolver : Option (PortResolver S)) where
  convert_service-IsSoundFor :
      (svc : IngressServiceBackend) (s : S) → IsSoundFor svc (convert_service ing svc resolver s).0
  unfolding convert_service IsSoundFor is_error issue_of service_ref
  convert_service-IsSoundFor svc s = ground arith

  convert_backend-IsSound :
      (p : HttpIngressPath) (s : S) → IsSound p.backend.service (convert_backend ing p resolver s).0
  unfolding convert_backend IsSound is_error issue_of
  convert_backend-IsSound p s = elim (Option-cases p.backend.service) [
    | inl e ↦ rw (convert_backend, e) refl
    | inr (svc, e) ↦
        rw (convert_backend, e) (IsSoundFor-IsSound svc _ (convert_service-IsSoundFor svc s))
  ]

  module _ (a : Annotated) where
    http_path_complete :
        (p : HttpIngressPath) (s : S)
        → any_error (http_path ing resolver a p s).0.0 ≡ false
        → EachFor (HttpRuleFor ing) (p ∷ []) (http_path ing resolver a p s).0.1
    unfolding http_path any_error IsSound
    http_path_complete p s h = elim (Backend-cases (convert_backend ing p resolver s).0) [
      | inl (ref, e) ↦
          rw (http_path, e) ((refl, (ref, refl, rw e at (convert_backend-IsSound p s))), tt)
      | inr (i, e) ↦
          absurd (ground (arith, rw e at (convert_backend-IsSound p s), rw (http_path, e) at h))
    ]

    http_paths_complete :
        (ps : List HttpIngressPath) (s : S)
        → any_error (http_paths ing resolver a ps s).0.0 ≡ false
        → EachFor (HttpRuleFor ing) ps (http_paths ing resolver a ps s).0.1
    unfolding http_paths
    http_paths_complete [] s h = tt
    http_paths_complete (p ∷ ps) s h =
        let ((is, rs), s') = http_path ing resolver a p s in
        let ((is', rs'), _) = http_paths ing resolver a ps s' in
        let (h₁, h₂) = no_error-append is is' h in
        EachFor-append (HttpRuleFor ing) (p ∷ []) ps rs rs' (http_path_complete p s h₁)
          (http_paths_complete ps s' h₂)

    http_rules_complete :
        (rules : List IngressRule) (s : S)
        → any_error (http_rules ing resolver a rules s).0.0 ≡ false
        → EachFor (HttpRuleFor ing) (all_paths rules) (http_rules ing resolver a rules s).0.1
    unfolding http_rules
    http_rules_complete [] s h = tt
    http_rules_complete (r ∷ rest) s h =
        let ((is, rs), s') = http_paths ing resolver a (paths_of r) s in
        let ((is', rs'), _) = http_rules ing resolver a rest s' in
        let (h₁, h₂) = no_error-append is is' h in
        EachFor-append (HttpRuleFor ing) (paths_of r) (all_paths rest) rs rs'
          (http_paths_complete (paths_of r) s h₁) (http_rules_complete rest s' h₂)

  grpc_path_complete :
      (p : HttpIngressPath) (s : S)
      → any_error (grpc_path ing resolver p s).0.0 ≡ false
      → EachFor GrpcRuleFor (p ∷ []) (grpc_path ing resolver p s).0.1
  unfolding grpc_path any_error IsSound
  grpc_path_complete p s h = elim (Backend-cases (convert_backend ing p resolver s).0) [
    | inl (ref, e) ↦ rw (grpc_path, e) ((ref, refl, rw e at (convert_backend-IsSound p s)), tt)
    | inr (i, e) ↦
        absurd (ground (arith, rw e at (convert_backend-IsSound p s), rw (grpc_path, e) at h))
  ]

  grpc_paths_complete :
      (ps : List HttpIngressPath) (s : S)
      → any_error (grpc_paths ing resolver ps s).0.0 ≡ false
      → EachFor GrpcRuleFor ps (grpc_paths ing resolver ps s).0.1
  unfolding grpc_paths
  grpc_paths_complete [] s h = tt
  grpc_paths_complete (p ∷ ps) s h =
      let ((is, rs), s') = grpc_path ing resolver p s in
      let ((is', rs'), _) = grpc_paths ing resolver ps s' in
      let (h₁, h₂) = no_error-append is is' h in
      EachFor-append GrpcRuleFor (p ∷ []) ps rs rs' (grpc_path_complete p s h₁)
        (grpc_paths_complete ps s' h₂)

  grpc_rules_complete :
      (rules : List IngressRule) (s : S)
      → any_error (grpc_rules ing resolver rules s).0.0 ≡ false
      → EachFor GrpcRuleFor (all_paths rules) (grpc_rules ing resolver rules s).0.1
  unfolding grpc_rules
  grpc_rules_complete [] s h = tt
  grpc_rules_complete (r ∷ rest) s h =
      let ((is, rs), s') = grpc_paths ing resolver (paths_of r) s in
      let ((is', rs'), _) = grpc_rules ing resolver rest s' in
      let (h₁, h₂) = no_error-append is is' h in
      EachFor-append GrpcRuleFor (paths_of r) (all_paths rest) rs rs'
        (grpc_paths_complete (paths_of r) s h₁) (grpc_rules_complete rest s' h₂)

-- What a conversion yields: one HTTPRoute, one GRPCRoute, or a failure and no route.
abbrev pub IsHttp : Ingress → ConversionResult → HttpRoute → Type 0
IsHttp ing r route =
    (r.route ≡ some route)
    × (r.grpc_route ≡ none)
    × (route.namespace ≡ ing.namespace)
    × (route.name ≡ ing.name)
    × (has_failed r ≡ false → EachFor (HttpRuleFor ing) (all_paths ing.rules) route.spec.rules)

abbrev pub IsGrpc : Ingress → ConversionResult → GrpcRoute → Type 0
IsGrpc ing r route =
    (r.route ≡ none)
    × (r.grpc_route ≡ some route)
    × (route.namespace ≡ ing.namespace)
    × (route.name ≡ ing.name)
    × (has_failed r ≡ false → EachFor GrpcRuleFor (all_paths ing.rules) route.spec.rules)

abbrev pub IsFailure : ConversionResult → Type 0
IsFailure r = (r.route ≡ none) × (r.grpc_route ≡ none) × (has_failed r ≡ true)

abbrev pub HasRoute : Bool → Ingress → ConversionResult → Type 0
HasRoute false ing r = (route : HttpRoute) × IsHttp ing r route
HasRoute true ing r = (route : GrpcRoute) × IsGrpc ing r route

error_appended :
    (ing : Ingress) (xs : List Issue) (text advice : String)
    → any_error (xs ++ (issue_of ing error text advice ∷ [])) ≡ true
unfolding any_error is_error issue_of
error_appended ing xs text advice =
    ground (arith, any_error-append xs (issue_of ing error text advice ∷ []))

module _ {S : Type 0} (ing : Ingress) (opts : Options S) where
  finish_http-HasRoute :
      (before is after : List Issue) (rs : List HttpRouteRule)
      → (any_error is ≡ false → EachFor (HttpRuleFor ing) (all_paths ing.rules) rs)
      → let r = finish_http ing opts (before ++ (is ++ after)) rs in
        IsFailure r ⊎ HasRoute false ing r
  unfolding finish_http has_failed
  finish_http-HasRoute before is after [] h = inl (refl, refl, search error_appended)
  finish_http-HasRoute before is after (r ∷ rs) h = inr (
    _,
    (
      refl,
      refl,
      refl,
      refl,
      λ k.
          let (k₁, _) = no_error-append (before ++ (is ++ after)) _ k in
          let (_, k₂) = no_error-append before (is ++ after) k₁ in
          h (no_error-append is after k₂).0,
    ),
  )

  finish_grpc-HasRoute :
      (is after : List Issue) (rs : List GrpcRouteRule)
      → (any_error is ≡ false → EachFor GrpcRuleFor (all_paths ing.rules) rs)
      → let r = finish_grpc ing opts (is ++ after) rs in IsFailure r ⊎ HasRoute true ing r
  unfolding finish_grpc has_failed
  finish_grpc-HasRoute is after [] h = inl (refl, refl, search error_appended)
  finish_grpc-HasRoute is after (r ∷ rs) h =
      inr (_, (refl, refl, refl, refl, λ k. h (no_error-append is after k).0))

-- A conversion yields exactly one route, named as the Ingress, an HTTPRoute or, for a gRPC
-- backend, a GRPCRoute, or it has failed and yields none. If it has not failed, the route's rules
-- stand for all the paths of the Ingress, one for one and in order: each refers to its path's
-- Service alone, with weight 1, and that of an HTTPRoute has its path's match alone.
pub convert_ingress-HasRoute :
    {S : Type 0}
    → (translators : Dict Translator) (parse_url : String → Option Url) (ing : Ingress)
      (opts : Options S) (s : S)
    → let r = (convert_ingress translators parse_url ing opts s).0 in
      IsFailure r ⊎ HasRoute (is_grpc_backend ing) ing r
unfolding convert_ingress convert_http_route convert_grpc_route
convert_ingress-HasRoute translators parse_url ing opts s =
    elim (Bool-cases (is_grpc_backend ing)) [
      | inl g ↦
          rw (convert_ingress, g)
            (finish_grpc-HasRoute ing opts _ _ _
              (grpc_rules_complete ing opts.port_resolver ing.rules s))
      | inr g ↦
          rw (convert_ingress, g)
            (finish_http-HasRoute ing opts _ _ _ _ (
              http_rules_complete ing opts.port_resolver
                (convert_annotations translators parse_url ing opts.annotation_policy) ing.rules s))
    ]
