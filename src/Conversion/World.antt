-- ===== src/Conversion/World.antt =====
-- What a conversion does to the world: it asks the resolver of ports, and nothing else.
use transfergw.Base.{
  String, Bool, true, Option, Option-cases, Bool-cases, inl, inr, some, ◌≡◌, List, [], ◌∷◌, arith,
  string_eq,
}
use transfergw.Kube.{Ingress, IngressRule, HttpIngressPath, IngressServiceBackend}
use transfergw.Translator.{Translator, Url}
use transfergw.Base.Dict.{Dict}
use transfergw.Conversion.{Options, PortResolver}
use transfergw.Conversion.Backend.{convert_service, convert_backend}
use transfergw.Conversion.Annotations.{Annotated, convert_annotations}
use transfergw.Conversion.Grpc.{
  paths_of, grpc_path, grpc_paths, grpc_rules, convert_grpc_route, is_grpc_backend,
}
use transfergw.Conversion.Routes.{
  http_path, http_paths, http_rules, convert_http_route, convert_ingress,
}

-- Whatever the resolver keeps true of the world, a conversion keeps true.
module _ {S : Type 0} (Q : S → Bool) (resolve : PortResolver S)
    (keeps : (namespace name port : String) (s : S)
      → Q s ≡ true
      → Q (resolve namespace name port s).1 ≡ true) where
  convert_service-keeps :
      (ing : Ingress) (svc : IngressServiceBackend) (s : S)
      → Q s ≡ true
      → Q (convert_service ing svc (some resolve) s).1 ≡ true
  unfolding convert_service
  convert_service-keeps ing svc s h = ground (arith, keeps ing.namespace svc.name svc.port.name s h)

  convert_backend-keeps :
      (ing : Ingress) (p : HttpIngressPath) (s : S)
      → Q s ≡ true
      → Q (convert_backend ing p (some resolve) s).1 ≡ true
  unfolding convert_backend
  convert_backend-keeps ing p s h = elim (Option-cases p.backend.service) [
    | inl e ↦ rw (convert_backend, e) h
    | inr (svc, e) ↦ rw (convert_backend, e) (convert_service-keeps ing svc s h)
  ]

  module _ (ing : Ingress) (a : Annotated) where
    http_path-keeps :
        (p : HttpIngressPath) (s : S) → Q s ≡ true → Q (http_path ing (some resolve) a p s).1 ≡ true
    unfolding http_path
    http_path-keeps p s h = ground (arith, convert_backend-keeps ing p s h)

    http_paths-keeps :
        (ps : List HttpIngressPath) (s : S)
        → Q s ≡ true
        → Q (http_paths ing (some resolve) a ps s).1 ≡ true
    unfolding http_paths
    http_paths-keeps [] s h = h
    http_paths-keeps (p ∷ ps) s h = http_paths-keeps ps _ (http_path-keeps p s h)

    http_rules-keeps :
        (rules : List IngressRule) (s : S)
        → Q s ≡ true
        → Q (http_rules ing (some resolve) a rules s).1 ≡ true
    unfolding http_rules
    http_rules-keeps [] s h = h
    http_rules-keeps (r ∷ rest) s h = http_rules-keeps rest _ (http_paths-keeps (paths_of r) s h)

  module _ (ing : Ingress) where
    grpc_path-keeps :
        (p : HttpIngressPath) (s : S) → Q s ≡ true → Q (grpc_path ing (some resolve) p s).1 ≡ true
    unfolding grpc_path
    grpc_path-keeps p s h = ground (arith, convert_backend-keeps ing p s h)

    grpc_paths-keeps :
        (ps : List HttpIngressPath) (s : S)
        → Q s ≡ true
        → Q (grpc_paths ing (some resolve) ps s).1 ≡ true
    unfolding grpc_paths
    grpc_paths-keeps [] s h = h
    grpc_paths-keeps (p ∷ ps) s h = grpc_paths-keeps ps _ (grpc_path-keeps p s h)

    grpc_rules-keeps :
        (rules : List IngressRule) (s : S)
        → Q s ≡ true
        → Q (grpc_rules ing (some resolve) rules s).1 ≡ true
    unfolding grpc_rules
    grpc_rules-keeps [] s h = h
    grpc_rules-keeps (r ∷ rest) s h = grpc_rules-keeps rest _ (grpc_paths-keeps (paths_of r) s h)

  pub convert_ingress-keeps :
      (translators : Dict Translator) (parse_url : String → Option Url) (ing : Ingress)
      (opts : Options S) (s : S)
      → opts.port_resolver ≡ some resolve
      → Q s ≡ true
      → Q (convert_ingress translators parse_url ing opts s).1 ≡ true
  unfolding convert_ingress convert_http_route convert_grpc_route
  convert_ingress-keeps translators parse_url ing opts s q h =
      let a = convert_annotations translators parse_url ing opts.annotation_policy in
      elim (Bool-cases (is_grpc_backend ing)) [
        | inl g ↦
            rw (convert_ingress, convert_grpc_route, g, q) (grpc_rules-keeps ing ing.rules s h)
        | inr g ↦
            rw (convert_ingress, convert_http_route, g, q) (http_rules-keeps ing a ing.rules s h)
      ]
