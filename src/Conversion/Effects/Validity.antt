-- ===== src/Conversion/Effects/Validity.antt =====
-- What the Gateway API asks of the paths and the hostnames of an HTTPRoute.
use transfergw.Base.{
  ◌≡◌, refl, ◌∙◌, ◌⊎◌, inl, inr, String, ◌<>◌, false, not, ◌&&◌, Option, some, List, [], ◌∷◌, map,
  contains, ◌==◌, string_eq, Bool-cases, arith, All,
}
use transfergw.Base.Dict.{Dict}
use transfergw.Base.Sort.{sort_texts}
use transfergw.Base.Sort.Contents.{AreDistinct, AreDistinct-sort_by, contains-sort_by}
use transfergw.Kube.{
  Ingress, IngressRule, HttpIngressPath, PathType, exact, prefix, implementation_specific, unknown,
}
use transfergw.Gateway.{HttpRoute, HttpRouteRule, PathMatchType, HttpRouteMatch}
use transfergw.Translator.{Translator, Issue, Url}
use transfergw.Conversion.{Options, PortResolver, sorted_keys}
use transfergw.Conversion.Approximation.{regex_prefix_text}
use transfergw.Conversion.Path.{
  match_of, looks_like_regex, path_value, path_type_of, convert_path_as, convert_path,
}
use transfergw.Conversion.Backend.{convert_backend}
use transfergw.Conversion.Completeness.{Backend-cases}
use transfergw.Conversion.Annotations.{Annotated, convert_annotations}
use transfergw.Conversion.Effects.Rules.{convert_ingress-made}
use transfergw.Conversion.Grpc.{is_grpc_backend, paths_of, hosts_of, hostnames}
use transfergw.Conversion.Routes.{http_path, finish_http, convert_http_route, convert_ingress}

abbrev pub IsAbsolute : String → Type 0
IsAbsolute s = (t : String) × (s ≡ "/" <> t)

-- A path as the API server takes it: empty, or one that begins with a slash.
abbrev pub IsPath : HttpIngressPath → Type 0
IsPath p = (p.path ≡ "") ⊎ IsAbsolute p.path

-- A match of a path that begins with a slash.
abbrev pub MatchesAbsolute : HttpRouteMatch → Type 0
MatchesAbsolute m =
    (t : PathMatchType) × (value : String) × (m ≡ match_of t value) × IsAbsolute value

path_value-IsAbsolute : (p : HttpIngressPath) → IsPath p → IsAbsolute (path_value p)
unfolding path_value string_eq
path_value-IsAbsolute p (inl e) = ("", rw e refl)
path_value-IsAbsolute p (inr (t, e)) = elim (Bool-cases (p.path == "")) [
  | inl q ↦ ("", rw q refl)
  | inr q ↦ (t, rw q e)
]

convert_path_as-MatchesAbsolute :
    (ing : Ingress) (value : String) (type : PathType)
    → IsAbsolute value
    → MatchesAbsolute (convert_path_as ing value type).0
unfolding convert_path_as
convert_path_as-MatchesAbsolute ing value exact h = (PathMatchType.exact, value, refl, h)
convert_path_as-MatchesAbsolute ing value prefix h = (PathMatchType.path_prefix, value, refl, h)
convert_path_as-MatchesAbsolute ing value (unknown t) h =
    (PathMatchType.path_prefix, value, refl, h)
convert_path_as-MatchesAbsolute ing value implementation_specific h =
    elim (Bool-cases (looks_like_regex value)) [
      | inl e ↦
          rw (convert_path_as, e) (PathMatchType.path_prefix, _, refl, (_, regex_prefix_text value))
      | inr e ↦ rw (convert_path_as, e) (PathMatchType.path_prefix, value, refl, h)
    ]

-- A rule whose only match is that of a path that begins with a slash.
abbrev pub HasAbsolutePath : HttpRouteRule → Type 0
HasAbsolutePath r = (m : HttpRouteMatch) × (r.matches ≡ m ∷ []) × MatchesAbsolute m

http_path-HasAbsolutePath :
    {S : Type 0} (ing : Ingress) (resolver : Option (PortResolver S)) (a : Annotated)
    (p : HttpIngressPath) (s : S)
    → IsPath p
    → All HasAbsolutePath (http_path ing resolver a p s).0.1
unfolding http_path convert_path
http_path-HasAbsolutePath ing resolver a p s h =
    elim (Backend-cases (convert_backend ing p resolver s).0) [
      | inr (i, e) ↦ rw (http_path, e) tt
      | inl (ref, e) ↦
          let m =
            convert_path_as-MatchesAbsolute ing (path_value p) (path_type_of p.path_type)
              (path_value-IsAbsolute p h) in
          rw (http_path, e) ((_, refl, m), tt)
    ]

-- The host of a rule.
abbrev pub host_of : IngressRule → String
host_of r = r.host

contains-hosts_of :
    (rules : List IngressRule) (h : String)
    → contains (hosts_of rules) h ≡ (not (h == "") && contains (map host_of rules) h)
unfolding hosts_of
contains-hosts_of [] h = ground arith
contains-hosts_of (r ∷ rs) h = ground (arith, contains-hosts_of rs h)

hosts_of-AreDistinct : (rules : List IngressRule) → AreDistinct (hosts_of rules)
unfolding hosts_of
hosts_of-AreDistinct [] = tt
hosts_of-AreDistinct (r ∷ rs) = elim (Bool-cases (r.host == "")) [
  | inl e ↦ rw e (hosts_of-AreDistinct rs)
  | inr e ↦ elim (Bool-cases (contains (hosts_of rs) r.host)) [
    | inl c ↦ rw (e, c) (hosts_of-AreDistinct rs)
    | inr c ↦ rw (e, c) (c, hosts_of-AreDistinct rs)
  ]
]

-- The hostnames of an HTTPRoute are those of the rules of its Ingress.
finish_http-hostnames :
    {S : Type 0} (ing : Ingress) (opts : Options S) (issues : List Issue)
    (rules : List HttpRouteRule) (route : HttpRoute)
    → (finish_http ing opts issues rules).route ≡ some route
    → route.spec.hostnames ≡ hostnames ing.rules
unfolding finish_http
finish_http-hostnames ing opts issues [] route e = cc e
finish_http-hostnames ing opts issues (r ∷ rs) route e = ground (arith, e)

-- Hostnames that are named once each, and are those of the rules that name one.
abbrev pub AreHostsOf : List IngressRule → List String → Type 0
AreHostsOf rules names =
    AreDistinct names
    × ((h : String) → contains names h ≡ (not (h == "") && contains (map host_of rules) h))

hostnames-AreHostsOf : (rules : List IngressRule) → AreHostsOf rules (hostnames rules)
unfolding hostnames sorted_keys sort_texts
hostnames-AreHostsOf rules = (
  AreDistinct-sort_by _ (hosts_of rules) (hosts_of-AreDistinct rules),
  (λ h. contains-sort_by _ h (hosts_of rules) ∙ contains-hosts_of rules h),
)

-- Of an HTTPRoute for an Ingress: every rule has one match, of a path that begins with a slash, and
-- the hostnames are the hosts of the Ingress, each once.
abbrev pub IsWellFormed : Ingress → HttpRoute → Type 0
IsWellFormed ing route =
    All HasAbsolutePath route.spec.rules × AreHostsOf ing.rules route.spec.hostnames

module _ {S : Type 0} (translators : Dict Translator) (parse_url : String → Option Url)
    (ing : Ingress) (opts : Options S) (s : S) where
  -- The HTTPRoute of an Ingress without a gRPC backend, whose paths are empty or begin with a
  -- slash, has in every rule one match, of a path that begins with a slash; its hostnames are the
  -- hosts of the rules of the Ingress that name one, each once.
  pub convert_ingress-IsWellFormed :
      (route : HttpRoute)
      → is_grpc_backend ing ≡ false
      → All (λ r. All IsPath (paths_of r)) ing.rules
      → (convert_ingress translators parse_url ing opts s).0.route ≡ some route
      → IsWellFormed ing route
  unfolding convert_ingress convert_http_route
  convert_ingress-IsWellFormed route http h e = (
    convert_ingress-made translators parse_url ing opts s route http e IsPath HasAbsolutePath
        (http_path-HasAbsolutePath ing opts.port_resolver
          (convert_annotations translators parse_url ing opts.annotation_policy))
        h,
    (let same = finish_http-hostnames ing opts _ _ route (rw (convert_ingress, http) at e) in
        rw same (hostnames-AreHostsOf ing.rules)),
  )
