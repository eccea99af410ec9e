-- ===== src/Examples/Annotations.antt =====
-- The theorems on annotations and on writing objects again, applied.
use transfergw.Base.{
  inr, Any, IsIn, ℕ, ◌*◌, ◌≡◌, refl, Option, String, true, false, none, some, [], ◌∷◌, ◌↔◌, inl,
  contains, string_eq, ◌==◌, All, if◌then◌else◌, arith,
}
use transfergw.Base.Int.{pos}
use transfergw.Base.Text.{atoi, trim_space}
use transfergw.Kube.{Ingress}
use transfergw.Base.Dict.{Dict, lookup, text_at, keys}
use transfergw.Gateway.{HttpRoute, HttpRouteRule, HttpRouteFilter, request_redirect, BackendRef}
use transfergw.Env.{Managed, ok}
use transfergw.Translator.{backend_request_timeout, ssl_redirect, Url, translate}
use transfergw.Conversion.Annotations.Filters.{IsTranslated}
use transfergw.Conversion.Effects.Filters.{convert_ingress-IsTranslated}
use transfergw.Registry.{new_engine}
use transfergw.Conversion.{ConversionResult, dropped}
use transfergw.Conversion.Effects.Validity.{IsPath, IsWellFormed, convert_ingress-IsWellFormed}
use transfergw.Conversion.Grpc.{paths_of, is_grpc_backend}
use transfergw.Conversion.Routes.{convert_ingress}
use transfergw.Conversion.Annotations.Reports.{IsAbout, is_inexpressible}
use transfergw.Conversion.Annotations.Timeouts.{backend, field_in, AtLeast, IsSeconds}
use transfergw.Conversion.Effects.{
  annotated, convert_ingress-IsAbout, convert_ingress-AtLeast, convert_ingress-annotated,
}
use transfergw.Controller.Apply.{managed_by_label, source_ingress_label, mutate_route}
use transfergw.Controller.Settling.{mutate_route-settled}
use transfergw.Examples.World.{world, migration, ingress, options}

abbrev auth_url : String
auth_url = "nginx.ingress.kubernetes.io/auth-url"

abbrev read_timeout : String
read_timeout = "nginx.ingress.kubernetes.io/proxy-read-timeout"

abbrev given : Ingress
given = ingress "web" ((auth_url, "https://auth") ∷ (read_timeout, " 120 ") ∷ [])

abbrev no_url : String → Option Url
no_url s = none

abbrev converted : ConversionResult
converted = (convert_ingress new_engine no_url given options 0).0

auth_there : contains (keys given.annotations) auth_url ≡ true
unfolding keys string_eq
auth_there = refl

timeout_there : contains (keys given.annotations) read_timeout ≡ true
unfolding keys string_eq
timeout_there = refl

wanted : (k : String) → dropped options.annotation_policy k ≡ false
unfolding dropped
wanted k = refl

plain : is_grpc_backend given ≡ false
unfolding is_grpc_backend string_eq
plain = refl

auth_inexpressible : is_inexpressible (lookup auth_url new_engine) auth_url ≡ true
unfolding lookup new_engine string_eq
auth_inexpressible = refl

convert_ingress-IsAbout_example : Any (IsAbout given auth_url) converted.issues
convert_ingress-IsAbout_example =
    convert_ingress-IsAbout new_engine no_url given options 0 auth_url auth_there (wanted auth_url)
      plain auth_inexpressible

timeout_registered : lookup read_timeout new_engine ≡ some backend_request_timeout
unfolding lookup new_engine string_eq
timeout_registered = refl

two_minutes : IsSeconds (text_at read_timeout given.annotations) 120
unfolding text_at lookup atoi trim_space string_eq
two_minutes = (refl, omega arith)

abbrev route_of : ConversionResult → HttpRoute
route_of r = elim r.route [
  | none ↦ record {
    namespace = "";
    name = "";
    spec = record { parent_refs = []; hostnames = []; rules = [] };
  }
  | some route ↦ route
]

converted_route : converted.route ≡ some (route_of converted)
unfolding convert_ingress is_grpc_backend string_eq transfergw.Conversion.Backend.convert_backend
    transfergw.Conversion.Backend.convert_service
converted_route = refl

convert_ingress-AtLeast_example :
    All
      (λ (r : HttpRouteRule). AtLeast (pos (120 * 1000000000)) (field_in backend r.timeouts))
      (route_of converted).spec.rules
convert_ingress-AtLeast_example =
    convert_ingress-AtLeast new_engine no_url given options 0 read_timeout timeout_there
      (wanted read_timeout) backend 120 (route_of converted) plain timeout_registered two_minutes
      converted_route

absolute : All (λ r. All IsPath (paths_of r)) given.rules
absolute = ((inr ("api", refl), tt), tt)

convert_ingress-IsWellFormed_example : IsWellFormed given (route_of converted)
convert_ingress-IsWellFormed_example =
    convert_ingress-IsWellFormed new_engine no_url given options 0 (route_of converted) plain
      absolute converted_route

abbrev grpc_key : String
grpc_key = "appgw.ingress.kubernetes.io/backend-protocol"

abbrev over_grpc : Ingress
over_grpc = ingress "rpc" ((grpc_key, "GRPC") ∷ [])

-- The same with an annotation that asks for authentication.
abbrev guarded : Dict String
guarded = (grpc_key, "GRPC") ∷ (auth_url, "https://auth") ∷ []

is_grpc : is_grpc_backend over_grpc ≡ true
unfolding is_grpc_backend string_eq
is_grpc = refl

is_grpc_guarded : is_grpc_backend (annotated over_grpc guarded) ≡ true
unfolding is_grpc_backend string_eq
is_grpc_guarded = refl

convert_ingress-annotated_example :
    convert_ingress new_engine no_url (annotated over_grpc guarded) options 0
    ≡ convert_ingress new_engine no_url over_grpc options 0
convert_ingress-annotated_example =
    convert_ingress-annotated over_grpc guarded new_engine no_url options 0 is_grpc is_grpc_guarded

-- An object with a label of somebody else, and what the mutate function makes of it.
abbrev found : Managed ℕ
found = record { labels = ("team", "a") ∷ []; controller = none; spec = 1 }

abbrev left : Managed ℕ
left = record {
  labels = ("team", "a") ∷ (managed_by_label, "web") ∷ (source_ingress_label, "api") ∷ [];
  controller = some "web";
  spec = 2;
}

written : mutate_route world (migration "canary" false) "shop" "api" 2 found ≡ ok left
unfolding mutate_route string_eq
written = refl

mutate_route-settled_example :
    (mutate_route world (migration "canary" false) "shop" "api" 2 left ≡ ok left)
    × (left.spec ≡ 2)
    × ((label : String)
        → lookup label left.labels ≡ (
            if source_ingress_label == label
            then some "api"
            else if managed_by_label == label
            then some "web"
            else lookup label found.labels))
mutate_route-settled_example =
    mutate_route-settled world (λ m c c' h. h) (migration "canary" false) "shop" "api" 2 found left
      written

abbrev ssl_redirect_key : String
ssl_redirect_key = "nginx.ingress.kubernetes.io/ssl-redirect"

abbrev redirected : Ingress
redirected = ingress "web" ((ssl_redirect_key, "true") ∷ [])

abbrev to_https : HttpRouteFilter
to_https =
    request_redirect
      (record { scheme = some "https"; hostname = none; path = none; status_code = none })

-- The Ingress of a redirect to HTTPS, as it is converted.
abbrev redirecting : ConversionResult
redirecting = (convert_ingress new_engine no_url redirected options 0).0

redirected_plain : is_grpc_backend redirected ≡ false
unfolding is_grpc_backend string_eq
redirected_plain = refl

redirecting_route : redirecting.route ≡ some (route_of redirecting)
unfolding convert_ingress is_grpc_backend string_eq transfergw.Conversion.Backend.convert_backend
    transfergw.Conversion.Backend.convert_service
redirecting_route = refl

convert_ingress-IsTranslated_example :
    All
      (λ (r : HttpRouteRule).
        (IsIn to_https r.filters
          ↔ IsTranslated new_engine no_url redirected options.annotation_policy to_https)
        × ((ref : BackendRef) × (r.backend_refs ≡ ref ∷ [])))
      (route_of redirecting).spec.rules
convert_ingress-IsTranslated_example =
    convert_ingress-IsTranslated new_engine no_url redirected options 0 to_https
      (route_of redirecting) redirected_plain redirecting_route

-- The redirect is the translation of the annotation.
to_https-IsTranslated : IsTranslated new_engine no_url redirected options.annotation_policy to_https
unfolding lookup new_engine string_eq keys dropped text_at translate
to_https-IsTranslated = (ssl_redirect_key, refl, refl, (ssl_redirect, refl, inl refl))
