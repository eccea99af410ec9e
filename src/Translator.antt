-- ===== src/Translator.antt =====
-- The annotation translators: package internal/conversion/translator, and the translator types of
-- the packages internal/conversion/annotation/nginx, appgw and certmanager. The interface is a
-- closed data type here, with one constructor for each implementation.
use transfergw.Base.{
  String, ◌<>◌, true, ◌||◌, not, Option, none, some, List, [], ◌∷◌, map, ◌==◌, string_eq,
  if◌then◌else◌,
}
use transfergw.Base.Int.{ℤ, pos, ltb_ℤ, i32}
use transfergw.Base.Text.{contains_any, split, trim_space, decimal_ℤ, quote, atoi, codes}
use transfergw.Base.Dict.{Dict, lookup, text_at}
use transfergw.Gateway.{
  HttpRouteFilter, request_redirect, url_rewrite, request_header_modifier, cors, full_path,
  prefix_match, cookie_based, SessionPersistence, HttpRouteTimeouts,
}
use transfergw.Api.{Severity, info, warning}

-- translator.Issue. The engine fills in the Ingress.
pub record Issue : Type 0 where
  pub ingress : String
  pub message : String
  pub severity : Severity
  pub recommendation : String

pub record RuleEffect : Type 0 where
  pub session_persistence : Option SessionPersistence
  pub timeouts : Option HttpRouteTimeouts

pub data Translator : Type 0 where
  noop cookie_session_persistence backend_request_timeout request_timeout ssl_redirect : Translator
  unsupported : String → Translator
  rewrite : Translator
  redirect : ℤ → Translator
  app_root x_forwarded_prefix rate_limit auth session_cookie_name cors_translator : Translator
  cert_manager : Translator
  backend_path_prefix : Translator

-- What the redirect translator reads of net/url's URL.
pub record Url : Type 0 where
  pub scheme : String
  pub host : String
  pub hostname : String
  pub path : String

abbrev pub nginx_prefix : String
nginx_prefix = "nginx.ingress.kubernetes.io/"

abbrev pub Translation : Type 0
Translation = List HttpRouteFilter × Option Issue

abbrev pub Effect : Type 0
Effect = Option RuleEffect × Option Issue

issue : Severity → String → String → Option Issue
issue severity message recommendation = some (record {
  ingress = "";
  message = message;
  severity = severity;
  recommendation = recommendation;
})

-- The value of ParseSecondsDuration, or its issue.
unfoldable pub parse_seconds_duration : String → String → Option String × Option Issue
unfolding issue
parse_seconds_duration key value =
    let bad : Option String × Option Issue = (
      none,
      issue warning
          (key <> (" value " <> (quote value <> " is not a non-negative whole number of seconds")))
          "Set this annotation to a whole number of seconds, e.g. \"30\".",
    ) in
    elim (atoi (trim_space value)) [
      | none ↦ bad
      | some n ↦ if ltb_ℤ n (pos 0) then bad else (some (decimal_ℤ n <> "s"), none)
    ]

no_equivalent : String → String → String
no_equivalent key value = key <> ("=" <> (value <> " has no core Gateway API equivalent"))

abbrev redirect_to : Option String → Option String → Option String → Option ℤ → HttpRouteFilter
redirect_to scheme hostname path code = request_redirect (record {
  scheme = scheme;
  hostname = hostname;
  path = elim path [ none ↦ none | some p ↦ some (full_path p) ];
  status_code = code;
})

-- ptr.To(s), unless s is empty
abbrev nonempty : String → Option String
nonempty s = if s == "" then none else some s

-- The parts of a comma-separated list; an empty text gives none.
comma_list : String → List String
comma_list v = if v == "" then [] else map trim_space (split b',' v)

-- CORSTranslator.TranslateWithContext
translate_cors : String → Dict String → Translation
unfolding text_at lookup comma_list trim_space split atoi i32
translate_cors value all =
    let at = λ (k : String). text_at (nginx_prefix <> k) all in
    let origins = at "cors-allow-origin" in
    if not (value == "true") then ([], none) else (
      cors (record {
        allow_origins = if origins == "" then "*" ∷ [] else comma_list origins;
        allow_credentials = some (elim (lookup (nginx_prefix <> "cors-allow-credentials") all) [
          | none ↦ true
          | some v ↦ v == "true"
        ]);
        allow_methods = comma_list (at "cors-allow-methods");
        allow_headers = comma_list (at "cors-allow-headers");
        expose_headers = comma_list (at "cors-expose-headers");
        max_age = elim (atoi (trim_space (at "cors-max-age"))) [
          | none ↦ pos 0
          | some n ↦ if ltb_ℤ (pos 0) n then i32 n else pos 0
        ];
      })
          ∷ [],
      none,
    )

-- RewriteTranslator.Translate
translate_rewrite : String → Translation
unfolding contains_any issue quote
translate_rewrite value =
    if value == ""
    then ([], none)
    else if contains_any value (codes "$()")
    then (
      [],
      issue warning
          ("rewrite-target "
            <> (quote value <> " uses capture groups, which URLRewrite cannot express"))
          "Replace the capture-group rewrite with a static prefix rewrite.",
    )
    else (url_rewrite (prefix_match value) ∷ [], none)

-- RedirectTranslator.Translate
translate_redirect : (String → Option Url) → ℤ → String → String → Translation
unfolding issue quote
translate_redirect parse_url code key value =
    if value == "" then ([], none) else elim (parse_url value) [
      | none ↦ (
        [],
        issue warning (key <> (" value " <> (quote value <> " is not a valid URL")))
            "Set this annotation to a full URL, e.g. https://example.com/new-path.",
      )
      | some target ↦ (
        redirect_to (nonempty target.scheme)
              (if target.host == "" then none else some target.hostname) (nonempty target.path)
              (some code)
            ∷ [],
        none,
      )
    ]

-- AppRootTranslator.Translate
translate_app_root : String → Translation
unfolding issue
translate_app_root value = if value == "" then ([], none) else (
  redirect_to none none (some value) (some (pos 302)) ∷ [],
  issue info
      ("app-root="
        <> (value <> " was approximated as a redirect on every path in this rule, not just \"/\""))
      "Split the root path into its own HTTPRoute rule if this is too broad.",
)

-- XForwardedPrefixTranslator.Translate
translate_x_forwarded_prefix : String → Translation
translate_x_forwarded_prefix value = if value == "" then ([], none) else (
  request_header_modifier (record { name = "X-Forwarded-Prefix"; value = value } ∷ []) ∷ [],
  none,
)

-- Translate, or TranslateWithContext where a translator has it: what the engine calls.
unfoldable pub translate :
    (String → Option Url) → Translator → String → String → Dict String → Translation
unfolding issue no_equivalent translate_cors translate_rewrite translate_redirect translate_app_root
    translate_x_forwarded_prefix
translate parse_url (unsupported advice) key value all =
    ([], issue warning (no_equivalent key value) advice)
translate parse_url ssl_redirect key value all =
    if value == "true" then (redirect_to (some "https") none none none ∷ [], none) else ([], none)
translate parse_url rewrite key value all = translate_rewrite value
translate parse_url (redirect code) key value all = translate_redirect parse_url code key value
translate parse_url app_root key value all = translate_app_root value
translate parse_url x_forwarded_prefix key value all = translate_x_forwarded_prefix value
translate parse_url rate_limit key value all = (
  [],
  issue warning (no_equivalent key value)
      "Express rate limiting with your implementation's policy CRD.",
)
translate parse_url auth key value all = (
  [],
  issue warning (no_equivalent key value)
      "Express authentication with your implementation's policy CRD.",
)
translate parse_url cors_translator key value all = translate_cors value all
translate parse_url cert_manager key value all = (
  [],
  issue info (key <> ("=" <> (value <> " applies to the Gateway listener, not the HTTPRoute")))
      "Move this annotation onto the Gateway resource.",
)
translate parse_url backend_path_prefix key value all =
    if value == "" then ([], none) else (url_rewrite (prefix_match value) ∷ [], none)
translate parse_url _ key value all = ([], none)

abbrev cookie : Option String → Option RuleEffect
cookie name = some (record {
  session_persistence = some (record { type = some cookie_based; session_name = name });
  timeouts = none;
})

-- A timeout annotation, placed by `place`.
unfoldable pub timeout_effect : (String → HttpRouteTimeouts) → String → String → Effect
unfolding parse_seconds_duration
timeout_effect place key value =
    let (duration, i) = parse_seconds_duration key value in
    elim duration [
      | none ↦ (none, i)
      | some d ↦ (some (record { session_persistence = none; timeouts = some (place d) }), none)
    ]

-- Effect, or EffectWithContext where a translator has it; `none` for a translator with neither.
unfoldable pub effect : Translator → String → String → Dict String → Option Effect
unfolding timeout_effect text_at lookup
effect cookie_session_persistence key value all =
    some (if value == "true" || value == "cookie" then cookie none else none, none)
effect backend_request_timeout key value all =
    some (timeout_effect (λ d. record { request = none; backend_request = some d }) key value)
effect request_timeout key value all =
    some (timeout_effect (λ d. record { request = some d; backend_request = none }) key value)
effect session_cookie_name key value all = some (
  if value == "" || not (text_at (nginx_prefix <> "affinity") all == "cookie")
      then none
      else cookie (some value),
  none,
)
effect _ key value all = none
