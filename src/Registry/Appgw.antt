-- ===== src/Registry/Appgw.antt =====
-- The registered annotations of AGIC, internal/conversion/annotation/appgw/appgw.go.
use transfergw.Base.{String, ◌<>◌, [], ◌∷◌}
use transfergw.Base.Dict.{Dict}
use transfergw.Translator.{
  Translator, backend_path_prefix, cookie_session_persistence, request_timeout, ssl_redirect,
  unsupported,
}

abbrev pub appgw_prefix : String
appgw_prefix = "appgw.ingress.kubernetes.io/"

unfoldable pub translators : Dict Translator
translators =
    (appgw_prefix <> "ssl-redirect", ssl_redirect)
    ∷ (appgw_prefix <> "backend-path-prefix", backend_path_prefix)
    ∷ (appgw_prefix <> "cookie-based-affinity", cookie_session_persistence)
    ∷ (appgw_prefix <> "request-timeout", request_timeout)
    ∷ (
      appgw_prefix <> "backend-hostname",
      unsupported
          "Gateway API filters cannot rewrite the Host header; use your implementation's traffic policy CRD instead.",
    )
    ∷ (
      appgw_prefix <> "backend-protocol",
      unsupported "Set the backend Service port's appProtocol field instead.",
    )
    ∷ (
      appgw_prefix <> "appgw-ssl-certificate",
      unsupported
          "TLS certificates apply to the Gateway listener, not the HTTPRoute; configure certificateRefs on the Gateway resource instead.",
    )
    ∷ (
      appgw_prefix <> "appgw-ssl-profile",
      unsupported
          "TLS policy applies to the Gateway listener, not the HTTPRoute; configure it on the Gateway resource instead.",
    )
    ∷ (
      appgw_prefix <> "appgw-trusted-root-certificate",
      unsupported
          "TLS trust applies to the Gateway listener, not the HTTPRoute; configure it on the Gateway resource instead.",
    )
    ∷ (
      appgw_prefix <> "health-probe-hostname",
      unsupported "Use your implementation's health-check policy CRD instead.",
    )
    ∷ (
      appgw_prefix <> "health-probe-port",
      unsupported "Use your implementation's health-check policy CRD instead.",
    )
    ∷ (
      appgw_prefix <> "health-probe-path",
      unsupported "Use your implementation's health-check policy CRD instead.",
    )
    ∷ (
      appgw_prefix <> "health-probe-status-codes",
      unsupported "Use your implementation's health-check policy CRD instead.",
    )
    ∷ (
      appgw_prefix <> "health-probe-interval",
      unsupported "Use your implementation's health-check policy CRD instead.",
    )
    ∷ (
      appgw_prefix <> "health-probe-timeout",
      unsupported "Use your implementation's health-check policy CRD instead.",
    )
    ∷ (
      appgw_prefix <> "health-probe-unhealthy-threshold",
      unsupported "Use your implementation's health-check policy CRD instead.",
    )
    ∷ (
      appgw_prefix <> "cookie-based-affinity-distinct-name",
      unsupported
          "Use your implementation's session-affinity policy CRD instead, or set a fixed sessionName directly on the HTTPRoute's sessionPersistence field.",
    )
    ∷ (
      appgw_prefix <> "connection-draining",
      unsupported "Use your implementation's traffic policy CRD instead.",
    )
    ∷ (
      appgw_prefix <> "connection-draining-timeout",
      unsupported "Use your implementation's traffic policy CRD instead.",
    )
    ∷ (
      appgw_prefix <> "use-private-ip",
      unsupported
          "This is a Gateway/infrastructure-level concern, not an HTTPRoute one; configure the Gateway's listener/load balancer visibility instead.",
    )
    ∷ (
      appgw_prefix <> "override-frontend-port",
      unsupported
          "This is a Gateway listener port concern, not an HTTPRoute one; configure the Gateway's listener port instead.",
    )
    ∷ (
      appgw_prefix <> "waf-policy-for-path",
      unsupported "Use your implementation's WAF/security policy CRD instead.",
    )
    ∷ (
      appgw_prefix <> "rewrite-rule-set",
      unsupported
          "A rewrite rule set can express arbitrary header/URL rewrites that don't map to a single filter; reproduce the specific rule(s) with HTTPRoute URLRewrite/RequestHeaderModifier filters instead.",
    )
    ∷ (
      appgw_prefix <> "rewrite-rule-set-custom-resource",
      unsupported
          "A rewrite rule set can express arbitrary header/URL rewrites that don't map to a single filter; reproduce the specific rule(s) with HTTPRoute URLRewrite/RequestHeaderModifier filters instead.",
    )
    ∷ (
      appgw_prefix <> "hostname-extension",
      unsupported
          "Add the extra hostname(s) directly to the generated HTTPRoute's spec.hostnames instead.",
    )
    ∷ []
