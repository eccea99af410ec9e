-- ===== src/Registry/Nginx.antt =====
-- The registered annotations of ingress-nginx, internal/conversion/annotation/nginx/nginx.go.
use transfergw.Base.{◌<>◌, [], ◌∷◌}
use transfergw.Base.Dict.{Dict}
use transfergw.Base.Int.{pos}
use transfergw.Translator.{
  Translator, app_root, auth, backend_request_timeout, cookie_session_persistence, cors_translator,
  noop, rate_limit, redirect, rewrite, session_cookie_name, ssl_redirect, unsupported,
  x_forwarded_prefix, nginx_prefix,
}

unfoldable pub translators : Dict Translator
translators =
    (nginx_prefix <> "rewrite-target", rewrite)
    ∷ (nginx_prefix <> "ssl-redirect", ssl_redirect)
    ∷ (nginx_prefix <> "force-ssl-redirect", ssl_redirect)
    ∷ (nginx_prefix <> "permanent-redirect", redirect (pos 301))
    ∷ (nginx_prefix <> "temporal-redirect", redirect (pos 302))
    ∷ (nginx_prefix <> "app-root", app_root)
    ∷ (nginx_prefix <> "x-forwarded-prefix", x_forwarded_prefix)
    ∷ (nginx_prefix <> "auth-type", auth)
    ∷ (nginx_prefix <> "auth-url", auth)
    ∷ (
      nginx_prefix <> "auth-secret",
      unsupported "Express authentication with your implementation's policy CRD.",
    )
    ∷ (
      nginx_prefix <> "auth-realm",
      unsupported "Express authentication with your implementation's policy CRD.",
    )
    ∷ (
      nginx_prefix <> "auth-signin",
      unsupported "Express authentication with your implementation's policy CRD.",
    )
    ∷ (
      nginx_prefix <> "auth-response-headers",
      unsupported "Express authentication with your implementation's policy CRD.",
    )
    ∷ (
      nginx_prefix <> "auth-snippet",
      unsupported
          "Gateway API has no request-snippet escape hatch; reproduce this with an implementation-specific filter or policy.",
    )
    ∷ (nginx_prefix <> "limit-rps", rate_limit)
    ∷ (nginx_prefix <> "limit-rpm", rate_limit)
    ∷ (nginx_prefix <> "limit-burst-multiplier", rate_limit)
    ∷ (nginx_prefix <> "limit-connections", rate_limit)
    ∷ (
      nginx_prefix <> "whitelist-source-range",
      unsupported
          "Use your implementation's IP-allowlist policy CRD (e.g. a BackendTrafficPolicy or SecurityPolicy) instead.",
    )
    ∷ (nginx_prefix <> "enable-cors", cors_translator)
    ∷ (nginx_prefix <> "cors-allow-origin", noop)
    ∷ (nginx_prefix <> "cors-allow-methods", noop)
    ∷ (nginx_prefix <> "cors-allow-headers", noop)
    ∷ (nginx_prefix <> "cors-allow-credentials", noop)
    ∷ (nginx_prefix <> "cors-expose-headers", noop)
    ∷ (nginx_prefix <> "cors-max-age", noop)
    ∷ (
      nginx_prefix <> "proxy-body-size",
      unsupported "Set request body size limits with your implementation's traffic policy CRD.",
    )
    ∷ (
      nginx_prefix <> "proxy-connect-timeout",
      unsupported "Set connection timeouts with your implementation's traffic policy CRD.",
    )
    ∷ (nginx_prefix <> "proxy-read-timeout", backend_request_timeout)
    ∷ (nginx_prefix <> "proxy-send-timeout", backend_request_timeout)
    ∷ (
      nginx_prefix <> "backend-protocol",
      unsupported "Set the backend Service port's appProtocol field instead.",
    )
    ∷ (
      nginx_prefix <> "canary",
      unsupported
          "No matching primary Ingress was found to pair this canary with (same namespace, host, and a single path, plus a valid canary-weight) - model the weighted backendRefs explicitly instead.",
    )
    ∷ (
      nginx_prefix <> "canary-weight",
      unsupported "Set the weight on the corresponding backendRef instead.",
    )
    ∷ (
      nginx_prefix <> "canary-by-header",
      unsupported "Use HTTPRoute header matches across two rules instead of a canary annotation.",
    )
    ∷ (
      nginx_prefix <> "canary-by-cookie",
      unsupported
          "Use HTTPRoute cookie/header matches across two rules instead of a canary annotation.",
    )
    ∷ (nginx_prefix <> "affinity", cookie_session_persistence)
    ∷ (nginx_prefix <> "session-cookie-name", session_cookie_name)
    ∷ (
      nginx_prefix <> "session-cookie-hash",
      unsupported
          "Gateway API's sessionPersistence has no cookie-hashing knob; the cookie value is opaque to the client either way, so this annotation has no effect to port.",
    )
    ∷ (
      nginx_prefix <> "configuration-snippet",
      unsupported
          "Gateway API has no raw-config escape hatch; reproduce this with an implementation-specific filter or policy.",
    )
    ∷ (
      nginx_prefix <> "server-snippet",
      unsupported
          "Gateway API has no raw-config escape hatch; reproduce this with an implementation-specific filter or policy.",
    )
    ∷ (
      nginx_prefix <> "stream-snippet",
      unsupported
          "Gateway API has no raw-config escape hatch; reproduce this with an implementation-specific filter or policy.",
    )
    ∷ (
      nginx_prefix <> "custom-http-errors",
      unsupported "Use your implementation's custom-error-response policy CRD instead.",
    )
    ∷ (
      nginx_prefix <> "default-backend",
      unsupported "Add an explicit catch-all HTTPRoute rule with path prefix \"/\" instead.",
    )
    ∷ (
      nginx_prefix <> "service-upstream",
      unsupported
          "Gateway API always routes through the Service; this annotation has no effect to port.",
    )
    ∷ (
      nginx_prefix <> "upstream-vhost",
      unsupported
          "Gateway API filters cannot rewrite the Host header; use your implementation's traffic policy CRD instead.",
    )
    ∷ (
      nginx_prefix <> "ssl-passthrough",
      unsupported "Configure TLS passthrough on the Gateway listener (protocol: TLS) instead.",
    )
    ∷ []
