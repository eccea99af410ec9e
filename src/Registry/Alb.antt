-- ===== src/Registry/Alb.antt =====
-- The registered annotations of AWS Load Balancer Controller,
-- internal/conversion/annotation/alb/alb.go.
use transfergw.Base.{String, ◌<>◌, [], ◌∷◌}
use transfergw.Base.Dict.{Dict}
use transfergw.Translator.{Translator, unsupported}

abbrev pub alb_prefix : String
alb_prefix = "alb.ingress.kubernetes.io/"

unfoldable pub translators : Dict Translator
translators =
    (
      alb_prefix <> "backend-protocol",
      unsupported "Set the backend Service port's appProtocol field instead.",
    )
    ∷ (
      alb_prefix <> "backend-protocol-version",
      unsupported "Set the backend Service port's appProtocol field instead.",
    )
    ∷ (
      alb_prefix <> "scheme",
      unsupported
          "This is a Gateway/infrastructure-level concern, not an HTTPRoute one; configure the Gateway's listener/load balancer visibility instead.",
    )
    ∷ (
      alb_prefix <> "ip-address-type",
      unsupported
          "This is a Gateway/infrastructure-level concern, not an HTTPRoute one; configure it on the Gateway resource instead.",
    )
    ∷ (
      alb_prefix <> "subnets",
      unsupported
          "This is a Gateway/infrastructure-level concern, not an HTTPRoute one; configure it on the Gateway resource or its controller's infrastructure CRD instead.",
    )
    ∷ (
      alb_prefix <> "security-groups",
      unsupported
          "This is a Gateway/infrastructure-level concern, not an HTTPRoute one; configure it on the Gateway resource or its controller's infrastructure CRD instead.",
    )
    ∷ (
      alb_prefix <> "manage-backend-security-group-rules",
      unsupported
          "This is a Gateway/infrastructure-level concern, not an HTTPRoute one; configure it on the Gateway resource or its controller's infrastructure CRD instead.",
    )
    ∷ (
      alb_prefix <> "customer-owned-ipv4-pool",
      unsupported
          "This is a Gateway/infrastructure-level concern, not an HTTPRoute one; configure it on the Gateway resource or its controller's infrastructure CRD instead.",
    )
    ∷ (
      alb_prefix <> "load-balancer-name",
      unsupported
          "This is a Gateway/infrastructure-level concern, not an HTTPRoute one; configure it on the Gateway resource or its controller's infrastructure CRD instead.",
    )
    ∷ (
      alb_prefix <> "load-balancer-attributes",
      unsupported
          "This is a Gateway/infrastructure-level concern, not an HTTPRoute one; configure it on the Gateway resource or its controller's infrastructure CRD instead.",
    )
    ∷ (
      alb_prefix <> "group.name",
      unsupported
          "Sharing one load balancer across Ingresses is a Gateway-level concern; point multiple TransferGWs at the same generated Gateway instead.",
    )
    ∷ (
      alb_prefix <> "group.order",
      unsupported
          "Sharing one load balancer across Ingresses is a Gateway-level concern; point multiple TransferGWs at the same generated Gateway instead.",
    )
    ∷ (
      alb_prefix <> "inbound-cidrs",
      unsupported
          "This is a Gateway/infrastructure-level concern, not an HTTPRoute one; configure it on the Gateway resource or its controller's infrastructure CRD instead.",
    )
    ∷ (
      alb_prefix <> "listen-ports",
      unsupported
          "This is a Gateway listener port concern, not an HTTPRoute one; configure the Gateway's listener port(s) instead.",
    )
    ∷ (
      alb_prefix <> "tags",
      unsupported
          "This is a Gateway/infrastructure-level concern, not an HTTPRoute one; configure it on the Gateway resource or its controller's infrastructure CRD instead.",
    )
    ∷ (
      alb_prefix <> "certificate-arn",
      unsupported
          "TLS certificates apply to the Gateway listener, not the HTTPRoute; configure certificateRefs on the Gateway resource instead.",
    )
    ∷ (
      alb_prefix <> "ssl-policy",
      unsupported
          "TLS policy applies to the Gateway listener, not the HTTPRoute; configure it on the Gateway resource instead.",
    )
    ∷ (
      alb_prefix <> "ssl-negotiation-policy",
      unsupported
          "TLS policy applies to the Gateway listener, not the HTTPRoute; configure it on the Gateway resource instead.",
    )
    ∷ (
      alb_prefix <> "wafv2-acl-arn",
      unsupported "Use your implementation's WAF/security policy CRD instead.",
    )
    ∷ (
      alb_prefix <> "waf-acl-id",
      unsupported "Use your implementation's WAF/security policy CRD instead.",
    )
    ∷ (
      alb_prefix <> "shield-advanced-protection",
      unsupported "Use your implementation's WAF/security policy CRD instead.",
    )
    ∷ (
      alb_prefix <> "target-type",
      unsupported
          "This is a Service/backend-level concern, not an HTTPRoute one; configure it on the backend Service or its controller's infrastructure CRD instead.",
    )
    ∷ (
      alb_prefix <> "target-group-attributes",
      unsupported
          "This is a Service/backend-level concern, not an HTTPRoute one; configure it on the backend Service or its controller's infrastructure CRD instead.",
    )
    ∷ (
      alb_prefix <> "target-node-labels",
      unsupported
          "This is a Service/backend-level concern, not an HTTPRoute one; configure it on the backend Service or its controller's infrastructure CRD instead.",
    )
    ∷ (
      alb_prefix <> "healthcheck-protocol",
      unsupported "Use your implementation's health-check policy CRD instead.",
    )
    ∷ (
      alb_prefix <> "healthcheck-port",
      unsupported "Use your implementation's health-check policy CRD instead.",
    )
    ∷ (
      alb_prefix <> "healthcheck-path",
      unsupported "Use your implementation's health-check policy CRD instead.",
    )
    ∷ (
      alb_prefix <> "healthcheck-interval-seconds",
      unsupported "Use your implementation's health-check policy CRD instead.",
    )
    ∷ (
      alb_prefix <> "healthcheck-timeout-seconds",
      unsupported "Use your implementation's health-check policy CRD instead.",
    )
    ∷ (
      alb_prefix <> "healthy-threshold-count",
      unsupported "Use your implementation's health-check policy CRD instead.",
    )
    ∷ (
      alb_prefix <> "unhealthy-threshold-count",
      unsupported "Use your implementation's health-check policy CRD instead.",
    )
    ∷ (
      alb_prefix <> "success-codes",
      unsupported "Use your implementation's health-check policy CRD instead.",
    )
    ∷ (
      alb_prefix <> "auth-type",
      unsupported
          "Use your implementation's authentication policy CRD (e.g. an ExtAuth filter) instead.",
    )
    ∷ (
      alb_prefix <> "auth-idp-cognito",
      unsupported
          "Use your implementation's authentication policy CRD (e.g. an ExtAuth filter) instead.",
    )
    ∷ (
      alb_prefix <> "auth-idp-oidc",
      unsupported
          "Use your implementation's authentication policy CRD (e.g. an ExtAuth filter) instead.",
    )
    ∷ (
      alb_prefix <> "auth-scope",
      unsupported
          "Use your implementation's authentication policy CRD (e.g. an ExtAuth filter) instead.",
    )
    ∷ (
      alb_prefix <> "auth-session-cookie",
      unsupported
          "Use your implementation's authentication policy CRD (e.g. an ExtAuth filter) instead.",
    )
    ∷ (
      alb_prefix <> "auth-session-timeout",
      unsupported
          "Use your implementation's authentication policy CRD (e.g. an ExtAuth filter) instead.",
    )
    ∷ (
      alb_prefix <> "auth-on-unauthenticated-request",
      unsupported
          "Use your implementation's authentication policy CRD (e.g. an ExtAuth filter) instead.",
    )
    ∷ []
