-- ===== src/Conversion/Backend.antt =====
-- convertBackend of internal/conversion/route.go.
use transfergw.Base.{String, ◌<>◌, not, Option, none, some, ◌==◌, string_eq, if◌then◌else◌}
use transfergw.Base.Int.{ℤ, pos, eqb_ℤ}
use transfergw.Base.Text.{quote}
use transfergw.Kube.{Ingress, IngressServiceBackend, HttpIngressPath}
use transfergw.Gateway.{BackendRef}
use transfergw.Api.{error}
use transfergw.Env.{ok, err}
use transfergw.Translator.{Issue}
use transfergw.Conversion.{PortResolver, issue_of}

-- The pair of results of convertBackend, of which exactly one is not nil.
pub data Backend : Type 0 where
  converted : BackendRef → Backend
  rejected : Issue → Backend

unfoldable pub service_ref : String → ℤ → BackendRef
service_ref name port = record {
  group = some "";
  kind = some "Service";
  name = name;
  port = some port;
  weight = some (pos 1);
}

module _ {S : Type 0} where
  -- A backend with a Service: its port number, or its port name by the resolver.
  unfoldable pub convert_service :
      Ingress → IngressServiceBackend → Option (PortResolver S) → S → Backend × S
  convert_service ing svc resolve_port s =
      if not (eqb_ℤ svc.port.number (pos 0))
      then (converted (service_ref svc.name svc.port.number), s)
      else if not (svc.port.name == "")
      then elim resolve_port [
        | none ↦ (
          rejected (
              issue_of ing error
                ("backend Service "
                  <> (quote svc.name
                      <> (" is referenced by port name "
                          <> (quote svc.port.name
                              <> "; HTTPRoute backendRefs require a port number"))))
                "Reference the Service port by number in the Ingress."),
          s,
        )
        | some resolve ↦
            let (r, s') = resolve ing.namespace svc.name svc.port.name s in
            elim r [
              | ok n ↦ (converted (service_ref svc.name n), s')
              | err e ↦ (
                rejected (
                    issue_of ing error
                      ("backend Service "
                        <> (quote svc.name
                            <> (" port "
                                <> (quote svc.port.name
                                    <> (" could not be resolved: " <> e.message)))))
                      "Confirm the referenced Service exists and has a port with that name."),
                s',
              )
            ]
      ]
      else (
        rejected (
            issue_of ing error ("backend Service " <> (quote svc.name <> " specifies no port"))
              "Set spec.rules[].http.paths[].backend.service.port.number."),
        s,
      )

  unfoldable pub convert_backend :
      Ingress → HttpIngressPath → Option (PortResolver S) → S → Backend × S
  convert_backend ing p resolve_port s = elim p.backend.service [
    | none ↦ (
      rejected (
          issue_of ing error
            ("path "
              <> (quote p.path <> " uses a resource backend, which has no Gateway API equivalent"))
            "Point the path at a Service backend."),
      s,
    )
    | some svc ↦ convert_service ing svc resolve_port s
  ]
