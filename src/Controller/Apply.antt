-- ===== src/Controller/Apply.antt =====
-- ensureGateway, applyRoute, applyGRPCRoute, routeChangeFor, pruneOrphanedRoutes and
-- resolveServicePort of internal/controller/transfergw_controller.go.
use transfergw.Base.{
  ℕ, suc, ◌+◌, String, ◌<>◌, Bool, true, false, Option, none, some, List, [], ◌∷◌, ◌++◌, contains,
  ◌==◌, string_eq, if◌then◌else◌,
}
use transfergw.Base.Int.{ℤ}
use transfergw.Base.Text.{quote}
use transfergw.Base.Dict.{insert}
use transfergw.Kube.{Ingress, ObjectKey, ServicePort}
use transfergw.Gateway.{GatewaySpec, HttpRoute, GrpcRoute}
use transfergw.Api.{TransferGw, RouteChange}
use transfergw.Env.{
  Env, Error, ErrorKind, not_found, Result, ok, err, OperationResult, result_created,
  result_updated, Managed,
}
use transfergw.Action.{Action}
use transfergw.Conversion.{PortResolver}
use transfergw.Listeners.{build_listeners}

abbrev pub managed_by_label : String
managed_by_label = "transfergw.t-1.dev/managed-by"

abbrev pub source_ingress_label : String
source_ingress_label = "transfergw.t-1.dev/source-ingress"

unfoldable pub object_text : String → String → String
object_text namespace name = namespace <> ("/" <> name)

-- Nothing is reported of a route that did not change.
unfoldable pub route_change_for : OperationResult → String → String → Option RouteChange
unfolding object_text
route_change_for result_created namespace name =
    some (record { action = "add"; route = object_text namespace name; detail = "" })
route_change_for result_updated namespace name =
    some (record { action = "modify"; route = object_text namespace name; detail = "" })
route_change_for _ namespace name = none

find_port : String → List ServicePort → Option ℤ
find_port name [] = none
find_port name (p ∷ ps) = if p.name == name then some p.port else find_port name ps

port_or_error : String → String → String → Option ℤ → Result ℤ
unfolding quote object_text
port_or_error namespace service name (some n) = ok n
port_or_error namespace service name none = err (record {
  kind = ErrorKind.other;
  message = "service " <> (object_text namespace service <> (" has no port named " <> quote name));
})

service_port : String → String → String → Result (List ServicePort) → Result ℤ
unfolding port_or_error find_port
service_port namespace service name (err e) = err e
service_port namespace service name (ok ports) =
    port_or_error namespace service name (find_port name ports)

unfoldable pub is_not_found : Error → Bool
is_not_found e = elim e.kind [ not_found ↦ true | _ ↦ false ]

-- The results of pruneOrphanedRoutes, which returns the first two with an error too.
pub record Pruned : Type 0 where
  pub count : ℕ
  pub changes : List RouteChange
  pub error : Option Error

unfoldable pub removed : ObjectKey → RouteChange
unfolding object_text
removed k = record { action = "remove"; route = object_text k.namespace k.name; detail = "" }

module _ (E : Env) where
  open E use {State, Float, get_service, apply_gateway, apply_http_route, apply_grpc_route}
  open E use {list_http_routes, list_grpc_routes, delete_http_route, delete_grpc_route}
  open E use {controller_reference}

  unfoldable pub resolve_service_port : PortResolver State
  unfolding service_port
  resolve_service_port namespace service name s =
      let (r, s') = get_service (record { namespace = namespace; name = service }) s in
      (service_port namespace service name r, s')

  -- An owner only in the migration's own namespace: there is no garbage collection across them.
  unfoldable pub own :
      {Spec : Type 0} → TransferGw Float → String → Managed Spec → Result (Managed Spec)
  own m namespace o =
      if namespace == m.namespace
      then elim (controller_reference m o.controller) [
        | ok c ↦ ok (record o { controller = c })
        | err e ↦ err e
      ]
      else ok o

  -- The mutate function of a route.
  unfoldable pub mutate_route :
      {Spec : Type 0}
      → TransferGw Float
      → String
      → String
      → Spec
      → Managed Spec
      → Result (Managed Spec)
  unfolding insert own
  mutate_route m namespace name spec o = own m namespace (record o {
    labels = insert source_ingress_label name (insert managed_by_label m.name o.labels);
    spec = spec;
  })

  unfoldable pub apply_route : TransferGw Float → HttpRoute → Action State OperationResult
  apply_route m desired =
      apply_http_route (record { namespace = desired.namespace; name = desired.name })
        (mutate_route m desired.namespace desired.name desired.spec)

  unfoldable pub apply_grpc : TransferGw Float → GrpcRoute → Action State OperationResult
  apply_grpc m desired =
      apply_grpc_route (record { namespace = desired.namespace; name = desired.name })
        (mutate_route m desired.namespace desired.name desired.spec)

  unfoldable pub mutate_gateway :
      TransferGw Float → String → List Ingress → Managed GatewaySpec → Result (Managed GatewaySpec)
  unfolding insert own build_listeners
  mutate_gateway m namespace ingresses o = own m namespace (record o {
    labels = insert managed_by_label m.name o.labels;
    spec = record {
      gateway_class_name = m.spec.conversion.gateway_class;
      listeners = build_listeners ingresses;
    };
  })

  unfoldable pub ensure_gateway :
      TransferGw Float → String → String → List Ingress → Action State OperationResult
  ensure_gateway m name namespace ingresses =
      apply_gateway (record { namespace = namespace; name = name })
        (mutate_gateway m namespace ingresses)

  -- The loop over the listed routes of a kind.
  unfoldable pub prune_each :
      (ObjectKey → Action State (Unit {0})) → List String → List ObjectKey → State → Pruned × State
  unfolding is_not_found removed
  prune_each delete desired [] s = (record { count = 0; changes = []; error = none }, s)
  prune_each delete desired (k ∷ ks) s = elim (contains desired (object_text k.namespace k.name)) [
    | true ↦ prune_each delete desired ks s
    | false ↦
        let (r, s') = delete k s in
        let (rest, s'') = prune_each delete desired ks s' in
        let counted : Pruned × State =
          (record rest { count = suc rest.count; changes = removed k ∷ rest.changes }, s'') in
        elim r [
          | ok _ ↦ counted
          | err e ↦
              if is_not_found e
              then counted
              else (record { count = 0; changes = []; error = some e }, s')
        ]
  ]

  unfoldable pub prune_listed :
      Result (List ObjectKey)
      → (ObjectKey → Action State (Unit {0}))
      → List String
      → State
      → Pruned × State
  unfolding prune_each
  prune_listed (err e) delete desired s = (record { count = 0; changes = []; error = some e }, s)
  prune_listed (ok ks) delete desired s = prune_each delete desired ks s

  -- The GRPCRoutes are pruned after the HTTPRoutes, unless those met an error.
  unfoldable pub prune_orphaned_routes : TransferGw Float → List String → State → Pruned × State
  unfolding prune_listed
  prune_orphaned_routes m desired s =
      let labels = (managed_by_label, m.name) ∷ [] in
      let (listed, s₁) = list_http_routes labels s in
      let (http, s₂) = prune_listed listed delete_http_route desired s₁ in
      elim http.error [
        | some e ↦ (http, s₂)
        | none ↦
            let (listed', s₃) = list_grpc_routes labels s₂ in
            let (grpc, s₄) = prune_listed listed' delete_grpc_route desired s₃ in
            (
              record {
                count = http.count + grpc.count;
                changes = http.changes ++ grpc.changes;
                error = grpc.error;
              },
              s₄,
            )
      ]
