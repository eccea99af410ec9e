-- ===== src/Preview/Stored.antt =====
-- What the API server stores of the Gateway and the HTTPRoutes that the reconciler of
-- internal/controller/transfergw_controller.go applies.
use transfergw.Base.{String, ◌≡◌, sym, ap, Option, some, List, string_eq, arith}
use transfergw.Kube.{Ingress, ObjectKey}
use transfergw.Gateway.{GatewaySpec, HttpRouteSpec}
use transfergw.Api.{TransferGw}
use transfergw.Env.{Env, Managed, Result, OperationResult, ok}
use transfergw.Validator.{target_namespace, gateway_name}
use transfergw.Controller.Apply.{mutate_gateway, mutate_route, own}
use transfergw.Preview.{gateway, gateway_document}

module _ (E : Env) where
  -- An API server that stores Gateways and HTTPRoutes: controllerutil.CreateOrUpdate, if it
  -- succeeds, has called the mutate function on some object and stored what that made of it.
  pub record SpecStore : Type 0 where
    pub gateway_at : ObjectKey → E.State → Option GatewaySpec
    pub http_route_at : ObjectKey → E.State → Option HttpRouteSpec
    pub stores_gateway :
        (k : ObjectKey) (f : Managed GatewaySpec → Result (Managed GatewaySpec)) (s : E.State)
        (op : OperationResult)
        → (E.apply_gateway k f s).0 ≡ ok op
        → (o o' : Managed GatewaySpec) × (f o ≡ ok o')
          × (gateway_at k (E.apply_gateway k f s).1 ≡ some o'.spec)
    pub stores_http_route :
        (k : ObjectKey) (f : Managed HttpRouteSpec → Result (Managed HttpRouteSpec)) (s : E.State)
        (op : OperationResult)
        → (E.apply_http_route k f s).0 ≡ ok op
        → (o o' : Managed HttpRouteSpec) × (f o ≡ ok o')
          × (http_route_at k (E.apply_http_route k f s).1 ≡ some o'.spec)

module _ (E : Env) (m : TransferGw E.Float) where
  spec-own :
      {Spec : Type 0} (namespace : String) (o o' : Managed Spec)
      → own E m namespace o ≡ ok o'
      → o'.spec ≡ o.spec
  unfolding own
  spec-own namespace o o' h = ground arith

  pub gateway_document-mutate_gateway :
      (namespace : String) (ingresses : List Ingress) (o o' : Managed GatewaySpec)
      → mutate_gateway E m namespace ingresses o ≡ ok o'
      → gateway_document m ingresses ≡ gateway (target_namespace m) (gateway_name m) o'.spec
  unfolding mutate_gateway gateway_document
  gateway_document-mutate_gateway namespace ingresses o o' h =
      ap (gateway (target_namespace m) (gateway_name m)) (sym (spec-own namespace _ o' h))

  pub spec-mutate_route :
      {Spec : Type 0} (namespace name : String) (spec : Spec) (o o' : Managed Spec)
      → mutate_route E m namespace name spec o ≡ ok o'
      → o'.spec ≡ spec
  unfolding mutate_route
  spec-mutate_route namespace name spec o o' h = spec-own namespace _ o' h
