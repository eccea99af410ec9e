-- ===== src/Examples/Previews.antt =====
-- A world that stores what is applied, and the theorems on the preview, applied.
use transfergw.Base.{
  ◌≡◌, refl, Bool, false, Option, none, some, [], ◌∷◌, ◌++◌, ◌&&◌, ◌==◌, ==_refl, string_eq,
  if◌then◌else◌, arith,
}
use transfergw.Base.Int.{pos}
use transfergw.Base.Dict.{lookup}
use transfergw.Kube.{ObjectKey}
use transfergw.Gateway.{GatewaySpec, HttpRouteSpec, HttpRoute}
use transfergw.Env.{Env, Managed, Result, OperationResult, result_created, ok, err}
use transfergw.Conversion.{key}
use transfergw.Conversion.Grpc.{is_grpc_backend}
use transfergw.Canary.{Pairs}
use transfergw.Controller.Convert.{Tally, convert, convert_one}
use transfergw.Controller.Reconcile.{convert_options, prepare_gateway}
use transfergw.Preview.{Shell, document, http_route, notes_of, preview_one, preview_selected}
use transfergw.Preview.Stored.{SpecStore}
use transfergw.Preview.Gateways.{ShowsGateway, prepare_gateway-ShowsGateway}
use transfergw.Preview.Agreement.{StoresRoute, preview_one-convert_one}
use transfergw.Examples.World.{nat_floats, migration, paused, measured, ingress, runtime}

abbrev same : ObjectKey → ObjectKey → Bool
same k x = k.namespace == x.namespace && k.name == x.name

-- The Gateways and the HTTPRoutes that are stored.
abbrev Specs : Type 0
Specs = (ObjectKey → Option GatewaySpec) × (ObjectKey → Option HttpRouteSpec)

abbrev put :
    {Spec : Type 0} → ObjectKey → Spec → (ObjectKey → Option Spec) → ObjectKey → Option Spec
put k spec old x = if same k x then some spec else old x

put_same :
    {Spec : Type 0} (k : ObjectKey) (spec : Spec) (old : ObjectKey → Option Spec)
    → put k spec old k ≡ some spec
put_same k spec old = rw (==_refl k.namespace, ==_refl k.name) refl

abbrev store_gateway :
    ObjectKey → Result (Managed GatewaySpec) → Specs → Result OperationResult × Specs
store_gateway k (ok o) s = (ok result_created, (put k o.spec s.0, s.1))
store_gateway k (err e) s = (err e, s)

abbrev store_http_route :
    ObjectKey → Result (Managed HttpRouteSpec) → Specs → Result OperationResult × Specs
store_http_route k (ok o) s = (ok result_created, (s.0, put k o.spec s.1))
store_http_route k (err e) s = (err e, s)

abbrev no_gateway : Managed GatewaySpec
no_gateway = record {
  labels = [];
  controller = none;
  spec = record { gateway_class_name = ""; listeners = [] };
}

abbrev no_route : Managed HttpRouteSpec
no_route = record {
  labels = [];
  controller = none;
  spec = record { parent_refs = []; hostnames = []; rules = [] };
}

abbrev spec_world : Env
spec_world = record {
  floats = nat_floats;
  State = Specs;
  now = λ s. (pos 0, s);
  rfc3339 = λ t. "now";
  get_migration = λ k s. (ok paused, s);
  patch_status = λ k st s. (ok tt, s);
  list_migrations = λ s. (ok [], s);
  get_gateway_class = λ c s. (ok tt, s);
  list_namespaces = λ s. (ok [], s);
  list_ingresses = λ ns labels s. (ok [], s);
  get_service = λ k s. (ok [], s);
  list_http_routes = λ labels s. (ok [], s);
  list_grpc_routes = λ labels s. (ok [], s);
  delete_http_route = λ k s. (ok tt, s);
  delete_grpc_route = λ k s. (ok tt, s);
  check_label_selector = λ l. ok tt;
  apply_gateway = λ k mutate s. store_gateway k (mutate no_gateway) s;
  apply_http_route = λ k mutate s. store_http_route k (mutate no_route) s;
  apply_grpc_route = λ k mutate s. (ok result_created, s);
  controller_reference = λ m c. ok (some "web");
  metrics_source = some (λ m target s. (ok (measured 9), s));
  alerter = none;
  hook_caller = none;
  default_webhook_url = "";
}

stored_gateway :
    (k : ObjectKey) (r : Result (Managed GatewaySpec)) (s : Specs) (op : OperationResult)
    → (store_gateway k r s).0 ≡ ok op
    → (o' : Managed GatewaySpec) × (r ≡ ok o') × ((store_gateway k r s).1.0 k ≡ some o'.spec)
stored_gateway k (ok o) s op h = (o, refl, put_same k o.spec s.0)
stored_gateway k (err e) s op h = absurd (ground (arith, h))

stored_http_route :
    (k : ObjectKey) (r : Result (Managed HttpRouteSpec)) (s : Specs) (op : OperationResult)
    → (store_http_route k r s).0 ≡ ok op
    → (o' : Managed HttpRouteSpec) × (r ≡ ok o') × ((store_http_route k r s).1.1 k ≡ some o'.spec)
stored_http_route k (ok o) s op h = (o, refl, put_same k o.spec s.1)
stored_http_route k (err e) s op h = absurd (ground (arith, h))

abbrev specs : SpecStore spec_world
specs = record {
  gateway_at = λ k s. s.0 k;
  http_route_at = λ k s. s.1 k;
  stores_gateway = λ k f s op h.
      let (o', made, kept) = stored_gateway k (f no_gateway) s op h in (no_gateway, o', made, kept);
  stores_http_route = λ k f s op h.
      let (o', made, kept) = stored_http_route k (f no_route) s op h in (no_route, o', made, kept);
}

abbrev shell : Shell spec_world.Float
shell = record {
  read_file = λ file. ok "kind: TransferGW";
  parse_manifest = λ raw. ok (migration "canary" false);
  build_scheme = ok tt;
  get_config = ok tt;
  new_client = ok tt;
  marshal = λ d. ok "yaml";
}

abbrev empty : Specs
empty = (λ k. none, λ k. none)

prepared :
    (prepare_gateway spec_world runtime (migration "canary" false) (ingress "web" [] ∷ []) empty).0
    ≡ ok (pos 1)
unfolding prepare_gateway transfergw.Action.wrap_result transfergw.Controller.Apply.ensure_gateway
    transfergw.Controller.Apply.mutate_gateway string_eq transfergw.Validator.target_namespace
prepared = refl

prepare_gateway-ShowsGateway_example :
    (k : ObjectKey) × (spec : GatewaySpec) × ((prepare_gateway spec_world runtime
          (migration "canary" false)
          (ingress "web" [] ∷ [])
          empty).1.0
        k
      ≡ some spec)
    × ShowsGateway spec_world runtime shell
        (migration "canary" false)
        (ingress "web" [] ∷ [])
        []
        k
        spec
        (preview_selected spec_world runtime shell
          (migration "canary" false)
          (ingress "web" [] ∷ [])
          (empty, [])).1.1
prepare_gateway-ShowsGateway_example =
    prepare_gateway-ShowsGateway spec_world runtime shell (migration "canary" false) specs
      (ingress "web" [] ∷ []) empty (pos 1) [] "yaml" refl refl prepared

abbrev alone : Pairs
alone = record { names = []; for_primary = [] }

-- Nothing converted yet.
abbrev nothing : Tally
nothing = record {
  issues = [];
  converted = pos 0;
  failed = pos 0;
  desired = [];
  route_changes = [];
}

unpaired : lookup (key (ingress "web" [])) alone.for_primary ≡ none
unfolding lookup
unpaired = refl

no_grpc : is_grpc_backend (ingress "web" []) ≡ false
unfolding is_grpc_backend
no_grpc = refl

keeps :
    (convert_one spec_world runtime
      (migration "canary" false)
      (convert_options spec_world (migration "canary" false))
      alone
      (ingress "web" [])
      nothing
      empty).0.desired
    ≡ "shop/web" ∷ []
unfolding convert_one transfergw.Conversion.has_failed transfergw.Conversion.Routes.convert_ingress
    is_grpc_backend transfergw.Conversion.Backend.convert_backend
    transfergw.Conversion.Backend.convert_service
    transfergw.Conversion.Annotations.convert_annotations transfergw.Conversion.Path.convert_path
    transfergw.Conversion.Grpc.default_backend_issue transfergw.Conversion.issue_of
    transfergw.Controller.Apply.apply_route transfergw.Controller.Apply.mutate_route string_eq
    transfergw.Controller.Apply.object_text
keeps = refl

shows :
    (preview_one spec_world runtime shell
      (migration "canary" false)
      (ingress "web" [])
      (empty, [])).0
    ≡ ok tt
unfolding preview_one transfergw.Preview.print_result transfergw.Conversion.Routes.convert_ingress
    is_grpc_backend transfergw.Conversion.Backend.convert_backend
    transfergw.Conversion.Backend.convert_service transfergw.Action.wrap_result
shows = refl

preview_one-convert_one_example :
    let m = migration "canary" false in
    (route : HttpRoute) × StoresRoute spec_world runtime shell m specs [] route (
      convert_one spec_world runtime m
        (convert_options spec_world m)
        alone
        (ingress "web" [])
        nothing
        empty)
    × ((preview_one spec_world runtime shell m (ingress "web" []) (empty, [])).1.1
        ≡ ([]
            ++ notes_of
                (convert spec_world runtime m
                  (convert_options spec_world m)
                  (ingress "web" [])
                  empty).0.issues)
          ++ document (http_route route) ∷ [])
preview_one-convert_one_example =
    preview_one-convert_one spec_world runtime shell (migration "canary" false) specs alone
      (ingress "web" []) nothing empty [] refl unpaired no_grpc (λ h. cc (keeps, h)) shows
