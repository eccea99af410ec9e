-- ===== src/Examples/Store.antt =====
-- A world whose state is what the API server stores of the routes, and the theorems on the stored
-- routes, applied.
use transfergw.Base.{
  ◌≡◌, refl, arith, Bool, ◌||◌, true, contains, map, ==_refl, ◌⊎◌, inl, String, false, none, some,
  List, [], ◌∷◌, string_eq,
}
use transfergw.Base.Int.{pos}
use transfergw.Kube.{ObjectKey}
use transfergw.Env.{Env, ok, result_created}
use transfergw.Controller.Apply.{prune_orphaned_routes}
use transfergw.Controller.Storing.{RouteStore, labels_of, without}
use transfergw.Controller.Reconcile.{deploy}
use transfergw.Controller.Storing.Applied.{text_of, RouteWrites}
use transfergw.Controller.Storing.Exact.{IsExact, IsInterrupted, deploy-IsExact}
use transfergw.Examples.World.{runtime, ingress, nat_floats, migration, measured, paused}

-- The HTTPRoutes and the GRPCRoutes of the one migration.
abbrev Stored : Type 0
Stored = List ObjectKey × List ObjectKey

abbrev stored_world : Env
stored_world = record {
  floats = nat_floats;
  State = Stored;
  now = λ s. (pos 0, s);
  rfc3339 = λ t. "now";
  get_migration = λ k s. (ok paused, s);
  patch_status = λ k st s. (ok tt, s);
  list_migrations = λ s. (ok [], s);
  get_gateway_class = λ c s. (ok tt, s);
  list_namespaces = λ s. (ok [], s);
  list_ingresses = λ ns labels s. (ok [], s);
  get_service = λ k s. (ok [], s);
  list_http_routes = λ labels s. (ok s.0, s);
  list_grpc_routes = λ labels s. (ok s.1, s);
  delete_http_route = λ k s. (ok tt, (without k s.0, s.1));
  delete_grpc_route = λ k s. (ok tt, (s.0, without k s.1));
  check_label_selector = λ l. ok tt;
  apply_gateway = λ k mutate s. (ok result_created, s);
  apply_http_route = λ k mutate s. (ok result_created, (k ∷ without k s.0, s.1));
  apply_grpc_route = λ k mutate s. (ok result_created, (s.0, k ∷ without k s.1));
  controller_reference = λ m c. ok (some "web");
  metrics_source = some (λ m target s. (ok (measured 9), s));
  alerter = none;
  hook_caller = none;
  default_webhook_url = "";
}

store : RouteStore stored_world (labels_of "web")
store = record {
  https = λ s. s.0;
  grpcs = λ s. s.1;
  lists_https = λ s. inl refl;
  lists_grpcs = λ s. inl refl;
  deletes_https = λ k s. inl refl;
  deletes_grpcs = λ k s. inl refl;
  list_leaves_https = λ s. refl;
  list_leaves_grpcs = λ s. refl;
  list_grpcs_leaves_https = λ s. refl;
  list_grpcs_leaves_grpcs = λ s. refl;
  delete_leaves_grpcs = λ k s. refl;
  delete_grpcs_leaves_https = λ k s. refl;
}

abbrev route : String → ObjectKey
route name = record { namespace = "shop"; name = name }

abbrev before : Stored
before = (route "old" ∷ route "web" ∷ [], route "rpc" ∷ route "older" ∷ [])

abbrev desired : List String
desired = "shop/web" ∷ "shop/rpc" ∷ []

-- What is left of them.
left :
    (prune_orphaned_routes stored_world (migration "canary" false) desired before).1
    ≡ (route "web" ∷ [], route "rpc" ∷ [])
unfolding prune_orphaned_routes string_eq
left = refl

-- Writing a route takes no other route away.
add-contains :
    (k : ObjectKey) (xs : List ObjectKey) (text : String)
    → contains (map text_of xs) text ≡ true
    → contains (map text_of (k ∷ without k xs)) text ≡ true
add-contains k [] text h = ground (arith, h)
add-contains k (x ∷ xs) text h = ground (arith, add-contains k xs text)

or_true : (b : Bool) → (b || true) ≡ true
or_true true = refl
or_true false = refl

writes : RouteWrites stored_world "web" store
unfolding store
writes = record {
  http_adds = λ k f op s labels r. rw (==_refl (text_of k)) refl;
  grpc_adds = λ k f op s labels r. rw (==_refl (text_of k)) (or_true _);
  http_keeps = λ k f labels text s h. ground (arith, h, add-contains k s.0 text);
  grpc_keeps = λ k f labels text s h. ground (arith, h, add-contains k s.1 text);
  service_keeps = λ k text s h. h;
}

-- The route of the Ingress takes the place of the old one.
deployed :
    (deploy stored_world runtime
      (migration "canary" false)
      (ingress "web" [] ∷ [])
      (route "old" ∷ [], route "rpc" ∷ [])).1
    ≡ (route "web" ∷ [], [])
unfolding deploy prune_orphaned_routes transfergw.Controller.Convert.convert_all
    transfergw.Canary.pair transfergw.Canary.route_signature transfergw.Canary.split_pair
    transfergw.Conversion.has_failed transfergw.Conversion.Routes.convert_ingress
    transfergw.Conversion.Grpc.is_grpc_backend transfergw.Conversion.Backend.convert_backend
    transfergw.Conversion.Backend.convert_service
    transfergw.Conversion.Annotations.convert_annotations transfergw.Conversion.Path.convert_path
    transfergw.Conversion.Grpc.default_backend_issue transfergw.Conversion.issue_of
    transfergw.Controller.Apply.apply_route string_eq
deployed = refl

-- An Ingress whose backend has become one of gRPC gets a GRPCRoute, and its HTTPRoute of the same
-- name stays.
stale :
    (deploy stored_world runtime
      (migration "canary" false)
      (ingress "web" (("nginx.ingress.kubernetes.io/backend-protocol", "GRPC") ∷ []) ∷ [])
      (route "web" ∷ [], [])).1
    ≡ (route "web" ∷ [], route "web" ∷ [])
unfolding deploy prune_orphaned_routes transfergw.Controller.Convert.convert_all
    transfergw.Canary.pair transfergw.Canary.route_signature transfergw.Canary.split_pair
    transfergw.Conversion.has_failed transfergw.Conversion.Routes.convert_ingress
    transfergw.Conversion.Grpc.is_grpc_backend string_eq
    transfergw.Conversion.Grpc.convert_grpc_route transfergw.Conversion.Backend.convert_backend
    transfergw.Conversion.Backend.convert_service transfergw.Conversion.issue_of
    transfergw.Controller.Apply.apply_grpc
stale = refl

deploy-IsExact_example :
    let (t, s') =
      deploy stored_world runtime (migration "canary" false) (ingress "web" [] ∷ []) before in
    IsExact stored_world runtime (migration "canary" false) store writes t s'
    ⊎ IsInterrupted stored_world runtime (migration "canary" false) store writes t s'
deploy-IsExact_example =
    deploy-IsExact stored_world runtime (migration "canary" false) store writes
      (ingress "web" [] ∷ []) before
