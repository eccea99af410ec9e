-- ===== src/Controller/Storing/Applied.antt =====
-- That the loop over the Ingresses stores the routes that it adds to those to keep.
use transfergw.Base.{
  Bool-cases, Option-cases, inl, inr, ◌≡◌, refl, sym, String, Bool, true, some, ◌||◌, List, [], ◌∷◌,
  map, contains, string_eq, arith,
}
use transfergw.Base.Dict.{lookup}
use transfergw.Kube.{ObjectKey, Ingress}
use transfergw.Gateway.{HttpRoute, GrpcRoute, HttpRouteSpec, GrpcRouteSpec}
use transfergw.Api.{TransferGw}
use transfergw.Env.{Env, Managed, OperationResult, Result, ok}
use transfergw.Action.{Result-cases}
use transfergw.Conversion.{Options, ConversionResult, has_failed, key}
use transfergw.Conversion.World.{convert_ingress-keeps}
use transfergw.Canary.{Pairs}
use transfergw.Controller.{Runtime}
use transfergw.Controller.Apply.{
  managed_by_label, object_text, resolve_service_port, mutate_route, apply_route, apply_grpc,
}
use transfergw.Controller.Convert.{
  Tally, add_issues, count_failed, applied, merge_canary, convert, apply_grpc_step, apply_http_step,
  to_status_issues, http_step, route_step, convert_one, convert_all,
}
use transfergw.Controller.Counting.{merge_canary-kept}
use transfergw.Controller.Sharing.{mutate_route_label}
use transfergw.Controller.Storing.{RouteStore, labels_of}

abbrev pub text_of : ObjectKey → String
text_of k = object_text k.namespace k.name

-- A mutate function that gives a route the label of a migration.
abbrev pub Labels : {Spec : Type 0} → String → (Managed Spec → Result (Managed Spec)) → Type 0
Labels {Spec} name f =
    (o o' : Managed Spec) → f o ≡ ok o' → lookup managed_by_label o'.labels ≡ some name

module _ (E : Env) (name : String) (store : RouteStore E (labels_of name)) where
  -- Whether a route of that text is stored, of either kind.
  abbrev pub is_stored : String → E.State → Bool
  is_stored text s =
      contains (map text_of (store.https s)) text || contains (map text_of (store.grpcs s)) text

  abbrev pub Keeps : {A : Type 0} → (E.State → A × E.State) → Type 0
  Keeps call =
      (text : String) (s : E.State) → is_stored text s ≡ true → is_stored text (call s).1 ≡ true

  -- What the API server does to the stored routes when one is written with the label, or when a
  -- Service is read.
  pub record RouteWrites : Type 0 where
    pub http_adds :
        (k : ObjectKey) (f : Managed HttpRouteSpec → Result (Managed HttpRouteSpec))
        (op : OperationResult) (s : E.State)
        → Labels name f
        → (E.apply_http_route k f s).0 ≡ ok op
        → is_stored (text_of k) (E.apply_http_route k f s).1 ≡ true
    pub grpc_adds :
        (k : ObjectKey) (f : Managed GrpcRouteSpec → Result (Managed GrpcRouteSpec))
        (op : OperationResult) (s : E.State)
        → Labels name f
        → (E.apply_grpc_route k f s).0 ≡ ok op
        → is_stored (text_of k) (E.apply_grpc_route k f s).1 ≡ true
    pub http_keeps :
        (k : ObjectKey) (f : Managed HttpRouteSpec → Result (Managed HttpRouteSpec))
        → Labels name f
        → Keeps (E.apply_http_route k f)
    pub grpc_keeps :
        (k : ObjectKey) (f : Managed GrpcRouteSpec → Result (Managed GrpcRouteSpec))
        → Labels name f
        → Keeps (E.apply_grpc_route k f)
    pub service_keeps : (k : ObjectKey) → Keeps (E.get_service k)

  -- Every route that is to be kept is stored.
  abbrev pub AllStored : Tally → E.State → Type 0
  AllStored t s = (text : String) → contains t.desired text ≡ true → is_stored text s ≡ true

  Added-stored :
      (name' text : String) (desired : List String) (s : E.State)
      → is_stored name' s ≡ true
      → (contains desired text ≡ true → is_stored text s ≡ true)
      → contains (name' ∷ desired) text ≡ true
      → is_stored text s ≡ true
  Added-stored name' text desired s a h c = elim (string_eq.dec name' text) [
    | yes e ↦ rw (sym e) a
    | no n ↦ h (ground (arith, c, n))
  ]

module _ (E : Env) (rt : Runtime) (m : TransferGw E.Float) (opts : Options E.State)
    (store : RouteStore E (labels_of m.name)) (writes : RouteWrites E m.name store)
    (resolver : opts.port_resolver ≡ some (resolve_service_port E)) where
  resolve-keeps :
      (text namespace service port : String) (s : E.State)
      → is_stored E m.name store text s ≡ true
      → is_stored E m.name store text (resolve_service_port E namespace service port s).1 ≡ true
  unfolding resolve_service_port
  resolve-keeps text namespace service port s h = writes.service_keeps _ text s h

  convert-Keeps : (ing : Ingress) → Keeps E m.name store (convert E rt m opts ing)
  unfolding convert
  convert-Keeps ing text s h =
      convert_ingress-keeps (is_stored E m.name store text) (resolve_service_port E)
        (resolve-keeps text) rt.translators rt.parse_url ing opts s resolver h

  apply_http_step-AllStored :
      (ing : Ingress) (route : HttpRoute) (t : Tally) (s : E.State)
      → AllStored E m.name store t s
      → let (t', s') = apply_http_step E rt m opts ing route t s in AllStored E m.name store t' s'
  unfolding apply_http_step apply_route add_issues count_failed applied
  apply_http_step-AllStored ing route t s h text =
      let k : ObjectKey = record { namespace = route.namespace; name = route.name } in
      let f = mutate_route E m route.namespace route.name route.spec in
      let labels : Labels m.name f = mutate_route_label E m route.namespace route.name route.spec in
      elim (Result-cases (E.apply_http_route k f s).0) [
        | inl (op, r) ↦
            rw (apply_http_step, apply_route, applied, r)
              (Added-stored E m.name store (text_of k) text t.desired _
                (writes.http_adds k f op s labels r)
                (λ c. writes.http_keeps k f labels text s (h text c)))
        | inr (e, r) ↦
            rw (apply_http_step, apply_route, r, count_failed, add_issues)
              (λ c. writes.http_keeps k f labels text s (h text c))
      ]

  apply_grpc_step-AllStored :
      (ing : Ingress) (route : GrpcRoute) (t : Tally) (s : E.State)
      → AllStored E m.name store t s
      → let (t', s') = apply_grpc_step E rt m opts ing route t s in AllStored E m.name store t' s'
  unfolding apply_grpc_step apply_grpc add_issues count_failed applied
  apply_grpc_step-AllStored ing route t s h text =
      let k : ObjectKey = record { namespace = route.namespace; name = route.name } in
      let f = mutate_route E m route.namespace route.name route.spec in
      let labels : Labels m.name f = mutate_route_label E m route.namespace route.name route.spec in
      elim (Result-cases (E.apply_grpc_route k f s).0) [
        | inl (op, r) ↦
            rw (apply_grpc_step, apply_grpc, applied, r)
              (Added-stored E m.name store (text_of k) text t.desired _
                (writes.grpc_adds k f op s labels r)
                (λ c. writes.grpc_keeps k f labels text s (h text c)))
        | inr (e, r) ↦
            rw (apply_grpc_step, apply_grpc, r, count_failed, add_issues)
              (λ c. writes.grpc_keeps k f labels text s (h text c))
      ]

  -- What keeps the routes of a tally stored keeps those of another with the same routes.
  AllStored-later :
      {A : Type 0} (call : E.State → A × E.State) (t t' : Tally) (s : E.State)
      → Keeps E m.name store call
      → t'.desired ≡ t.desired
      → AllStored E m.name store t s
      → AllStored E m.name store t' (call s).1
  AllStored-later call t t' s keeps e h text c = keeps text s (h text (rw e at c))

  http_step-AllStored :
      (pairs : Pairs) (ing : Ingress) (route : HttpRoute) (t : Tally) (s : E.State)
      → AllStored E m.name store t s
      → let (t', s') = http_step E rt m opts pairs ing route t s in AllStored E m.name store t' s'
  unfolding http_step
  http_step-AllStored pairs ing route t s h =
      elim (Option-cases (lookup (key ing) pairs.for_primary)) [
        | inl e ↦ rw (e, http_step) (apply_http_step-AllStored ing route t s h)
        | inr (p, e) ↦
            let (result, s') = convert E rt m opts p.ingress s in
            let (route', t') = merge_canary ing p route result t in
            rw (e, http_step)
              (apply_http_step-AllStored ing route' t' s' (
                AllStored-later (convert E rt m opts p.ingress) t t' s (convert-Keeps p.ingress)
                  (merge_canary-kept ing p route result t).1 h))
      ]

  route_step-AllStored :
      (pairs : Pairs) (ing : Ingress) (result : ConversionResult) (t : Tally) (s : E.State)
      → AllStored E m.name store t s
      → let (t', s') = route_step E rt m opts pairs ing result t s in AllStored E m.name store t' s'
  unfolding route_step count_failed
  route_step-AllStored pairs ing result t s stored = elim (Bool-cases (has_failed result)) [
    | inl h ↦ rw (route_step, h) stored
    | inr h ↦ elim (Option-cases result.grpc_route) [
      | inr (g, h') ↦ rw (route_step, h, h') (apply_grpc_step-AllStored ing g t s stored)
      | inl h' ↦ elim (Option-cases result.route) [
        | inl h'' ↦ rw (route_step, h, h', h'') stored
        | inr (r, h'') ↦ rw (route_step, h, h', h'') (http_step-AllStored pairs ing r t s stored)
      ]
    ]
  ]

  convert_one-AllStored :
      (pairs : Pairs) (ing : Ingress) (t : Tally) (s : E.State)
      → AllStored E m.name store t s
      → let (t', s') = convert_one E rt m opts pairs ing t s in AllStored E m.name store t' s'
  unfolding convert_one add_issues
  convert_one-AllStored pairs ing t s h =
      let (result, s') = convert E rt m opts ing s in
      let t' = add_issues (to_status_issues result.issues) t in
      elim (Bool-cases (contains pairs.names (key ing))) [
        | inl c ↦ rw (convert_one, c) h
        | inr c ↦
            rw (convert_one, c)
              (route_step-AllStored pairs ing result t' s'
                (AllStored-later (convert E rt m opts ing) t t' s (convert-Keeps ing) refl h))
      ]

  pub convert_all-AllStored :
      (pairs : Pairs) (ings : List Ingress) (t : Tally) (s : E.State)
      → AllStored E m.name store t s
      → let (t', s') = convert_all E rt m opts pairs ings t s in AllStored E m.name store t' s'
  unfolding convert_all
  convert_all-AllStored pairs [] t s h = h
  convert_all-AllStored pairs (ing ∷ rest) t s h =
      convert_all-AllStored pairs rest _ _ (convert_one-AllStored pairs ing t s h)
