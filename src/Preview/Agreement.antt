-- ===== src/Preview/Agreement.antt =====
-- The HTTPRoutes that cmd/preview/main.go prints beside those that the loop of a reconcile stores.
use transfergw.Base.{
  String, ◌≡◌, ◌≢◌, ◌∙◌, inl, inr, refl, ap, Bool-cases, Option-cases, false, none, some, List, [],
  ◌∷◌, ◌++◌, contains, string_eq, arith,
}
use transfergw.Base.Dict.{lookup}
use transfergw.Kube.{Ingress, ObjectKey}
use transfergw.Translator.{Issue}
use transfergw.Gateway.{HttpRouteRule, HttpRoute}
use transfergw.Api.{TransferGw}
use transfergw.Env.{Env, ok}
use transfergw.Action.{wrap_result, Result-cases}
use transfergw.Conversion.{Options, key, ConversionResult, has_failed}
use transfergw.Conversion.Grpc.{is_grpc_backend}
use transfergw.Conversion.Routes.{convert_ingress, convert_http_route, finish_http}
use transfergw.Canary.{Pairs}
use transfergw.Controller.{Runtime}
use transfergw.Controller.Apply.{object_text, mutate_route, apply_route}
use transfergw.Controller.Convert.{
  Tally, convert, convert_one, route_step, http_step, apply_http_step, add_issues, to_status_issues,
}
use transfergw.Controller.Reconcile.{convert_options}
use transfergw.Preview.{
  http_route, document, Line, Shell, notes_of, print, print_yaml, preview_options, print_result,
  preview_one,
}
use transfergw.Preview.Stored.{SpecStore, spec-mutate_route}

finish_http_plain :
    {S : Type 0} (ing : Ingress) (opts : Options S) (issues : List Issue)
    (rules : List HttpRouteRule)
    → (finish_http ing opts issues rules).grpc_route ≡ none
unfolding finish_http
finish_http_plain ing opts issues [] = refl
finish_http_plain ing opts issues (r ∷ rs) = refl

module _ (E : Env) (rt : Runtime) (sh : Shell E.Float) (m : TransferGw E.Float) where
  abbrev at : HttpRoute → ObjectKey
  at route = record { namespace = route.namespace; name = route.name }

  -- A route that is stored with its spec, and listed to keep.
  abbrev pub StoresRoute : SpecStore E → List String → HttpRoute → Tally × E.State → Type 0
  StoresRoute store desired route r =
      (store.http_route_at (record { namespace = route.namespace; name = route.name }) r.1
        ≡ some route.spec)
      × (r.0.desired ≡ object_text route.namespace route.name ∷ desired)

  apply_http_step-StoresRoute :
      (store : SpecStore E) (ing : Ingress) (route : HttpRoute) (t : Tally) (s : E.State)
      → (apply_http_step E rt m (convert_options E m) ing route t s).0.desired ≢ t.desired
      → StoresRoute store t.desired route
          (apply_http_step E rt m (convert_options E m) ing route t s)
  unfolding apply_http_step apply_route
  apply_http_step-StoresRoute store ing route t s new =
      let k : ObjectKey = record { namespace = route.namespace; name = route.name } in
      let f = mutate_route E m route.namespace route.name route.spec in
      elim (Result-cases (E.apply_http_route k f s).0) [
        | inr (x, e) ↦ absurd (new (rw (apply_http_step, e) refl))
        | inl (op, e) ↦
            let (o, o', made, kept) = store.stores_http_route k f s op e in
            let spec = spec-mutate_route E m route.namespace route.name route.spec o o' made in
            rw (apply_http_step, e) (kept ∙ ap some spec, refl)
      ]

  -- What the loop makes of a conversion of an Ingress that is in no canary pair, if it lists a route
  -- to keep.
  route_step-StoresRoute :
      (store : SpecStore E) (pairs : Pairs) (ing : Ingress) (result : ConversionResult) (t : Tally)
      (s : E.State)
      → lookup (key ing) pairs.for_primary ≡ none
      → result.grpc_route ≡ none
      → (route_step E rt m (convert_options E m) pairs ing result t s).0.desired ≢ t.desired
      → (route : HttpRoute) × (result.route ≡ some route)
        × StoresRoute store t.desired route
            (route_step E rt m (convert_options E m) pairs ing result t s)
  unfolding route_step http_step
  route_step-StoresRoute store pairs ing result t s solo plain new =
      elim (Bool-cases (has_failed result)) [
        | inl bad ↦ absurd (new (rw (bad, route_step) refl))
        | inr good ↦ elim (Option-cases result.route) [
          | inl e ↦ absurd (new (rw (good, route_step) (rw (plain, e) refl)))
          | inr (route, e) ↦
              let step : route_step E rt m (convert_options E m) pairs ing result t s
                  ≡ apply_http_step E rt m (convert_options E m) ing route t s =
                rw (good, route_step) (rw (plain, e) (rw (solo, http_step) refl)) in
              let stored =
                apply_http_step-StoresRoute store ing route t s
                  (λ h. new (ap (λ (r : Tally × E.State). r.0.desired) step ∙ h)) in
              (
                route,
                e,
                (
                  ap (λ (r : Tally × E.State). store.http_route_at (at route) r.1) step ∙ stored.0,
                  ap (λ (r : Tally × E.State). r.0.desired) step ∙ stored.1,
                ),
              )
        ]
      ]

  print_result_shown :
      (r : ConversionResult) (s : E.State) (printed : List Line) (route : HttpRoute)
      → r.route ≡ some route
      → (print_result E rt sh r (s, printed)).0 ≡ ok tt
      → (print_result E rt sh r (s, printed)).1.1
        ≡ (printed ++ notes_of r.issues) ++ document (http_route route) ∷ []
  unfolding print_result print print_yaml wrap_result
  print_result_shown r s printed route e h = elim (Result-cases (sh.marshal (http_route route))) [
    | inl (y, f) ↦ rw (e, print_result) (rw (f, print_yaml, wrap_result) refl)
    | inr (x, f) ↦
        let h' = rw (f, print_yaml, wrap_result) at (rw (e, print_result) at h) in
        absurd (ground (arith, h'))
  ]

  preview_one_lem :
      (ing : Ingress) (s : E.State) (printed : List Line) (route : HttpRoute)
      → (convert E rt m (convert_options E m) ing s).0.route ≡ some route
      → (preview_one E rt sh m ing (s, printed)).0 ≡ ok tt
      → (preview_one E rt sh m ing (s, printed)).1.1
        ≡ (printed ++ notes_of (convert E rt m (convert_options E m) ing s).0.issues)
          ++ document (http_route route) ∷ []
  unfolding preview_one preview_options convert_options convert
  preview_one_lem ing s printed route e h = print_result_shown _ _ printed route e h

  convert_plain :
      (ing : Ingress) (s : E.State)
      → is_grpc_backend ing ≡ false
      → (convert E rt m (convert_options E m) ing s).0.grpc_route ≡ none
  unfolding convert convert_ingress convert_http_route
  convert_plain ing s http =
      rw (http, convert_ingress) (finish_http_plain ing (convert_options E m) _ _)

  -- Where the API server stores HTTPRoutes: if the loop of a reconcile lists a route to keep for an
  -- Ingress that is in no canary pair and has no gRPC backend, and the preview of that Ingress in
  -- the same state of the world ends without an error, then the API server stores the route under
  -- its name with the spec of the HTTPRoute that the preview has printed, behind the issues of the
  -- conversion, and that name is the one listed.
  pub preview_one-convert_one :
      (store : SpecStore E) (pairs : Pairs) (ing : Ingress) (t : Tally) (s : E.State)
      (printed : List Line)
      → contains pairs.names (key ing) ≡ false
      → lookup (key ing) pairs.for_primary ≡ none
      → is_grpc_backend ing ≡ false
      → (convert_one E rt m (convert_options E m) pairs ing t s).0.desired ≢ t.desired
      → (preview_one E rt sh m ing (s, printed)).0 ≡ ok tt
      → (route : HttpRoute) × StoresRoute store t.desired route
          (convert_one E rt m (convert_options E m) pairs ing t s)
        × ((preview_one E rt sh m ing (s, printed)).1.1
            ≡ (printed ++ notes_of (convert E rt m (convert_options E m) ing s).0.issues)
              ++ document (http_route route) ∷ [])
  unfolding convert_one add_issues
  preview_one-convert_one store pairs ing t s printed single solo http new shown =
      let (result, s') = convert E rt m (convert_options E m) ing s in
      let t' = add_issues (to_status_issues result.issues) t in
      let step : convert_one E rt m (convert_options E m) pairs ing t s
          ≡ route_step E rt m (convert_options E m) pairs ing result t' s' =
        rw (single, convert_one) refl in
      let (route, e, stored) =
        route_step-StoresRoute store pairs ing result t' s' solo (convert_plain ing s http)
          (λ h. new (ap (λ (r : Tally × E.State). r.0.desired) step ∙ h)) in
      (
        route,
        (
          ap (λ (r : Tally × E.State). store.http_route_at (at route) r.1) step ∙ stored.0,
          ap (λ (r : Tally × E.State). r.0.desired) step ∙ stored.1,
        ),
        preview_one_lem ing s printed route e shown,
      )
