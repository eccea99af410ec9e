-- ===== src/Preview/Gateways.antt =====
-- The Gateway that cmd/preview/main.go prints beside the one that a reconcile stores.
use transfergw.Base.{
  String, ◌<>◌, ◌≡◌, ◌∙◌, inl, inr, refl, sym, ap, Option-cases, true, some, List, [], ◌∷◌, ◌++◌,
  length, string_eq, if◌then◌else◌, arith,
}
use mathlib.Core.List.{append_assoc, append-nil}
use transfergw.Base.Text.{decimal}
use transfergw.Base.Int.{ℤ, pos}
use transfergw.Kube.{Ingress, ObjectKey}
use transfergw.Gateway.{GatewaySpec}
use transfergw.Api.{TransferGw}
use transfergw.Env.{Env, Result, OperationResult, ok, err}
use transfergw.Action.{Action, ◌>>=◌, ◌>>◌, return, wrap, wrap_result, Result-cases}
use transfergw.Conversion.{ConversionResult}
use transfergw.Validator.{target_namespace, gateway_name}
use transfergw.Controller.{Runtime}
use transfergw.Controller.Apply.{mutate_gateway, ensure_gateway}
use transfergw.Controller.Reconcile.{prepare_gateway}
use transfergw.Preview.{
  Printing, Document, gateway, http_route, document, out, note, Line, Shell, notes_of,
  gateway_document, print, print_yaml, print_result, preview_one, preview_each, preview_gateway,
  preview_selected,
}
use transfergw.Preview.Stored.{SpecStore, gateway_document-mutate_gateway}

module _ (E : Env) (rt : Runtime) (sh : Shell E.Float) (m : TransferGw E.Float) where
  -- What is printed before stays, and more comes behind it.
  abbrev Extends : List Line → List Line → Type 0
  Extends printed lines = (rest : List Line) × (lines ≡ printed ++ rest)

  Extends-trans : (a b c : List Line) → Extends a b → Extends b c → Extends a c
  Extends-trans a b c (x, e) (y, f) = (x ++ y, f ∙ ap (λ l. l ++ y) e ∙ append_assoc a x y)

  abbrev Prints : Action (Printing E rt sh) (Unit {0}) → Type 0
  Prints f = (s : E.State) (printed : List Line) → Extends printed (f (s, printed)).1.1

  Prints-then : (f g : Action (Printing E rt sh) (Unit {0})) → Prints f → Prints g → Prints (f >> g)
  Prints-then f g p q s printed =
      let (r, (s', lines)) = f (s, printed) in
      elim r
        as (λ r.
          Extends printed
            (elim r as (λ _. Result (Unit {0}) × Printing E rt sh) [
              | ok a ↦ g (s', lines)
              | err e ↦ (err e, (s', lines))
            ]).1.1) [
              | ok a ↦ Extends-trans printed lines (g (s', lines)).1.1 (p s printed) (q s' lines)
              | err e ↦ p s printed
            ]

  print_result-Extends :
      (r : ConversionResult) (s : E.State) (printed : List Line)
      → Extends printed (print_result E rt sh r (s, printed)).1.1
  unfolding print_result print print_yaml wrap_result
  print_result-Extends r s printed = elim (Option-cases r.route) [
    | inl e ↦ rw (e, print_result) (notes_of r.issues, refl)
    | inr (route, e) ↦ elim (Result-cases (sh.marshal (http_route route))) [
      | inr (x, f) ↦
          rw (e, print_result) (rw (f, print_yaml, wrap_result) (notes_of r.issues, refl))
      | inl (y, f) ↦
          rw (e, print_result)
            (rw (f, print_yaml, wrap_result)
              (
                notes_of r.issues ++ (document (http_route route) ∷ []),
                append_assoc printed (notes_of r.issues) (document (http_route route) ∷ []),
              ))
    ]
  ]

  preview_one-Prints : (ing : Ingress) → Prints (preview_one E rt sh m ing)
  unfolding preview_one
  preview_one-Prints ing s printed = print_result-Extends _ _ printed

  preview_each-Prints : (ingresses : List Ingress) → Prints (preview_each E rt sh m ingresses)
  unfolding preview_each
  preview_each-Prints [] s printed = ([], sym (append-nil printed))
  preview_each-Prints (ing ∷ rest) s printed =
      Prints-then (preview_one E rt sh m ing) (preview_each E rt sh m rest) (preview_one-Prints ing)
        (preview_each-Prints rest) s printed

  -- Behind a first part of the lines, the document of a Gateway.
  abbrev pub PrintsGateway : List Line → ObjectKey → GatewaySpec → List Line → Type 0
  PrintsGateway before k spec lines =
      (rest : List Line) × (lines
        ≡ (before ++ document (gateway k.namespace k.name spec) ∷ []) ++ rest)

  -- What is printed of a Gateway: of an empty selection none, and of any other one document.
  abbrev pub ShowsGateway : List Ingress → List Line → ObjectKey → GatewaySpec → List Line → Type 0
  ShowsGateway [] printed k spec lines =
      lines ≡ printed ++ out "# No Ingress resources matched this selector." ∷ []
  ShowsGateway (ing ∷ rest) printed k spec lines =
      PrintsGateway
        (printed
          ++ note ("# " <> (decimal (length (ing ∷ rest)) <> " Ingress(es) matched the selector"))
            ∷ [])
        k spec lines

  then-ok :
      (f g : Action (Printing E rt sh) (Unit {0})) (x y : Printing E rt sh)
      → f x ≡ (ok tt, y)
      → (f >> g) x ≡ g y
  then-ok f g x y h =
      ap
        (λ (r : Result (Unit {0}) × Printing E rt sh).
          elim r.0 as (λ _. Result (Unit {0}) × Printing E rt sh) [
            | ok a ↦ g r.1
            | err e ↦ (err e, r.1)
          ])
        h

  preview_gateway_lem :
      (ingresses : List Ingress) (s : E.State) (lines : List Line) (d : Document) (yaml : String)
      → m.spec.conversion.generate_gateway ≡ true
      → gateway_document m ingresses ≡ d
      → sh.marshal (gateway_document m ingresses) ≡ ok yaml
      → preview_gateway E rt sh m ingresses (s, lines) ≡ (ok tt, (s, lines ++ document d ∷ []))
  unfolding preview_gateway print_yaml print wrap_result
  preview_gateway_lem ingresses s lines d yaml g e y =
      ap
        (λ b.
          (if b then print_yaml E rt sh (gateway_document m ingresses) else return tt) (s, lines))
        g
      ∙ rw (y, print_yaml, wrap_result) (rw e refl)

  preview_selected-ShowsGateway :
      (ingresses : List Ingress) (s : E.State) (printed : List Line) (k : ObjectKey)
      (spec : GatewaySpec) (yaml : String)
      → m.spec.conversion.generate_gateway ≡ true
      → gateway_document m ingresses ≡ gateway k.namespace k.name spec
      → sh.marshal (gateway_document m ingresses) ≡ ok yaml
      → ShowsGateway ingresses printed k spec
          (preview_selected E rt sh m ingresses (s, printed)).1.1
  unfolding preview_selected preview_gateway print
  preview_selected-ShowsGateway [] s printed k spec yaml g d y = refl
  preview_selected-ShowsGateway (ing ∷ rest) s printed k spec yaml g d y =
      let lines =
        printed
        ++ note ("# " <> (decimal (length (ing ∷ rest)) <> " Ingress(es) matched the selector"))
          ∷ [] in
      let (more, e) =
        preview_each-Prints (ing ∷ rest) s
          (lines ++ document (gateway k.namespace k.name spec) ∷ []) in
      (
        more,
        ap (λ (r : Result (Unit {0}) × Printing E rt sh). r.1.1)
              (then-ok (preview_gateway E rt sh m (ing ∷ rest))
                (preview_each E rt sh m (ing ∷ rest)) (s, lines) _
                (preview_gateway_lem (ing ∷ rest) s lines (gateway k.namespace k.name spec) yaml g d
                  y))
            ∙ e,
      )

  prepare_gateway_state :
      (ingresses : List Ingress) (s : E.State) (op : OperationResult)
      → m.spec.conversion.generate_gateway ≡ true
      → (ensure_gateway E m (gateway_name m) (target_namespace m) ingresses s).0 ≡ ok op
      → (prepare_gateway E rt m ingresses s).1
        ≡ (ensure_gateway E m (gateway_name m) (target_namespace m) ingresses s).1
  unfolding prepare_gateway wrap_result
  prepare_gateway_state ingresses s op g e =
      let apply : Action E.State ℤ =
        wrap "ensuring gateway" (ensure_gateway E m (gateway_name m) (target_namespace m) ingresses)
        >>= λ op. return (pos 1) in
      ap (λ b. ((if b then apply else return (pos 0)) s).1) g ∙ ground (arith, e)

  -- Where the API server stores Gateways and the preview can print the one of the migration: if
  -- the reconcile of a migration that generates a Gateway has applied it, the API server stores a
  -- Gateway under some key with some spec, and of the same selection the preview prints the
  -- Gateway with that namespace, that name and that spec behind its first line; of an empty
  -- selection it prints none.
  pub prepare_gateway-ShowsGateway :
      (store : SpecStore E) (ingresses : List Ingress) (s : E.State) (n : ℤ) (printed : List Line)
      (yaml : String)
      → m.spec.conversion.generate_gateway ≡ true
      → sh.marshal (gateway_document m ingresses) ≡ ok yaml
      → (prepare_gateway E rt m ingresses s).0 ≡ ok n
      → (k : ObjectKey) × (spec : GatewaySpec) × (store.gateway_at k
            (prepare_gateway E rt m ingresses s).1
          ≡ some spec)
        × ShowsGateway ingresses printed k spec
            (preview_selected E rt sh m ingresses (s, printed)).1.1
  unfolding prepare_gateway ensure_gateway wrap_result
  prepare_gateway-ShowsGateway store ingresses s n printed yaml g y h =
      let k : ObjectKey = record { namespace = target_namespace m; name = gateway_name m } in
      let f = mutate_gateway E m (target_namespace m) ingresses in
      elim (Result-cases (E.apply_gateway k f s).0) [
        | inr (x, e) ↦ absurd (ground (arith, h, g))
        | inl (op, e) ↦
            let (o, o', made, kept) = store.stores_gateway k f s op e in
            (
              k,
              o'.spec,
              ap (store.gateway_at k) (prepare_gateway_state ingresses s op g e) ∙ kept,
              preview_selected-ShowsGateway ingresses s printed k o'.spec yaml g
                  (gateway_document-mutate_gateway E m (target_namespace m) ingresses o o' made) y,
            )
      ]
