-- ===== src/Controller/Storing/Exact.antt =====
-- That the routes that are stored after a loop over the Ingresses and a pruning are those of the
-- Ingresses that were converted.
use transfergw.Base.Int.{pos}
use transfergw.Base.{
  ◌⊎◌, inl, inr, ◌≡◌, refl, String, some, ◌&&◌, List, [], ◌∷◌, map, contains, string_eq, arith,
}
use transfergw.Kube.{ObjectKey, Ingress}
use transfergw.Api.{TransferGw}
use transfergw.Env.{Env, Error}
use transfergw.Conversion.{Options}
use transfergw.Controller.{Runtime}
use transfergw.Controller.Apply.{resolve_service_port, prune_orphaned_routes}
use transfergw.Controller.Convert.{Tally, convert_all}
use transfergw.Controller.Reconcile.{deploy, annotation_policy}
use transfergw.Validator.{gateway_name, target_namespace}
use transfergw.Canary.{pair}
use transfergw.Overlap.{check}
use transfergw.Controller.Storing.{RouteStore, labels_of, kept}
use transfergw.Controller.Storing.Routes.{IsPruned, IsSafe, prune_orphaned_routes-kept}
use transfergw.Controller.Storing.Applied.{
  text_of, is_stored, AllStored, RouteWrites, convert_all-AllStored,
}

kept-contains :
    (desired : List String) (xs : List ObjectKey) (text : String)
    → contains (map text_of (kept desired xs)) text
      ≡ (contains (map text_of xs) text && contains desired text)
kept-contains desired [] text = refl
kept-contains desired (x ∷ xs) text = elim (string_eq.dec (text_of x) text) [
  | yes e ↦ ground (arith, kept-contains desired xs text, e)
  | no n ↦ ground (arith, kept-contains desired xs text, n)
]

module _ (E : Env) (m : TransferGw E.Float) (store : RouteStore E (labels_of m.name)) where
  IsPruned-stored :
      (t : Tally) (s s' : E.State)
      → AllStored E m.name store t s
      → IsPruned E t.desired m store s s'
      → (text : String) → is_stored E m.name store text s' ≡ contains t.desired text
  IsPruned-stored t s s' all (https, grpcs) text =
      rw (https, grpcs)
        (ground (
          arith,
          all text,
          kept-contains t.desired (store.https s) text,
          kept-contains t.desired (store.grpcs s) text,
        ))

  IsSafe-AllStored :
      (t : Tally) (s s' : E.State)
      → AllStored E m.name store t s
      → IsSafe E t.desired m store s s'
      → AllStored E m.name store t s'
  IsSafe-AllStored t s s' all (https, grpcs) text c = ground (
    arith,
    all text c,
    https,
    grpcs,
    kept-contains t.desired (store.https s) text,
    kept-contains t.desired (store.grpcs s) text,
    kept-contains t.desired (store.https s') text,
    kept-contains t.desired (store.grpcs s') text,
  )

module _ (E : Env) (rt : Runtime) (m : TransferGw E.Float) (store : RouteStore E (labels_of m.name))
    (writes : RouteWrites E m.name store) where
  -- The routes that are stored are those that the tally has to keep.
  abbrev pub IsExact : Tally → E.State → Type 0
  IsExact t s = (text : String) → is_stored E m.name store text s ≡ contains t.desired text

  -- The tally's routes were pruned, with an error, and are all stored.
  abbrev pub IsInterrupted : Tally → E.State → Type 0
  IsInterrupted t s' =
      (e : Error) × (s : E.State) × ((prune_orphaned_routes E m t.desired s).0.error ≡ some e)
      × ((prune_orphaned_routes E m t.desired s).1 ≡ s')
      × AllStored E m.name store t s'

  -- Where the API server stores the routes of the migration's label and nobody else writes them,
  -- the loop over the Ingresses and the pruning behind it end, when the pruning meets no error,
  -- with routes stored of exactly the namespaces and names that the loop lists to keep, whatever
  -- their kind; when it does, a route of each of those is still stored.
  pub deploy-IsExact :
      (ingresses : List Ingress) (s : E.State)
      → let (t, s') = deploy E rt m ingresses s in IsExact t s' ⊎ IsInterrupted t s'
  unfolding deploy
  deploy-IsExact ingresses s =
      let opts : Options E.State = record {
        gateway_name = gateway_name m;
        gateway_namespace = target_namespace m;
        annotation_policy = annotation_policy m.spec.conversion.annotation_policy;
        port_resolver = some (resolve_service_port E);
      } in
      let pairs = pair rt.canary_order ingresses in
      let fresh : Tally = record {
        issues = check rt.overlap_order ingresses pairs.names;
        converted = pos 0;
        failed = pos 0;
        desired = [];
        route_changes = [];
      } in
      let (t, s₁) = convert_all E rt m opts pairs ingresses fresh s in
      let all =
        convert_all-AllStored E rt m opts store writes refl pairs ingresses fresh s
          (λ text c. ground (arith, c)) in
      elim (prune_orphaned_routes-kept E t.desired m store s₁) [
        | inl (_, pruned) ↦ inl (IsPruned-stored E m store t s₁ _ all pruned)
        | inr (e, q, safe) ↦ inr (e, s₁, q, refl, IsSafe-AllStored E m store t s₁ _ all safe)
      ]
