-- ===== src/Controller/Pruning.antt =====
-- Which routes pruneOrphanedRoutes deletes.
use transfergw.Base.{
  Option-cases, inl, inr, ◌≡◌, refl, sym, ◌∙◌, String, false, not, none, List, [], ◌∷◌, ◌++◌, map,
  filter, All, All-append, contains, string_eq, length, length-append, arith,
}
use transfergw.Kube.{ObjectKey}
use transfergw.Api.{TransferGw, RouteChange}
use transfergw.Env.{Env, Result, ok, err}
use transfergw.Action.{Action}
use transfergw.Controller.Apply.{
  managed_by_label, Pruned, object_text, removed, prune_each, prune_listed, prune_orphaned_routes,
}

-- The keys that are not among the names to keep.
abbrev pub orphans : List String → List ObjectKey → List ObjectKey
orphans desired = filter (λ k. not (contains desired (object_text k.namespace k.name)))

-- The changes name routes that are not to be kept, and are as many as are counted.
abbrev pub IsOrphan : List String → RouteChange → Type 0
IsOrphan desired c = contains desired c.route ≡ false

abbrev pub IsSound : List String → Pruned → Type 0
IsSound desired p = (p.count ≡ length p.changes) × All (IsOrphan desired) p.changes

module _ (E : Env) (desired : List String) where
  prune_each-IsSound :
      (delete : ObjectKey → Action E.State (Unit {0})) (ks : List ObjectKey) (s : E.State)
      → IsSound desired (prune_each E delete desired ks s).0
  unfolding prune_each removed
  prune_each-IsSound delete [] s = ground arith
  prune_each-IsSound delete (k ∷ ks) s =
      ground (arith, prune_each-IsSound delete ks s, prune_each-IsSound delete ks (delete k s).1)

  prune_listed-IsSound :
      (listed : Result (List ObjectKey)) (delete : ObjectKey → Action E.State (Unit {0}))
      (s : E.State)
      → IsSound desired (prune_listed E listed delete desired s).0
  unfolding prune_listed
  prune_listed-IsSound (ok ks) delete s = prune_each-IsSound delete ks s
  prune_listed-IsSound (err e) delete s = ground arith

  -- Whatever the API server answers, pruning reports the removal of no route that is to be kept,
  -- and counts what it reports.
  pub prune_orphaned_routes-IsSound :
      (m : TransferGw E.Float) (s : E.State)
      → IsSound desired (prune_orphaned_routes E m desired s).0
  unfolding prune_orphaned_routes
  prune_orphaned_routes-IsSound m s =
      let labels = (managed_by_label, m.name) ∷ [] in
      let (listed, s₁) = E.list_http_routes labels s in
      let (http, s₂) = prune_listed E listed E.delete_http_route desired s₁ in
      let (listed', s₃) = E.list_grpc_routes labels s₂ in
      let (grpc, _) = prune_listed E listed' E.delete_grpc_route desired s₃ in
      let sound = prune_listed-IsSound listed E.delete_http_route s₁ in
      let sound' = prune_listed-IsSound listed' E.delete_grpc_route s₃ in
      elim (Option-cases http.error) [
        | inr (e, h) ↦ rw (prune_orphaned_routes, h) sound
        | inl h ↦
            rw (prune_orphaned_routes, h)
              (
                omega (arith, sound.0, sound'.0, length-append http.changes grpc.changes),
                All-append _ http.changes grpc.changes sound.1 sound'.1,
              )
      ]

  prune_each_complete :
      (delete : ObjectKey → Action E.State (Unit {0})) (ks : List ObjectKey) (s : E.State)
      → (prune_each E delete desired ks s).0.error ≡ none
      → (prune_each E delete desired ks s).0.changes ≡ map removed (orphans desired ks)
  unfolding prune_each
  prune_each_complete delete [] s h = refl
  prune_each_complete delete (k ∷ ks) s h =
      ground (arith, prune_each_complete delete ks s, prune_each_complete delete ks (delete k s).1)

  prune_listed_complete :
      (listed : Result (List ObjectKey)) (delete : ObjectKey → Action E.State (Unit {0}))
      (s : E.State)
      → (prune_listed E listed delete desired s).0.error ≡ none
      → (ks : List ObjectKey) × (listed ≡ ok ks)
        × ((prune_listed E listed delete desired s).0.changes ≡ map removed (orphans desired ks))
  unfolding prune_listed
  prune_listed_complete (ok ks) delete s h = (ks, refl, prune_each_complete delete ks s h)
  prune_listed_complete (err e) delete s h = cc

  -- The HTTPRoutes are pruned first.
  abbrev http_pruned : TransferGw E.Float → E.State → Pruned × E.State
  http_pruned m s =
      let (listed, s₁) = E.list_http_routes ((managed_by_label, m.name) ∷ []) s in
      prune_listed E listed E.delete_http_route desired s₁

  -- When pruning meets no error, the API server has listed the HTTPRoutes and the GRPCRoutes that
  -- carry the migration's label, and the removals are, in order, exactly those of the listed routes
  -- that are not to be kept.
  pub prune_orphaned_routes_complete :
      (m : TransferGw E.Float) (s : E.State)
      → (prune_orphaned_routes E m desired s).0.error ≡ none
      → (https grpcs : List ObjectKey) × (s' : E.State) × ((E.list_http_routes
            ((managed_by_label, m.name) ∷ [])
            s).0
          ≡ ok https)
        × ((E.list_grpc_routes ((managed_by_label, m.name) ∷ []) s').0 ≡ ok grpcs)
        × ((prune_orphaned_routes E m desired s).0.changes
            ≡ map removed (orphans desired https) ++ map removed (orphans desired grpcs))
  unfolding prune_orphaned_routes
  prune_orphaned_routes_complete m s h =
      let (http, s₂) = http_pruned m s in
      elim (Option-cases http.error) [
        | inr (e, f) ↦ cc (sym f ∙ (rw (prune_orphaned_routes, f) at h))
        | inl f ↦
            let (https, l, c) = prune_listed_complete _ E.delete_http_route _ f in
            let (grpcs, l', c') =
              prune_listed_complete _ E.delete_grpc_route _ (rw (prune_orphaned_routes, f) at h) in
            (https, grpcs, _, l, l', rw (prune_orphaned_routes, f, c, c') refl)
      ]
