-- ===== src/Controller/Storing/Routes.antt =====
-- That pruneOrphanedRoutes leaves in the API server the routes that are to be kept.
use transfergw.Base.{
  Option-cases, inl, inr, ◌⊎◌, ◌≡◌, refl, ap, ◌∙◌, String, none, some, List, string_eq,
}
use transfergw.Api.{TransferGw}
use transfergw.Env.{Env, Error}
use transfergw.Controller.Apply.{prune_orphaned_routes}
use transfergw.Controller.Storing.{kept, RouteStore, labels_of}
use transfergw.Controller.Storing.Loop.{
  prune_kind, prune_kind-kept, prune_kind_clears, prune_kind-Leaves,
}

module _ (E : Env) (desired : List String) (m : TransferGw E.Float)
    (store : RouteStore E (labels_of m.name)) where
  -- The routes of an API server are pruned to those to keep, of both kinds.
  abbrev pub IsPruned : E.State → E.State → Type 0
  IsPruned s s' =
      (store.https s' ≡ kept desired (store.https s))
      × (store.grpcs s' ≡ kept desired (store.grpcs s))

  -- Of the routes to keep, none is gone, none is new, and their order is the same.
  abbrev pub IsSafe : E.State → E.State → Type 0
  IsSafe s s' =
      (kept desired (store.https s') ≡ kept desired (store.https s))
      × (kept desired (store.grpcs s') ≡ kept desired (store.grpcs s))

  -- Against an API server that stores the routes of the label, lists them or fails, and takes a
  -- route away or fails when it is deleted, pruning either reports no error and leaves of the
  -- HTTPRoutes and of the GRPCRoutes exactly those to keep, in their order, or it reports an error
  -- and has taken none of the routes to keep away.
  pub prune_orphaned_routes-kept :
      (s : E.State)
      → let (pruned, s') = prune_orphaned_routes E m desired s in
        ((pruned.error ≡ none) × IsPruned s s')
        ⊎ ((e : Error) × (pruned.error ≡ some e) × IsSafe s s')
  unfolding prune_orphaned_routes
  prune_orphaned_routes-kept s =
      let list = E.list_http_routes (labels_of m.name) in
      let list' = E.list_grpc_routes (labels_of m.name) in
      let (http, s₁) =
        prune_kind E desired E.delete_http_route store.https store.deletes_https list s in
      let (grpc, s₂) =
        prune_kind E desired E.delete_grpc_route store.grpcs store.deletes_grpcs list' s₁ in
      let https =
        prune_kind-kept E desired E.delete_http_route store.https store.deletes_https list
          store.list_leaves_https s in
      let grpcs =
        prune_kind-Leaves E desired E.delete_http_route store.https store.deletes_https store.grpcs
          list store.delete_leaves_grpcs store.list_leaves_grpcs s in
      let https' =
        prune_kind-Leaves E desired E.delete_grpc_route store.grpcs store.deletes_grpcs store.https
          list' store.delete_grpcs_leaves_https store.list_grpcs_leaves_https s₁ in
      let grpcs' =
        prune_kind-kept E desired E.delete_grpc_route store.grpcs store.deletes_grpcs list'
          store.list_grpcs_leaves_grpcs s₁
        ∙ ap (kept desired) grpcs in
      elim (Option-cases http.error) [
        | inr (e, f) ↦ rw (prune_orphaned_routes, f) (inr (e, f, (https, ap (kept desired) grpcs)))
        | inl f ↦
            let cleared =
              prune_kind_clears E desired E.delete_http_route store.https store.deletes_https list
                store.list_leaves_https store.lists_https s f in
            elim (Option-cases grpc.error) [
              | inr (e, g) ↦
                  rw (prune_orphaned_routes, f)
                    (inr (e, g, (ap (kept desired) https' ∙ https, grpcs')))
              | inl g ↦
                  rw (prune_orphaned_routes, f, g)
                    (inl (
                      refl,
                      (
                        https' ∙ cleared,
                        prune_kind_clears E desired E.delete_grpc_route store.grpcs
                              store.deletes_grpcs list' store.list_grpcs_leaves_grpcs
                              store.lists_grpcs s₁ g
                            ∙ ap (kept desired) grpcs,
                      ),
                    ))
            ]
      ]
