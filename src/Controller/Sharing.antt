-- ===== src/Controller/Sharing.antt =====
-- Whose routes a migration prunes: the label that routes carry is the name of their migration,
-- without its namespace.
use transfergw.Base.{◌≡◌, refl, ap, ◌∙◌, String, List, some, string_eq, arith}
use transfergw.Base.Dict.{lookup, insert, lookup-insert}
use transfergw.Api.{TransferGw}
use transfergw.Env.{Env, Managed, ok}
use transfergw.Controller.Apply.{
  managed_by_label, source_ingress_label, own, mutate_route, prune_orphaned_routes,
}

module _ (E : Env) where
  pub own_labels :
      {Spec : Type 0} (m : TransferGw E.Float) (namespace : String) (o o' : Managed Spec)
      → own E m namespace o ≡ ok o'
      → o'.labels ≡ o.labels
  unfolding own
  own_labels m namespace o o' h = ground arith

  -- The label of a route holds the name of the migration that applied it.
  pub mutate_route_label :
      {Spec : Type 0} (m : TransferGw E.Float) (namespace name : String) (spec : Spec)
      (o o' : Managed Spec)
      → mutate_route E m namespace name spec o ≡ ok o'
      → lookup managed_by_label o'.labels ≡ some m.name
  unfolding mutate_route string_eq
  mutate_route_label m namespace name spec o o' h = rw (own_labels m namespace _ o' h) (
      rw
        (
          lookup-insert source_ingress_label managed_by_label name
              (insert managed_by_label m.name o.labels),
          lookup-insert managed_by_label managed_by_label m.name o.labels,
        )
        refl)

  -- Two migrations of one name share their routes, whatever their namespaces are: a route that
  -- the one applies carries the label value by which the other prunes, and in every state of the
  -- world both prune the same routes, those that carry the label and that are not among the names
  -- to keep.
  pub prune_orphaned_routes-mutate_route :
      {Spec : Type 0} (m m' : TransferGw E.Float)
      → m.name ≡ m'.name
      → (namespace name : String) (spec : Spec) (o o' : Managed Spec)
      → mutate_route E m namespace name spec o ≡ ok o'
      → (lookup managed_by_label o'.labels ≡ some m'.name)
        × ((desired : List String) (s : E.State)
            → prune_orphaned_routes E m desired s ≡ prune_orphaned_routes E m' desired s)
  unfolding prune_orphaned_routes
  prune_orphaned_routes-mutate_route m m' same namespace name spec o o' h = (
    mutate_route_label m namespace name spec o o' h ∙ ap some same,
    λ desired s. ap (λ n. prune_orphaned_routes E (record m { name = n }) desired s) same,
  )
