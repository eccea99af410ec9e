-- ===== src/Controller/Settling.antt =====
-- That writing an object again changes nothing: what the mutate functions of applyRoute,
-- applyGRPCRoute and ensureGateway make of an object, they leave as it is.
use transfergw.Base.{
  ◌≡◌, refl, sym, ap, ◌∙◌, String, Option, List, some, ◌==◌, string_eq, if◌then◌else◌, arith,
}
use transfergw.Base.Dict.{Dict, lookup, insert, lookup-insert, insert_present}
use transfergw.Kube.{Ingress}
use transfergw.Gateway.{GatewaySpec}
use transfergw.Listeners.{build_listeners}
use transfergw.Api.{TransferGw}
use transfergw.Env.{Env, Managed, ok}
use transfergw.Controller.Apply.{
  managed_by_label, source_ingress_label, own, mutate_route, mutate_gateway,
}
use transfergw.Controller.Sharing.{own_labels}

module _ (E : Env)
    (owned : (m : TransferGw E.Float) (c c' : Option String)
      → E.controller_reference m c ≡ ok c'
      → E.controller_reference m c' ≡ ok c') where
  own_again :
      {Spec : Type 0} (m : TransferGw E.Float) (namespace : String) (o o' : Managed Spec)
      → own E m namespace o ≡ ok o'
      → own E m namespace o' ≡ ok o'
  unfolding own
  own_again m namespace o o' h = ground (arith, h, owned m o.controller o'.controller)

  own_spec :
      {Spec : Type 0} (m : TransferGw E.Float) (namespace : String) (o o' : Managed Spec)
      → own E m namespace o ≡ ok o'
      → o'.spec ≡ o.spec
  unfolding own
  own_spec m namespace o o' h = ground arith

  settled_labels :
      (name source : String) (labels : Dict String)
      → insert source_ingress_label source (
          insert managed_by_label name
            (insert source_ingress_label source (insert managed_by_label name labels)))
        ≡ insert source_ingress_label source (insert managed_by_label name labels)
  unfolding string_eq
  settled_labels name source labels =
      let once = insert managed_by_label name labels in
      let twice = insert source_ingress_label source once in
      let named : lookup managed_by_label twice ≡ some name =
        lookup-insert source_ingress_label managed_by_label source once
        ∙ rw (lookup-insert managed_by_label managed_by_label name labels) refl in
      let sourced : lookup source_ingress_label twice ≡ some source =
        lookup-insert source_ingress_label source_ingress_label source once in
      rw (insert_present managed_by_label name twice named)
        (insert_present source_ingress_label source twice sourced)

  same_fields :
      {Spec : Type 0} (o : Managed Spec) (labels : Dict String) (spec : Spec)
      → labels ≡ o.labels
      → spec ≡ o.spec
      → ◌≡◌ {A = Managed Spec} (record o { labels = labels; spec = spec }) o
  same_fields o labels spec h h' = ground (arith, h, h')

  -- Where setting an owner that is set changes nothing, the mutate function of a route leaves what
  -- it has made of an object as it is. The object then has the spec that was asked for, the two
  -- labels of the migration and of its Ingress, and every other label that it had before.
  pub mutate_route-settled :
      {Spec : Type 0} (m : TransferGw E.Float) (namespace name : String) (spec : Spec)
      (o o' : Managed Spec)
      → mutate_route E m namespace name spec o ≡ ok o'
      → (mutate_route E m namespace name spec o' ≡ ok o')
        × (o'.spec ≡ spec)
        × ((label : String)
            → lookup label o'.labels ≡ (
                if source_ingress_label == label
                then some name
                else if managed_by_label == label
                then some m.name
                else lookup label o.labels))
  unfolding mutate_route
  mutate_route-settled m namespace name spec o o' h =
      let labels = insert source_ingress_label name (insert managed_by_label m.name o.labels) in
      let written = record o { labels = labels; spec = spec } in
      let e = own_labels E m namespace written o' h in
      let e' = own_spec m namespace written o' h in
      let same =
        same_fields o' _ spec (rw e (settled_labels m.name name o.labels) ∙ sym e) (sym e') in
      (
        ap (own E m namespace) same ∙ own_again m namespace written o' h,
        e',
        λ label.
            rw
              (
                e,
                lookup-insert source_ingress_label label name
                    (insert managed_by_label m.name o.labels),
                lookup-insert managed_by_label label m.name o.labels,
              )
              refl,
      )

  -- The same for the Gateway, which has the one label of the migration.
  pub mutate_gateway-settled :
      (m : TransferGw E.Float) (namespace : String) (ingresses : List Ingress)
      (o o' : Managed GatewaySpec)
      → mutate_gateway E m namespace ingresses o ≡ ok o'
      → (mutate_gateway E m namespace ingresses o' ≡ ok o')
        × ((label : String)
            → lookup label o'.labels
              ≡ (if managed_by_label == label then some m.name else lookup label o.labels))
  unfolding mutate_gateway string_eq
  mutate_gateway-settled m namespace ingresses o o' h =
      let labels = insert managed_by_label m.name o.labels in
      let spec : GatewaySpec = record {
        gateway_class_name = m.spec.conversion.gateway_class;
        listeners = build_listeners ingresses;
      } in
      let written = record o { labels = labels; spec = spec } in
      let e = own_labels E m namespace written o' h in
      let named : lookup managed_by_label labels ≡ some m.name =
        lookup-insert managed_by_label managed_by_label m.name o.labels in
      let same =
        same_fields o' _ spec (rw e (insert_present managed_by_label m.name labels named) ∙ sym e)
          (sym (own_spec m namespace written o' h)) in
      (
        ap (own E m namespace) same ∙ own_again m namespace written o' h,
        λ label. rw e (lookup-insert managed_by_label label m.name o.labels),
      )
