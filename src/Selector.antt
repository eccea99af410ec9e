-- ===== src/Selector.antt =====
-- Which Ingresses a migration selects, internal/controller/selector/selector.go.
pub mod Matching
pub mod Selection
use transfergw.Base.{
  String, ◌<>◌, Bool, true, false, ◌||◌, Option, none, some, List, [], ◌∷◌, ◌++◌, filter, contains,
  ◌==◌, string_eq, if◌then◌else◌,
}
use transfergw.Base.Glob.{glob}
use transfergw.Base.Sort.{sort_texts, sort_by, text_lt}
use transfergw.Base.Dict.{text_at}
use transfergw.Kube.{Ingress, Namespace, NamespacePhase, active, terminating, LabelSelector}
use transfergw.Api.{SelectorSpec}
use transfergw.Env.{Env}
use transfergw.Action.{Action, ◌>>=◌, ◌>>◌, return, lift, wrap}

unfoldable pub matches_any_pattern : String → List String → Bool
unfolding glob
matches_any_pattern name [] = false
matches_any_pattern name (p ∷ ps) = p == name || glob p name || matches_any_pattern name ps

-- spec.ingressClassName, or the legacy annotation.
class_name : Ingress → String
unfolding text_at
class_name ing = elim ing.ingress_class_name [
  | some name ↦ name
  | none ↦ text_at "kubernetes.io/ingress.class" ing.annotations
]

unfoldable pub matches_ingress_class : Ingress → List String → Bool
unfolding class_name
matches_ingress_class ing [] = true
matches_ingress_class ing (c ∷ cs) = contains (c ∷ cs) (class_name ing)

pub is_terminating : NamespacePhase → Bool
is_terminating active = false
is_terminating terminating = true

-- The loop of resolveNamespaces.
unfoldable pub chosen_namespaces : List Namespace → List String → List String
unfolding is_terminating
chosen_namespaces [] patterns = []
chosen_namespaces (ns ∷ rest) patterns =
    let more = chosen_namespaces rest patterns in
    if is_terminating ns.phase then more else elim patterns [
      | [] ↦ ns.name ∷ more
      | p ∷ ps ↦ if matches_any_pattern ns.name (p ∷ ps) then ns.name ∷ more else more
    ]

-- Less by namespace, then by name.
ingress_lt : Ingress → Ingress → Bool
unfolding text_lt
ingress_lt a b =
    if a.namespace == b.namespace then text_lt a.name b.name else text_lt a.namespace b.namespace

unfoldable pub sort_ingresses : List Ingress → List Ingress
unfolding sort_by ingress_lt
sort_ingresses = sort_by ingress_lt

module _ (E : Env) where
  open E use {State, list_namespaces, list_ingresses, check_label_selector}

  unfoldable pub resolve_namespaces : List String → Action State (List String)
  unfolding chosen_namespaces sort_texts
  resolve_namespaces patterns = do
    list ← wrap "listing namespaces" list_namespaces
    return (sort_texts (chosen_namespaces list patterns))

  -- The loop over the namespaces.
  unfoldable pub select_in :
      List String → Option LabelSelector → List String → Action State (List Ingress)
  select_in [] labels classes = return []
  select_in (ns ∷ rest) labels classes = do
    list ← wrap ("listing ingresses in " <> ns) (list_ingresses ns labels)
    more ← select_in rest labels classes
    return (filter (λ ing. matches_ingress_class ing classes) list ++ more)

  unfoldable pub label_selector : Option LabelSelector → Action State (Unit {0})
  label_selector none = return tt
  label_selector (some l) = wrap "invalid ingressSelector" (lift (check_label_selector l))

  unfoldable pub select_ingresses : SelectorSpec → Action State (List Ingress)
  unfolding label_selector
  select_ingresses sel = do
    label_selector sel.ingress_selector
    namespaces ← resolve_namespaces sel.namespaces
    out ← select_in namespaces sel.ingress_selector sel.ingress_classes
    return (sort_ingresses out)
