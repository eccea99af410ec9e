-- ===== src/Overlap.antt =====
-- Overlapping matches, internal/controller/overlap/overlap.go. `order` is the order in which the
-- range over the map visits the groups.
pub mod Ambiguity
use transfergw.Base.{
  String, ◌<>◌, not, none, some, List, [], ◌∷◌, ◌++◌, map, contains, string_eq, if◌then◌else◌, ltb,
  length,
}
use transfergw.Base.Int.{pos, eqb_ℤ}
use transfergw.Base.Text.{decimal_ℤ, show_list}
use transfergw.Base.Dict.{Dict}
use transfergw.Kube.{
  Ingress, IngressRule, HttpIngressPath, PathType, exact, prefix, implementation_specific, unknown,
}
use transfergw.Api.{ConversionIssue, warning}
use transfergw.Conversion.{key}
use transfergw.Conversion.Path.{path_type_of}
use transfergw.Conversion.Grpc.{paths_of}
use transfergw.Canary.{add_to_group}

pub record Entry : Type 0 where
  pub ingress : String
  pub backend : String

unfoldable pub path_type_text : PathType → String
path_type_text exact = "Exact"
path_type_text prefix = "Prefix"
path_type_text implementation_specific = "ImplementationSpecific"
path_type_text (unknown t) = t

unfoldable pub backend_signature : HttpIngressPath → String
unfolding decimal_ℤ
backend_signature p = elim p.backend.service [
  | none ↦ "resource-backend"
  | some svc ↦
      if not (eqb_ℤ svc.port.number (pos 0))
      then svc.name <> (":" <> decimal_ℤ svc.port.number)
      else svc.name <> (":" <> svc.port.name)
]

unfoldable pub match_signature : String → HttpIngressPath → String
unfolding path_type_text
match_signature host p =
    host <> ("|" <> (path_type_text (path_type_of p.path_type) <> ("|" <> p.path)))

abbrev pub Groups : Type 0
Groups = Dict (List Entry)

unfoldable pub add_paths : String → String → List HttpIngressPath → Groups → Groups
unfolding add_to_group match_signature backend_signature
add_paths name host [] groups = groups
add_paths name host (p ∷ ps) groups = add_paths name host ps (
    add_to_group (match_signature host p) (record { ingress = name; backend = backend_signature p })
      groups)

unfoldable pub add_rules : String → List IngressRule → Groups → Groups
unfolding add_paths
add_rules name [] groups = groups
add_rules name (r ∷ rs) groups = add_rules name rs (add_paths name r.host (paths_of r) groups)

-- The entries of every Ingress that is no paired canary, by what they match.
unfoldable pub add_ingresses : List String → List Ingress → Groups → Groups
unfolding add_rules key
add_ingresses canary_names [] groups = groups
add_ingresses canary_names (ing ∷ rest) groups =
    add_ingresses canary_names rest
      (if contains canary_names (key ing) then groups else add_rules (key ing) ing.rules groups)

-- The set of the backends, each once.
unfoldable pub distinct_backends : List Entry → List String
distinct_backends [] = []
distinct_backends (e ∷ es) =
    let rest = distinct_backends es in if contains rest e.backend then rest else e.backend ∷ rest

-- The names of a group, of which the first stands apart.
overlap_issue : String → List String → ConversionIssue
unfolding show_list
overlap_issue first names = record {
  ingress = first;
  issue =
      "Ingresses "
      <> (show_list names
          <> " match the exact same host+path with different backends; nginx and Gateway API resolve that ambiguity with different precedence rules, so routing may change after migration");
  severity = warning;
  recommendation =
      "Make the paths distinct, or confirm which backend should win and drop the others from the selector.";
}

-- What one group adds.
unfoldable pub group_issues : List Entry → List ConversionIssue
unfolding overlap_issue distinct_backends
group_issues [] = []
group_issues (e ∷ es) =
    if ltb (length (e ∷ es)) 2
    then []
    else if ltb (length (distinct_backends (e ∷ es))) 2
    then []
    else overlap_issue e.ingress (map (λ (x : Entry). x.ingress) (e ∷ es)) ∷ []

unfoldable pub all_issues : Groups → List ConversionIssue
unfolding group_issues
all_issues [] = []
all_issues ((sig, entries) ∷ rest) = group_issues entries ++ all_issues rest

unfoldable pub check : (Groups → Groups) → List Ingress → List String → List ConversionIssue
unfolding all_issues add_ingresses
check order ingresses canary_names = all_issues (order (add_ingresses canary_names ingresses []))
