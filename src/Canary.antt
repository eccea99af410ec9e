-- ===== src/Canary.antt =====
-- nginx canary pairs, internal/controller/canary/canary.go. A range over a Go map has no fixed
-- order: `order` is the order in which the groups are visited.
pub mod Weights
use transfergw.Base.{
  String, ◌<>◌, Bool, not, ◌||◌, Option, none, some, List, [], ◌∷◌, ◌++◌, map, ◌==◌, string_eq,
  if◌then◌else◌, filter,
}
use transfergw.Base.Int.{ℤ, pos, ◌-ℤ◌, ltb_ℤ, i32}
use transfergw.Base.Text.{atoi, contains_text}
use transfergw.Base.Dict.{Dict, lookup, insert, text_at}
use transfergw.Kube.{Ingress, IngressRule}
use transfergw.Gateway.{HttpRoute, HttpRouteRule, BackendRef}
use transfergw.Translator.{Issue, nginx_prefix}
use transfergw.Conversion.{key}

pub record Pairing : Type 0 where
  pub ingress : Ingress
  pub weight : ℤ

unfoldable pub is_canary : Ingress → Bool
is_canary ing = text_at (nginx_prefix <> "canary") ing.annotations == "true"

-- The weight, if it is a number from 0 to 100; `none` is the second result false.
unfoldable pub canary_weight : Ingress → Option ℤ
canary_weight ing = elim (lookup (nginx_prefix <> "canary-weight") ing.annotations) [
  | none ↦ none
  | some v ↦ elim (atoi v) [
    | none ↦ none
    | some n ↦ if ltb_ℤ n (pos 0) || ltb_ℤ (pos 100) n then none else some (i32 n)
  ]
]

signature_of_rules : String → List IngressRule → Option String
signature_of_rules namespace (rule ∷ []) = elim rule.paths [
  | none ↦ none
  | some ps ↦ elim ps [
    | [] ↦ none
    | p ∷ more ↦ elim more [
      | [] ↦ some (namespace <> ("|" <> (rule.host <> ("|" <> p.path))))
      | q ∷ qs ↦ none
    ]
  ]
]
signature_of_rules namespace _ = none

-- Only an Ingress with one rule and one path has a signature.
unfoldable pub route_signature : Ingress → Option String
unfolding signature_of_rules
route_signature ing = signature_of_rules ing.namespace ing.rules

-- bySignature[sig] = append(bySignature[sig], ing)
unfoldable pub add_to_group {ℓ} : {A : Type ℓ} → String → A → Dict (List A) → Dict (List A)
unfolding insert lookup
add_to_group sig x groups =
    insert sig (elim (lookup sig groups) [ none ↦ x ∷ [] | some xs ↦ xs ++ (x ∷ []) ]) groups

unfoldable pub group_by_signature : List Ingress → Dict (List Ingress) → Dict (List Ingress)
unfolding add_to_group
group_by_signature [] groups = groups
group_by_signature (ing ∷ rest) groups =
    group_by_signature rest
      (elim (route_signature ing) [ none ↦ groups | some sig ↦ add_to_group sig ing groups ])

-- The last canary and the last other Ingress of a group of two: the primary and the canary.
unfoldable pub split_pair : List Ingress → Option (Ingress × Ingress)
split_pair (a ∷ b ∷ []) =
    if is_canary a
    then if is_canary b then none else some (b, a)
    else if is_canary b
    then some (a, b)
    else none
split_pair _ = none

-- The two results of Pair: the names of the paired canaries, and the pairing of each primary.
pub record Pairs : Type 0 where
  pub names : List String
  pub for_primary : Dict Pairing

-- What one group adds.
unfoldable pub add_pair : List Ingress → Pairs → Pairs
unfolding insert
add_pair group p = elim (split_pair group) [
  | none ↦ p
  | some (primary, canary) ↦ elim (canary_weight canary) [
    | none ↦ p
    | some w ↦ record {
      names = key canary ∷ p.names;
      for_primary = insert (key primary) (record { ingress = canary; weight = w }) p.for_primary;
    }
  ]
]

unfoldable pub add_pairs : Dict (List Ingress) → Pairs → Pairs
unfolding add_pair
add_pairs [] p = p
add_pairs ((sig, group) ∷ rest) p = add_pairs rest (add_pair group p)

abbrev pub Order : Type 0
Order = Dict (List Ingress) → Dict (List Ingress)

unfoldable pub pair : Order → List Ingress → Pairs
unfolding add_pairs group_by_signature
pair order ingresses =
    add_pairs (order (group_by_signature ingresses [])) (record { names = []; for_primary = [] })

unfoldable pub non_canary_issues : List Issue → List Issue
unfolding contains_text
non_canary_issues = filter (λ i. not (contains_text i.message (nginx_prefix <> "canary")))

-- The first backend of the first rule of the canary's route.
unfoldable pub canary_backend : List HttpRouteRule → Option BackendRef
canary_backend [] = none
canary_backend (r ∷ rs) = elim r.backend_refs [ [] ↦ none | b ∷ bs ↦ some b ]

weighted : ℤ → BackendRef → BackendRef
weighted w b = record b { weight = some w }

unfoldable pub merge_rule : BackendRef → ℤ → HttpRouteRule → HttpRouteRule
unfolding weighted
merge_rule canary weight r = record r {
  backend_refs =
      map (weighted (i32 (pos 100 -ℤ weight))) r.backend_refs ++ (weighted weight canary ∷ []);
}

merge_rules : Option BackendRef → ℤ → HttpRoute → HttpRoute
unfolding merge_rule
merge_rules none weight primary = primary
merge_rules (some b) weight primary = record primary {
  spec = record (primary.spec) { rules = map (merge_rule b weight) primary.spec.rules };
}

-- MergeBackend: the primary's route with the canary's backend on every rule.
unfoldable pub merge_backend : HttpRoute → HttpRoute → ℤ → HttpRoute
unfolding merge_rules canary_backend
merge_backend primary canary weight = merge_rules (canary_backend canary.spec.rules) weight primary
