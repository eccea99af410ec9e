-- ===== src/Conversion/Annotations.antt =====
-- convertAnnotations and the merging of rule effects, internal/conversion/engine.go.
pub mod Loop
pub mod Timeouts
pub mod Reports
pub mod Filters
use transfergw.Base.{
  String, ◌<>◌, Option, none, some, List, [], ◌∷◌, ◌++◌, string_eq, if◌then◌else◌,
}
use transfergw.Base.Int.{leb_ℤ}
use transfergw.Base.Text.{quote}
use transfergw.Base.Duration.{parse_duration}
use transfergw.Base.Dict.{Dict, lookup, text_at, keys}
use transfergw.Base.Sort.{sort_texts}
use transfergw.Kube.{Ingress}
use transfergw.Gateway.{HttpRouteFilter, HttpRouteTimeouts, SessionPersistence}
use transfergw.Api.{warning}
use transfergw.Translator.{Issue, RuleEffect, Translator, Url, Effect, translate, effect}
use transfergw.Registry.{is_known_vendor_prefix}
use transfergw.Conversion.{dropped, key, issue_of, sorted_map_keys}

-- The first of two pointers that is not nil, for a value on either side.
abbrev pub merge {ℓ} : {A : Type ℓ} → (A → A → Option A) → Option A → Option A → Option A
merge f none b = b
merge f (some a) none = some a
merge f (some a) (some b) = f a b

-- The duration of a text, for its comparison.
unfoldable pub longer : String → String → Option String
longer a b = elim (parse_duration a) [
  | none ↦ some b
  | some da ↦ elim (parse_duration b) [
    | none ↦ some a
    | some db ↦ if leb_ℤ db da then some a else some b
  ]
]

-- longerDuration
unfoldable pub longer_duration : Option String → Option String → Option String
longer_duration = merge longer

unfoldable pub merge_timeouts :
    Option HttpRouteTimeouts → Option HttpRouteTimeouts → Option HttpRouteTimeouts
unfolding longer_duration
merge_timeouts = merge (λ a b. some (record {
  request = longer_duration a.request b.request;
  backend_request = longer_duration a.backend_request b.backend_request;
}))

-- The later annotation's session persistence wins.
later_wins : Option SessionPersistence → Option SessionPersistence → Option SessionPersistence
later_wins a none = a
later_wins a (some b) = some b

unfoldable pub merge_rule_effect : Option RuleEffect → Option RuleEffect → Option RuleEffect
unfolding merge_timeouts later_wins
merge_rule_effect = merge (λ a b. some (record {
  session_persistence = later_wins a.session_persistence b.session_persistence;
  timeouts = merge_timeouts a.timeouts b.timeouts;
}))

pub record Annotated : Type 0 where
  pub filters : List HttpRouteFilter
  pub effect : Option RuleEffect
  pub issues : List Issue

-- `if issue != nil { issue.Ingress = key(ing); issues = append(issues, *issue) }`
unfoldable pub attributed : Ingress → Option Issue → List Issue
attributed ing none = []
attributed ing (some i) = record i { ingress = key ing } ∷ []

-- What a translator's effect adds; a translator without one adds nothing.
with_effect : Ingress → Option Effect → Annotated → Annotated
unfolding attributed merge_rule_effect
with_effect ing none a = a
with_effect ing (some (eff, i)) a = record a {
  effect = merge_rule_effect a.effect eff;
  issues = a.issues ++ attributed ing i;
}

module _ (translators : Dict Translator) (parse_url : String → Option Url) (ing : Ingress) where
  -- A registered annotation: its filters and issue, then its effect.
  translate_one : Translator → String → Annotated → Annotated
  unfolding with_effect attributed
  translate_one t k a =
      let value = text_at k ing.annotations in
      let (f, i) = translate parse_url t k value ing.annotations in
      with_effect ing (effect t k value ing.annotations)
        (record a { filters = a.filters ++ f; issues = a.issues ++ attributed ing i })

  -- One round of the loop over the sorted keys.
  unfoldable pub annotate : Option (List String) → Annotated → String → Annotated
  unfolding translate_one
  annotate policy a k = if dropped policy k then a else elim (lookup k translators) [
    | some t ↦ translate_one t k a
    | none ↦
        if is_known_vendor_prefix k
        then record a {
          issues =
              a.issues
              ++ (issue_of ing warning
                    ("annotation " <> (quote k <> " has no registered translator"))
                    "Reproduce this behaviour with an implementation-specific policy, or drop it."
                  ∷ []);
        }
        else a
  ]

  annotate_all : Option (List String) → List String → Annotated → Annotated
  unfolding annotate
  annotate_all policy [] a = a
  annotate_all policy (k ∷ ks) a = annotate_all policy ks (annotate policy a k)

  unfoldable pub convert_annotations : Option (List String) → Annotated
  unfolding annotate_all sorted_map_keys
  convert_annotations policy =
      annotate_all policy (sorted_map_keys ing.annotations)
        (record { filters = []; effect = none; issues = [] })
