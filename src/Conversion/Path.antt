-- ===== src/Conversion/Path.antt =====
-- convertPath, matchOf, looksLikeRegex and regexPrefix of internal/conversion/route.go.
use transfergw.Base.{
  ℕ, String, ◌<>◌, Bool, Option, none, some, List, [], ◌∷◌, ◌==◌, string_eq, if◌then◌else◌,
}
use transfergw.Base.Text.{codes, contains_any, split, join, quote}
use transfergw.Kube.{
  Ingress, HttpIngressPath, PathType, exact, prefix, implementation_specific, unknown,
}
use transfergw.Gateway.{HttpRouteMatch, PathMatchType}
use transfergw.Api.{info, warning}
use transfergw.Translator.{Issue}
use transfergw.Conversion.{issue_of}

unfoldable pub match_of : PathMatchType → String → HttpRouteMatch
match_of t value = record { path = some (record { type = t; value = value }) }

unfoldable pub looks_like_regex : String → Bool
looks_like_regex p = contains_any p (codes "*+?()[]{}|^$\\")

abbrev pub meta : List ℕ
meta = codes ".*+?()[]{}|^$\\"

-- The segments up to the first one with a metacharacter; empty ones are passed over.
unfoldable pub kept_segments : List String → List String
kept_segments [] = []
kept_segments (seg ∷ segs) =
    let rest = kept_segments segs in
    if seg == "" then rest else if contains_any seg meta then [] else seg ∷ rest

unfoldable pub regex_prefix : String → String
unfolding kept_segments
regex_prefix p = elim (kept_segments (split b'/' p)) [
  | [] ↦ "/"
  | seg ∷ segs ↦ "/" <> join "/" (seg ∷ segs)
]

-- An empty path matches everything.
unfoldable pub path_value : HttpIngressPath → String
path_value p = if p.path == "" then "/" else p.path

-- A missing type is Prefix.
abbrev pub path_type_of : Option PathType → PathType
path_type_of none = prefix
path_type_of (some t) = t

unfoldable pub convert_path_as : Ingress → String → PathType → HttpRouteMatch × Option Issue
unfolding match_of
convert_path_as ing value exact = (match_of PathMatchType.exact value, none)
convert_path_as ing value prefix = (match_of PathMatchType.path_prefix value, none)
convert_path_as ing value implementation_specific =
    if looks_like_regex value
    then (
      match_of PathMatchType.path_prefix (regex_prefix value),
      some (
          issue_of ing warning
            ("path "
              <> (quote value
                  <> (" uses ImplementationSpecific regex matching, approximated as a prefix match on "
                      <> quote (regex_prefix value))))
            "Gateway API core matching has no regex path type; verify the approximation or use an implementation-specific route."),
    )
    else (
      match_of PathMatchType.path_prefix value,
      some (
          issue_of ing info
            ("path " <> (quote value <> " uses ImplementationSpecific, treated as a prefix match"))
            "Set pathType explicitly to Prefix or Exact to remove this ambiguity."),
    )
convert_path_as ing value (unknown t) = (
  match_of PathMatchType.path_prefix value,
  some (
      issue_of ing warning ("unknown pathType " <> (quote t <> ", defaulted to a prefix match"))
        "Use one of Exact, Prefix or ImplementationSpecific."),
)

unfoldable pub convert_path : Ingress → HttpIngressPath → HttpRouteMatch × Option Issue
unfolding convert_path_as path_value
convert_path ing p = convert_path_as ing (path_value p) (path_type_of p.path_type)
