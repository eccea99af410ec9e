-- ===== src/Controller/Convert.antt =====
-- The loop of Reconcile over the selected Ingresses: each is converted, a canary is merged into its
-- primary's route, and the route is applied.
use transfergw.Base.{
  String, ◌<>◌, Option, none, some, List, [], ◌∷◌, ◌++◌, map, contains, string_eq, if◌then◌else◌,
}
use transfergw.Base.Int.{ℤ, pos, ◌+ℤ◌, i32}
use transfergw.Base.Text.{decimal_ℤ}
use transfergw.Base.Dict.{lookup}
use transfergw.Kube.{Ingress}
use transfergw.Gateway.{HttpRoute, GrpcRoute}
use transfergw.Api.{TransferGw, ConversionIssue, RouteChange, Severity, info, warning, error}
use transfergw.Env.{Env, ok, err}
use transfergw.Translator.{Issue}
use transfergw.Conversion.{Options, ConversionResult, has_failed, key}
use transfergw.Conversion.Routes.{convert_ingress}
use transfergw.Canary.{Pairing, Pairs, non_canary_issues, merge_backend}
use transfergw.Controller.{Runtime}
use transfergw.Controller.Apply.{object_text, route_change_for, apply_route, apply_grpc}

-- The variables of the loop; the two counters are of type int32. The set `desired` is the list of
-- what was put into it, in which a name that was put in twice stands twice.
pub record Tally : Type 0 where
  pub issues : List ConversionIssue
  pub converted : ℤ
  pub failed : ℤ
  pub desired : List String
  pub route_changes : List RouteChange

-- `n++` on an int32
unfoldable pub increment : ℤ → ℤ
increment n = i32 (n +ℤ pos 1)

to_status_issue : Issue → ConversionIssue
to_status_issue i = record {
  ingress = i.ingress;
  issue = i.message;
  severity = i.severity;
  recommendation = i.recommendation;
}

unfoldable pub to_status_issues : List Issue → List ConversionIssue
unfolding to_status_issue
to_status_issues = map to_status_issue

-- An issue of the loop itself, which recommends nothing.
unfoldable pub loop_issue : Ingress → Severity → String → ConversionIssue
loop_issue ing severity text = record {
  ingress = key ing;
  issue = text;
  severity = severity;
  recommendation = "";
}

unfoldable pub add_issues : List ConversionIssue → Tally → Tally
add_issues is t = record t { issues = t.issues ++ is }

unfoldable pub count_failed : Tally → Tally
unfolding increment
count_failed t = record t { failed = increment t.failed }

unfoldable pub count_converted : Tally → Tally
unfolding increment
count_converted t = record t { converted = increment t.converted }

change_list : Option RouteChange → List RouteChange
change_list none = []
change_list (some c) = c ∷ []

-- A route that was applied: its change, its name among those to keep, and the count.
unfoldable pub applied : Option RouteChange → String → Tally → Tally
unfolding change_list increment
applied change name t = record t {
  converted = increment t.converted;
  desired = name ∷ t.desired;
  route_changes = t.route_changes ++ change_list change;
}

paired_text : Pairing → String
paired_text p = object_text p.ingress.namespace p.ingress.name

-- What merging a canary leaves: the primary's route and the tally.
unfoldable pub merge_canary :
    Ingress → Pairing → HttpRoute → ConversionResult → Tally → HttpRoute × Tally
unfolding to_status_issues add_issues loop_issue count_converted paired_text
merge_canary ing p route result t =
    let unmerged : HttpRoute × Tally = (
      route,
      add_issues
          (to_status_issues result.issues
            ++ (loop_issue ing warning (
                  "canary Ingress "
                  <> (paired_text p <> " could not be converted, so its weight was not applied"))
                ∷ []))
          t,
    ) in
    elim result.route [
      | none ↦ unmerged
      | some canary ↦ if has_failed result then unmerged else (
        merge_backend route canary p.weight,
        add_issues
            (to_status_issues (non_canary_issues result.issues)
              ++ (loop_issue ing info (
                    "merged canary Ingress "
                    <> (paired_text p
                        <> (" as a " <> (decimal_ℤ p.weight <> "% weighted backend"))))
                  ∷ []))
            (count_converted t),
      )
    ]

module _ (E : Env) (rt : Runtime) (m : TransferGw E.Float) (opts : Options E.State) where
  open E use {State}

  unfoldable pub convert : Ingress → State → ConversionResult × State
  convert ing s = convert_ingress rt.translators rt.parse_url ing opts s

  -- The part of the loop for an Ingress that became a GRPCRoute.
  unfoldable pub apply_grpc_step : Ingress → GrpcRoute → Tally → State → Tally × State
  unfolding count_failed add_issues loop_issue applied
  apply_grpc_step ing route t s =
      let (r, s') = apply_grpc E m route s in
      elim r [
        | err e ↦ (
          add_issues (loop_issue ing error ("applying GRPCRoute: " <> e.message) ∷ [])
              (count_failed t),
          s',
        )
        | ok op ↦ (
          applied (route_change_for op route.namespace route.name)
              (object_text route.namespace route.name) t,
          s',
        )
      ]

  unfoldable pub apply_http_step : Ingress → HttpRoute → Tally → State → Tally × State
  unfolding count_failed add_issues loop_issue applied
  apply_http_step ing route t s =
      let (r, s') = apply_route E m route s in
      elim r [
        | err e ↦ (
          add_issues (loop_issue ing error ("applying HTTPRoute: " <> e.message) ∷ [])
              (count_failed t),
          s',
        )
        | ok op ↦ (
          applied (route_change_for op route.namespace route.name)
              (object_text route.namespace route.name) t,
          s',
        )
      ]

  -- The part for an HTTPRoute: its canary, if it is the primary of a pair, then its application.
  unfoldable pub http_step : Pairs → Ingress → HttpRoute → Tally → State → Tally × State
  unfolding merge_canary apply_http_step convert lookup
  http_step pairs ing route t s = elim (lookup (key ing) pairs.for_primary) [
    | none ↦ apply_http_step ing route t s
    | some p ↦
        let (result, s') = convert p.ingress s in
        let (route', t') = merge_canary ing p route result t in apply_http_step ing route' t' s'
  ]

  -- The part behind the conversion.
  unfoldable pub route_step : Pairs → Ingress → ConversionResult → Tally → State → Tally × State
  unfolding count_failed apply_grpc_step http_step
  route_step pairs ing result t s =
      if has_failed result then (count_failed t, s) else elim result.grpc_route [
        | some g ↦ apply_grpc_step ing g t s
        | none ↦ elim result.route [
          | none ↦ (count_failed t, s)
          | some r ↦ http_step pairs ing r t s
        ]
      ]

  unfoldable pub convert_one : Pairs → Ingress → Tally → State → Tally × State
  unfolding convert add_issues to_status_issues route_step
  convert_one pairs ing t s =
      let (result, s') = convert ing s in
      let next = route_step pairs ing result (add_issues (to_status_issues result.issues) t) s' in
      if contains pairs.names (key ing) then (t, s) else next

  unfoldable pub convert_all : Pairs → List Ingress → Tally → State → Tally × State
  unfolding convert_one
  convert_all pairs [] t s = (t, s)
  convert_all pairs (ing ∷ rest) t s =
      let (t', s') = convert_one pairs ing t s in convert_all pairs rest t' s'
