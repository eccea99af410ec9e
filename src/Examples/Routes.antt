-- ===== src/Examples/Routes.antt =====
-- The theorems on the selection, the conversion and the routes, applied.
use transfergw.Base.{
  IsIn, ℕ, ◌+◌, ◌≡◌, ◌<>◌, ◌⊎◌, ◌↔◌, String, refl, inl, inr, true, false, Option, none, some, List,
  [], ◌∷◌, ◌++◌, map, All, length, arith,
}
use transfergw.Base.Int.{pos}
use transfergw.Kube.{Ingress, ObjectKey, Namespace, active, LabelSelector}
use transfergw.Gateway.{HttpRoute, BackendRef, Listener}
use transfergw.Env.{ok}
use transfergw.Conversion.Completeness.{IsFailure, HasRoute, EachFor, convert_ingress-HasRoute}
use transfergw.Conversion.Grpc.{is_grpc_backend}
use transfergw.Conversion.Routes.{convert_ingress}
use transfergw.Canary.{Pairs, pair, canary_backend, merge_backend}
use transfergw.Canary.Weights.{ArePaired, Splits, pair-ArePaired, merge_backend-Splits}
use transfergw.Overlap.{Entry, group_issues}
use transfergw.Overlap.Ambiguity.{AllTo, group_issues-cases}
use transfergw.Base.Sort.Contents.{AreDistinct}
use transfergw.Listeners.{http_listener, build_listeners}
use transfergw.Listeners.Coverage.{Serves, EachSecret, build_listeners-Serves}
use transfergw.Listeners.Numbering.{Numbered}
use transfergw.Listeners.Names.{names, IsAt443, build_listeners-AreDistinct}
use transfergw.Selector.{label_selector, select_ingresses}
use transfergw.Selector.Selection.{IsSelected, select_ingresses-IsSelected}
use transfergw.Validator.{validate}
use transfergw.Validator.Ownership.{IsAcceptable, validate-IsFree}
use transfergw.Controller.Apply.{managed_by_label, removed, prune_orphaned_routes}
use transfergw.Controller.Pruning.{orphans, prune_orphaned_routes_complete}
use transfergw.Controller.Convert.{Tally, convert_all}
use transfergw.Controller.Counting.{unpaired, convert_all_accounts}
use transfergw.Examples.World.{world, migration, ingress, runtime, options}

abbrev web : Ingress
web = ingress "web" []

abbrev canary : Ingress
canary = ingress "web-canary" (
    ("nginx.ingress.kubernetes.io/canary", "true")
    ∷ ("nginx.ingress.kubernetes.io/canary-weight", "20")
    ∷ [])

convert_ingress-HasRoute_example :
    let r = (convert_ingress [] (λ s. none) web options 0).0 in
    IsFailure r ⊎ HasRoute (is_grpc_backend web) web r
convert_ingress-HasRoute_example = convert_ingress-HasRoute [] (λ s. none) web options 0

abbrev empty_tally : Tally
empty_tally = record {
  issues = [];
  converted = pos 0;
  failed = pos 0;
  desired = [];
  route_changes = [];
}

abbrev pairs : Pairs
pairs = record { names = "shop/web-canary" ∷ []; for_primary = [] }

convert_all_accounts_example :
    let t =
      (convert_all world runtime
        (migration "canary" false)
        options
        pairs
        (web ∷ canary ∷ [])
        empty_tally
        0).0 in
    (f : ℕ) × (t.failed ≡ pos f)
    × (length t.desired + f ≡ 0 + 0 + length (unpaired pairs (web ∷ canary ∷ [])))
convert_all_accounts_example =
    convert_all_accounts world runtime (migration "canary" false) options pairs (web ∷ canary ∷ [])
      empty_tally 0 0 refl (omega arith)

pruned : (prune_orphaned_routes world (migration "canary" false) ("shop/web" ∷ []) 0).0.error ≡ none
unfolding prune_orphaned_routes transfergw.Base.string_eq
pruned = refl

prune_orphaned_routes_complete_example :
    (https grpcs : List ObjectKey) × (s : ℕ) × ((world.list_http_routes
        ((managed_by_label, "web") ∷ [])
        0).0
      ≡ ok https)
    × ((world.list_grpc_routes ((managed_by_label, "web") ∷ []) s).0 ≡ ok grpcs)
    × ((prune_orphaned_routes world (migration "canary" false) ("shop/web" ∷ []) 0).0.changes
        ≡ map removed (orphans ("shop/web" ∷ []) https)
          ++ map removed (orphans ("shop/web" ∷ []) grpcs))
prune_orphaned_routes_complete_example =
    prune_orphaned_routes_complete world ("shop/web" ∷ []) (migration "canary" false) 0 pruned

abbrev backend : String → BackendRef
backend name = record {
  group = some "";
  kind = some "Service";
  name = name;
  port = some (pos 80);
  weight = some (pos 1);
}

abbrev route : String → HttpRoute
route name = record {
  namespace = "shop";
  name = name;
  spec = record {
    parent_refs = [];
    hostnames = [];
    rules =
        record {
          matches = [];
          filters = [];
          backend_refs = backend name ∷ [];
          session_persistence = none;
          timeouts = none;
        }
        ∷ [];
  };
}

has_backend : canary_backend ((route "canary").spec.rules) ≡ some (backend "canary")
unfolding canary_backend
has_backend = refl

merge_backend-Splits_example :
    EachFor
      (Splits (backend "canary") (pos 20))
      ((route "web").spec.rules)
      (merge_backend (route "web") (route "canary") (pos 20)).spec.rules
merge_backend-Splits_example =
    merge_backend-Splits (route "web") (route "canary") (pos 20) (backend "canary") (omega arith)
      has_backend

pair-ArePaired_example : ArePaired (pair (λ groups. groups) (web ∷ canary ∷ []))
pair-ArePaired_example = pair-ArePaired (λ groups. groups) (web ∷ canary ∷ [])

validate-IsFree_example :
    (validate world (migration "canary" false) 0).0 ≡ ok []
    ↔ IsAcceptable world (migration "canary" false) 0 []
validate-IsFree_example = validate-IsFree world (migration "canary" false) 0 [] refl

abbrev entry : String → String → Entry
entry ing b = record { ingress = ing; backend = b }

group_issues-cases_example :
    (AllTo "api:80" (entry "shop/b" "old:80" ∷ [])
      × (group_issues (entry "shop/a" "api:80" ∷ entry "shop/b" "old:80" ∷ []) ≡ []))
    ⊎ ((AllTo "api:80" (entry "shop/b" "old:80" ∷ []) → ⊥)
        × (length (group_issues (entry "shop/a" "api:80" ∷ entry "shop/b" "old:80" ∷ [])) ≡ 1))
group_issues-cases_example =
    group_issues-cases (entry "shop/a" "api:80") (entry "shop/b" "old:80" ∷ [])

build_listeners-AreDistinct_example :
    (rest : List Listener) × (build_listeners (web ∷ canary ∷ []) ≡ http_listener ∷ rest)
    × Numbered 1 rest
    × AreDistinct (names (build_listeners (web ∷ canary ∷ [])))
    × All IsAt443 rest
build_listeners-AreDistinct_example = build_listeners-AreDistinct (web ∷ canary ∷ [])

abbrev spaces : List Namespace
spaces = record { name = "shop"; phase = active } ∷ []

abbrev everywhere : String → Option LabelSelector → List Ingress
everywhere ns labels = web ∷ []

no_labels : (label_selector world none 0).0 ≡ ok tt
unfolding label_selector
no_labels = refl

select_ingresses-IsSelected_example :
    (selected : List Ingress) × ((select_ingresses world
        (migration "canary" false).spec.selector
        0).0
      ≡ ok selected)
    × (IsIn web selected
        ↔ IsSelected everywhere spaces (migration "canary" false).spec.selector web)
select_ingresses-IsSelected_example =
    select_ingresses-IsSelected world spaces everywhere (λ s. refl) (λ ns labels s. refl)
      (migration "canary" false).spec.selector web 0 no_labels

build_listeners-Serves_example :
    All
      (λ (ing : Ingress).
        EachSecret (Serves (build_listeners (web ∷ canary ∷ []))) ing.namespace ing.tls)
      (web ∷ canary ∷ [])
build_listeners-Serves_example = build_listeners-Serves (web ∷ canary ∷ [])
