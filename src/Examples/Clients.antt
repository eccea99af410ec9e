-- ===== src/Examples/Clients.antt =====
-- The theorems on the HTTP clients, the wiring of the process, the preview and the pruning,
-- applied.
use transfergw.Base.{
  ℕ, ◌≡◌, refl, String, ◌<>◌, true, false, none, some, List, [], ◌∷◌, map, All, ◌==◌, string_eq,
}
use transfergw.Base.Int.{pos}
use transfergw.Base.Text.{split}
use transfergw.Base.Dict.{lookup}
use transfergw.Api.{TransferGw}
use transfergw.Env.{Env, Target, Managed, ok}
use transfergw.Action.{Post}
use transfergw.Health.{Breach}
use transfergw.Hooks.{pre_conversion, stage_name}
use transfergw.Controller.Apply.{managed_by_label, mutate_route, prune_orphaned_routes}
use transfergw.Controller.Sharing.{prune_orphaned_routes-mutate_route}
use transfergw.Prometheus.{
  Web, PrometheusSource, other_value, text, query_vars, namespace_regex, strip_unsafe,
  new_prometheus_source, compare,
}
use transfergw.Prometheus.Samples.{IsMeasured, compare-IsMeasured}
use transfergw.Prometheus.Namespaces.{IsSafe, split-namespace_regex}
use transfergw.Prometheus.Evidence.{Evidence}
use transfergw.Webhook.{Http, call}
use transfergw.Webhook.Answers.{Accepted, run_hook-Accepted}
use transfergw.Manager.{Flags, Clients, reconciler}
use transfergw.Manager.Wiring.{found, reconciler-Evidence}
use transfergw.Examples.Checks.{nat_floats-IsFloat64}
use transfergw.Examples.World.{world, migration, fresh_status}

-- Every query is answered with the sample 9.
abbrev web : Web ℕ ℕ
web = record {
  Template = String;
  parse_template = λ s. ok s;
  execute = λ t vars. ok t;
  encode_query = λ s. s;
  new_request = λ s. ok s;
  default_client =
      λ url s. (ok (record { status_code = pos 200; status = "200 OK"; body = "" }), s);
  decode = λ body. ok (record { status = "success"; results = (other_value ∷ text "9" ∷ []) ∷ [] });
  parse_float = λ s. some 9;
}

abbrev prometheus : PrometheusSource ℕ
prometheus = new_prometheus_source web.default_client "http://prometheus:9090/"

abbrev target : Target
target = record { gateway_name = "gw"; gateway_namespace = "shop"; namespaces = "shop" ∷ [] }

compare-IsMeasured_example :
    Post
      (IsMeasured web prometheus (query_vars (migration "canary" false) target))
      (compare web prometheus (migration "canary" false) target 1000).0
compare-IsMeasured_example =
    compare-IsMeasured web prometheus (migration "canary" false) target 1000

split-namespace_regex_example :
    (split b'|' (namespace_regex ("shop" ∷ "team-a" ∷ []))
      ≡ map strip_unsafe ("shop" ∷ "team-a" ∷ []))
    × All IsSafe (map strip_unsafe ("shop" ∷ "team-a" ∷ []))
    × (All IsSafe ("shop" ∷ "team-a" ∷ [])
        → split b'|' (namespace_regex ("shop" ∷ "team-a" ∷ [])) ≡ "shop" ∷ "team-a" ∷ [])
split-namespace_regex_example = split-namespace_regex "shop" ("team-a" ∷ [])

-- Every POST is answered with 204.
abbrev http : Http ℕ
http = record {
  marshal_hook = λ e. ok e.stage;
  marshal_alert = λ e. ok e.reason;
  check_url = λ s. ok tt;
  send = λ p s. (ok (record { status_code = pos 204; status = "204 No Content" }), s);
}

abbrev hooked : Env
hooked = record world { hook_caller = some (call http) }

run_hook-Accepted_example :
    (time : String) × Accepted http
      (http.marshal_hook (record {
        migration = "shop" <> ("/" <> "web");
        stage = stage_name pre_conversion;
        time = time;
      }))
      "http://hook"
unfolding transfergw.Hooks.run_hook transfergw.Hooks.hook_to_ask transfergw.Hooks.hook_for string_eq
    transfergw.Hooks.is_approved transfergw.Conditions.find_condition transfergw.Hooks.ask_hook call
    transfergw.Action.wrap_result
run_hook-Accepted_example =
    run_hook-Accepted hooked http (migration "canary" false) refl fresh_status pre_conversion
      "http://hook" 1000 refl refl

abbrev clients : Clients world
clients = record { web = web; prometheus_client = web.default_client; alerts = http; hooks = http }

abbrev flags : Flags
flags = record {
  metrics_bind_address = ":8080";
  prometheus_url = "http://prometheus:9090/";
  default_webhook_url = "";
  health_probe_bind_address = ":8081";
  leader_elect = false;
  webhook_port = pos 9443;
  enable_validating_webhook = false;
}

reconciler-Evidence_example :
    ((flags.prometheus_url == "") ≡ true
      → found world clients flags (migration "canary" false) target fresh_status 1000 ≡ none)
    × ((flags.prometheus_url == "") ≡ false
        → (b : Breach ℕ)
        → found world clients flags (migration "canary" false) target fresh_status 1000 ≡ some b
        → Evidence
            (reconciler world clients flags)
            web
            prometheus
            (migration "canary" false)
            target
            b)
reconciler-Evidence_example =
    reconciler-Evidence world clients flags (migration "canary" false) target fresh_status 1000
      nat_floats-IsFloat64

-- The same name in another namespace.
abbrev namesake : TransferGw ℕ
namesake = record (migration "canary" false) { namespace = "billing" }

abbrev unlabelled : Managed (List ℕ)
unlabelled = record { labels = []; controller = none; spec = [] }

abbrev labelled : Managed (List ℕ)
labelled = record {
  labels =
      ("transfergw.t-1.dev/managed-by", "web") ∷ ("transfergw.t-1.dev/source-ingress", "web") ∷ [];
  controller = some "web";
  spec = 1 ∷ [];
}

labels :
    mutate_route world (migration "canary" false) "shop" "web" (1 ∷ []) unlabelled ≡ ok labelled
unfolding mutate_route string_eq
labels = refl

prune_orphaned_routes-mutate_route_example :
    (lookup managed_by_label labelled.labels ≡ some "web")
    × ((desired : List String) (s : ℕ)
        → prune_orphaned_routes world (migration "canary" false) desired s
          ≡ prune_orphaned_routes world namesake desired s)
prune_orphaned_routes-mutate_route_example =
    prune_orphaned_routes-mutate_route world (migration "canary" false) namesake refl "shop" "web"
      (1 ∷ []) unlabelled labelled labels
