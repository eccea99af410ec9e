-- ===== src/Examples/World.antt =====
-- The data of the examples, after the objects of examples/ and of the Go tests.
use transfergw.Base.{ℕ, ◌-◌, ◌*◌, String, Bool, true, false, none, some, List, [], ◌∷◌, ltb, leb}
use transfergw.Base.Int.{pos, pos_part}
use transfergw.Kube.{active, Ingress, HttpIngressPath, prefix}
use transfergw.Api.{
  TransferGw, TransferGwStatus, Phase, MonitoringSpec, ThresholdSpec, LifecycleSpec,
}
use transfergw.Env.{Env, Floats, ok, result_created, Comparison}
use transfergw.Controller.{Runtime}
use transfergw.Controller.Convert.{Tally}
use transfergw.Conversion.{Options}

abbrev pub nat_floats : Floats
nat_floats = record {
  Float = ℕ;
  lt = ltb;
  le = leb;
  sub = λ a b. a - b;
  mul = λ a b. a * b;
  zero_float = 0;
  one_float = 1;
  of_int = pos_part;
  show = λ x. "n";
  show_signed = λ x. "+n";
}

abbrev pub fresh_status : TransferGwStatus
fresh_status = record {
  phase = Phase.unset;
  completion_percentage = pos 0;
  traffic_routing_status = none;
  processed_status = none;
  resources_status = none;
  metrics_status = none;
  pending_plan = none;
  issues = [];
  rollback_ready = false;
  rollback_generation = pos 0;
  last_health_check = none;
  next_health_check = none;
  last_transition_time = none;
  conditions = [];
}

abbrev pub error_threshold : ThresholdSpec ℕ
error_threshold = record {
  error_rate = some 5;
  latency_ms = pos 0;
  latency_percentile = "p99";
  connection_resets = 0;
  throughput_delta = none;
}

abbrev pub measured : ℕ → Comparison ℕ
measured errors = record {
  error_rate = some (record { ingress = 1; gateway = errors });
  latency_ms = none;
  connection_resets = none;
  throughput = none;
}

abbrev pub monitoring_on : MonitoringSpec ℕ
monitoring_on = record {
  enabled = true;
  interval = "";
  metrics = [];
  thresholds = some error_threshold;
  comparison_window = "";
  alerting = none;
}

abbrev pub hooked : LifecycleSpec
hooked = record {
  pause_original_ingress = false;
  backup_original = false;
  validate_conversion = false;
  auto_complete = false;
  cleanup_on_success = false;
  hooks = some (record {
    pre_conversion = some (record { url = "http://hook" });
    post_conversion = none;
    pre_rollout = none;
    post_rollout = none;
  });
}

-- A migration with a mode of its rollout, and whether it waits for an approval.
abbrev pub migration : String → Bool → TransferGw ℕ
migration mode gated = record {
  namespace = "shop";
  name = "web";
  generation = pos 3;
  creation_timestamp = pos 1000;
  spec = record {
    selector = record { namespaces = []; ingress_selector = none; ingress_classes = "nginx" ∷ [] };
    conversion = record {
      gateway_class = "cilium";
      target_namespace = "";
      generate_gateway = true;
      gateway_name = "";
      annotation_policy = none;
      tls_handling = "";
      validation_mode = "";
    };
    rollout = record {
      mode = mode;
      strategy = "";
      paused = false;
      canary = none;
      gradual = none;
      require_approval = gated;
      approved_percentage = pos 20;
    };
    monitoring = some monitoring_on;
    lifecycle = some hooked;
  };
  status = fresh_status;
}

abbrev pub paused : TransferGw ℕ
paused = record {
  namespace = "shop";
  name = "web";
  generation = pos 3;
  creation_timestamp = pos 1000;
  spec = record ((migration "canary" false).spec) {
    rollout = record ((migration "canary" false).spec.rollout) { paused = true };
  };
  status = fresh_status;
}

abbrev pub api_path : HttpIngressPath
api_path = record {
  path = "/api";
  path_type = some prefix;
  backend = record {
    service = some (record { name = "api"; port = record { name = ""; number = pos 80 } });
  };
}

abbrev pub ingress : String → List (String × String) → Ingress
ingress name annotations = record {
  namespace = "shop";
  name = name;
  annotations = annotations;
  ingress_class_name = some "nginx";
  default_backend = none;
  tls = record { hosts = []; secret_name = "cert" } ∷ [];
  rules = record { host = "example.com"; paths = some (api_path ∷ []) } ∷ [];
}

-- The clock is the state, in nanoseconds; every reading moves it on. Hooks approve, and the metrics
-- show 9 errors on the Gateway path.
abbrev pub world : Env
world = record {
  floats = nat_floats;
  State = ℕ;
  now = λ s. (pos s, s);
  rfc3339 = λ t. "now";
  get_migration = λ k s. (ok paused, s);
  patch_status = λ k st s. (ok tt, s);
  list_migrations = λ s. (ok (migration "canary" false ∷ []), s);
  get_gateway_class = λ c s. (ok tt, s);
  list_namespaces = λ s. (ok (record { name = "shop"; phase = active } ∷ []), s);
  list_ingresses = λ ns labels s. (ok (ingress "web" [] ∷ []), s);
  get_service = λ k s. (ok [], s);
  list_http_routes = λ labels s. (
    ok (
        record { namespace = "shop"; name = "old" }
        ∷ record { namespace = "shop"; name = "web" }
        ∷ []),
    s,
  );
  list_grpc_routes = λ labels s. (ok [], s);
  delete_http_route = λ k s. (ok tt, s);
  delete_grpc_route = λ k s. (ok tt, s);
  check_label_selector = λ l. ok tt;
  apply_gateway = λ k mutate s. (ok result_created, s);
  apply_http_route = λ k mutate s. (ok result_created, s);
  apply_grpc_route = λ k mutate s. (ok result_created, s);
  controller_reference = λ m c. ok (some "web");
  metrics_source = some (λ m target s. (ok (measured 9), s));
  alerter = none;
  hook_caller = some (λ url event s. ((true, none), s));
  default_webhook_url = "";
}

abbrev pub runtime : Runtime
runtime = record {
  translators = [];
  parse_url = λ s. none;
  canary_order = λ groups. groups;
  overlap_order = λ groups. groups;
}

abbrev pub options : Options ℕ
options = record {
  gateway_name = "gw";
  gateway_namespace = "shop";
  annotation_policy = none;
  port_resolver = none;
}

-- One Ingress, converted.
abbrev pub tally : Tally
tally = record {
  issues = [];
  converted = pos 1;
  failed = pos 0;
  desired = "shop/web" ∷ [];
  route_changes = [];
}
