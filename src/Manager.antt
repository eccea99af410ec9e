-- ===== src/Manager.antt =====
-- The process of the operator: cmd/main.go, and what SetupWithManager of
-- internal/controller/transfergw_controller.go registers. Flags are parsed, and controller-runtime
-- is a parameter.
pub mod Wiring
use transfergw.Base.{
  ℕ, String, Bool, true, Option, none, some, List, [], map, ◌==◌, string_eq, if◌then◌else◌,
}
use transfergw.Base.Int.{ℤ}
use transfergw.Kube.{ObjectKey}
use transfergw.Api.{TransferGw}
use transfergw.Env.{Env, Result, ok, err}
use transfergw.Action.{Action, ◌>>=◌, ◌>>◌, return}
use transfergw.Prometheus.{Web, Response, new_prometheus_source, compare}
use transfergw.Webhook.{Http, notify, call}

-- The flags, parsed.
pub record Flags : Type 0 where
  pub metrics_bind_address : String
  pub prometheus_url : String
  pub default_webhook_url : String
  pub health_probe_bind_address : String
  pub leader_elect : Bool
  pub webhook_port : ℤ
  pub enable_validating_webhook : Bool

-- ctrl.Options
pub record ManagerOptions : Type 0 where
  pub metrics_bind_address : String
  pub webhook_port : ℤ
  pub health_probe_bind_address : String
  pub leader_election : Bool
  pub leader_election_id : String

unfoldable pub manager_options : String → String → ℤ → Bool → ManagerOptions
manager_options metrics_addr probe_addr webhook_port leader_election = record {
  metrics_bind_address = metrics_addr;
  webhook_port = webhook_port;
  health_probe_bind_address = probe_addr;
  leader_election = leader_election;
  leader_election_id = "transfergw.t-1.dev";
}

-- The HTTP clients with their libraries: that of Prometheus, of the alerts and of the hooks.
pub record Clients (E : Env) : Type 1 where
  pub web : Web E.State E.Float
  pub prometheus_client : String → E.State → Result Response × E.State
  pub alerts : Http E.State
  pub hooks : Http E.State

-- The reconciler that main builds on a cluster: the metrics source stays nil without a URL.
abbrev pub reconciler : (E : Env) → Clients E → Flags → Env
reconciler E c flags = record E {
  metrics_source =
      if flags.prometheus_url == ""
      then none
      else some (compare c.web (new_prometheus_source c.prometheus_client flags.prometheus_url));
  alerter = some (notify c.alerts);
  hook_caller = some (call c.hooks);
  default_webhook_url = flags.default_webhook_url;
}

-- controller-runtime's manager, over the state of the process.
pub record Runner (S : Type 0) : Type 1 where
  pub new_manager : ManagerOptions → Action S (Unit {0})
  pub setup_controller : Env → Action S (Unit {0})
  pub setup_webhook : Action S (Unit {0})
  pub add_healthz_check : Action S (Unit {0})
  pub add_readyz_check : Action S (Unit {0})
  pub start : Action S (Unit {0})

module _ {S : Type 0} (R : Runner S) (E : Env) (c : Clients E) where
  open R use {new_manager, setup_controller, setup_webhook, add_healthz_check, add_readyz_check}
  open R use {start}

  -- The steps of main behind the flags; the first error ends it.
  set_up : Flags → Action S (Unit {0})
  set_up flags = do
    new_manager (
        manager_options flags.metrics_bind_address flags.health_probe_bind_address
          flags.webhook_port flags.leader_elect)
    setup_controller (reconciler E c flags)
    if flags.enable_validating_webhook then setup_webhook else return tt
    add_healthz_check
    add_readyz_check
    start

  -- The exit code.
  unfoldable pub main : Flags → S → ℕ × S
  unfolding set_up
  main flags s = let (r, s') = set_up flags s in (elim r [ ok _ ↦ 0 | err e ↦ 1 ], s')

module _ (E : Env) where
  open E use {State, Float, list_migrations}

  key_of : TransferGw Float → ObjectKey
  key_of m = record { namespace = m.namespace; name = m.name }

  -- An event of any Ingress asks for a reconcile of every migration, or of none where they cannot
  -- be listed.
  unfoldable pub migrations_for_ingress : State → List ObjectKey × State
  unfolding key_of
  migrations_for_ingress s =
      let (r, s') = list_migrations s in (elim r [ ok list ↦ map key_of list | err e ↦ [] ], s')
