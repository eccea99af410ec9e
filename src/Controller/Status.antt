-- ===== src/Controller/Status.antt =====
-- What a reconcile records: the share of the Gateway, the phase and the conditions, in the part of
-- Reconcile behind the loop, and sendRollbackAlert.
use transfergw.Base.{
  ℕ, String, ◌<>◌, Bool, true, false, ◌&&◌, Option, none, some, take, ◌==◌, string_eq,
  if◌then◌else◌,
}
use transfergw.Base.Int.{ℤ, pos, ◌-ℤ◌, ltb_ℤ, leb_ℤ, eqb_ℤ, i32}
use transfergw.Base.Text.{decimal_ℤ}
use transfergw.Kube.{cond_true, cond_false}
use transfergw.Api.{TransferGw, TransferGwStatus, Phase}
use transfergw.Env.{Env}
use transfergw.Conditions.{set_condition, find_condition, has_condition}
use transfergw.Hooks.{post_rollout, run_hook}
use transfergw.Health.{Breach, breach_text}
use transfergw.Controller.Convert.{Tally}

abbrev pub max_issues : ℕ
max_issues = 100

-- The counts of the loop, recorded: Pending is what is neither converted nor failed.
unfoldable pub record_counts : ℤ → ℤ → Tally → TransferGwStatus → TransferGwStatus
record_counts total gateways t st = record st {
  processed_status = some (record {
    total = total;
    converted = t.converted;
    failed = t.failed;
    pending = i32 (i32 (total -ℤ t.converted) -ℤ t.failed);
  });
  resources_status = some (record {
    gateways = gateways;
    http_routes = t.converted;
    tls_policies = pos 0;
    backend_policies = pos 0;
  });
  issues = take max_issues t.issues;
}

-- The schedule's percentage held at the approved one, where approval is required.
unfoldable pub approved : {Float : Type 0} → TransferGw Float → ℤ → ℤ
approved m percentage =
    if m.spec.rollout.require_approval && ltb_ℤ m.spec.rollout.approved_percentage percentage
    then m.spec.rollout.approved_percentage
    else percentage

-- What a reconcile has found when it comes to the phase.
pub record Findings (Float : Type 0) : Type 0 where
  pub breach : Option (Breach Float)
  pub awaiting_pre_rollout : Bool
  pub total : ℤ
  pub converted : ℤ
  pub failed : ℤ
  pub percentage : ℤ

-- The cases of the switch.
pub data Outcome (Float : Type 0) : Type 0 where
  breached : Breach Float → Outcome Float
  awaiting nothing_selected all_failed finished in_progress : Outcome Float

unfoldable pub outcome : {Float : Type 0} → Findings Float → Outcome Float
outcome f = elim f.breach [
  | some b ↦ breached b
  | none ↦
      if f.awaiting_pre_rollout
      then awaiting
      else if eqb_ℤ f.total (pos 0)
      then nothing_selected
      else if ltb_ℤ (pos 0) f.failed && eqb_ℤ f.converted (pos 0)
      then all_failed
      else if leb_ℤ (pos 100) f.percentage
      then finished
      else in_progress
]

unfoldable pub phase_of : {Float : Type 0} → Outcome Float → Phase
phase_of (breached b) = Phase.rolled_back
phase_of awaiting = Phase.pending
phase_of nothing_selected = Phase.analyzing
phase_of all_failed = Phase.failed
phase_of finished = Phase.complete
phase_of in_progress = Phase.canary

-- The URL that an alert goes to, if any: the migration's own setting comes before the default.
unfoldable pub alert_url : {Float : Type 0} → TransferGw Float → String → Option String
alert_url m default =
    let chosen : Option String = elim m.spec.monitoring [
      | none ↦ some default
      | some monitoring ↦ elim monitoring.alerting [
        | none ↦ some default
        | some a ↦ if a.enabled then some a.webhook_url else none
      ]
    ] in
    elim chosen [ none ↦ none | some url ↦ if url == "" then none else some url ]

abbrev pub condition_rolled_back : String
condition_rolled_back = "RolledBack"

-- rollbackReason: the message of the breach, for the log.
unfoldable pub rollback_reason : {Float : Type 0} → TransferGw Float → String
rollback_reason m = elim (find_condition m.status condition_rolled_back) [
  | some c ↦ c.message
  | none ↦ ""
]

module _ (E : Env) where
  open E use {State, Float, floats, now, rfc3339, alerter, default_webhook_url}

  -- A failed delivery is logged, and nothing else.
  unfoldable pub send_rollback_alert : TransferGw Float → String → State → State
  unfolding alert_url
  send_rollback_alert m message s = elim alerter [
    | none ↦ s
    | some notify ↦ elim (alert_url m default_webhook_url) [
      | none ↦ s
      | some url ↦
          let (t, s₁) = now s in
          (notify url
            (record {
              migration = m.namespace <> ("/" <> m.name);
              phase = "RolledBack";
              reason = "ThresholdBreached";
              message = message;
              time = rfc3339 t;
            })
            s₁).1
    ]
  ]

  -- setCondition with the clock that it reads
  unfoldable pub mark :
      TransferGwStatus → String → Bool → String → String → State → TransferGwStatus × State
  mark st type holds reason msg s =
      let (t, s') = now s in
      (set_condition st type (if holds then cond_true else cond_false) reason msg t, s')

  unfoldable pub ready :
      Phase → TransferGwStatus → Bool → String → String → State → TransferGwStatus × State
  ready phase st holds reason msg s = mark (record st { phase = phase }) "Ready" holds reason msg s

  -- The case of a breach.
  unfoldable pub roll_back :
      TransferGw Float → Breach Float → TransferGwStatus → State → TransferGwStatus × State
  unfolding mark ready
  roll_back m b st s =
      let msg = "Rolled back to 0%: " <> breach_text floats b in
      let (st₁, s₁) =
        ready Phase.rolled_back (record st { rollback_generation = m.generation }) false
          "HealthRollback" msg s in
      let (st₂, s₂) = mark st₁ condition_rolled_back true "ThresholdBreached" msg s₁ in
      (st₂, send_rollback_alert m msg s₂)

  -- The switch over the outcome.
  unfoldable pub settle :
      TransferGw Float → Findings Float → TransferGwStatus → State → TransferGwStatus × State
  unfolding outcome ready roll_back
  settle m f st s = elim (outcome f) [
    | breached b ↦ roll_back m b st s
    | awaiting ↦
        ready Phase.pending st false "AwaitingPreRolloutHook"
          "Conversion is complete; waiting for the PreRollout hook to approve moving traffic" s
    | nothing_selected ↦
        ready Phase.analyzing st false "NoMatchingIngresses"
          "No Ingress resources matched the selector" s
    | all_failed ↦
        ready Phase.failed st false "ConversionFailed"
          ("All " <> (decimal_ℤ f.failed <> " selected Ingress resources failed to convert")) s
    | finished ↦
        let (st', s') =
          ready Phase.complete st true "MigrationComplete"
            ("Converted "
              <> (decimal_ℤ f.converted <> (" of " <> (decimal_ℤ f.total <> " Ingress resources"))))
            s in
        let ((st'', _), s'') = run_hook E m st' post_rollout false s' in (st'', s'')
    | in_progress ↦
        ready Phase.canary st false "RolloutInProgress"
          ("Gateway is receiving " <> (decimal_ℤ f.percentage <> "% of traffic")) s
  ]

  -- Behind the switch: a rollback that is over is marked so.
  unfoldable pub resume :
      Option (Breach Float) → TransferGwStatus → State → TransferGwStatus × State
  unfolding mark
  resume (some b) st s = (st, s)
  resume none st s =
      let resumed =
        mark (record st { rollback_generation = pos 0 }) condition_rolled_back false "Resumed"
          "Rollout resumed after the spec was edited" s in
      if has_condition st condition_rolled_back then resumed else (st, s)
