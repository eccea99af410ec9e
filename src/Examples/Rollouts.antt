-- ===== src/Examples/Rollouts.antt =====
-- The theorems on the share of the Gateway, the phase and the hooks, applied.
use transfergw.Base.{ℕ, ◌+◌, ◌≡◌, ◌≢◌, refl, inl, inr, true, false, none, some, [], ◌∷◌, arith}
use transfergw.Base.Int.{pos, ◌-ℤ◌, ◌≤ℤ◌, ◌<ℤ◌}
use transfergw.Api.{TransferGw, Phase}
use transfergw.Rollout.{rollout_percentage, canary_percentage, pace}
use transfergw.Rollout.Bounds.{IsPercentage, rollout_percentage_bounds}
use transfergw.Rollout.Schedule.{pace_at, canary_percentage_schedule, canary_percentage_wraps}
use transfergw.Controller.Reconcile.{conclude, is_held}
use transfergw.Controller.Traffic.{
  concluded, conclude_approved, conclude_complete, conclude_rolled_back,
}
use transfergw.Examples.World.{world, migration, ingress, tally, fresh_status}

conclude_approved_example :
    (concluded world
      (migration "canary" true)
      (ingress "web" [] ∷ [])
      (pos 1)
      tally
      fresh_status
      1000).completion_percentage
    ≤ℤ pos 20
conclude_approved_example =
    conclude_approved world (migration "canary" true) (ingress "web" [] ∷ []) (pos 1) tally
      fresh_status 1000 refl (omega arith)

completes :
    (concluded world
      (migration "immediate" false)
      (ingress "web" [] ∷ [])
      (pos 1)
      tally
      fresh_status
      1000).phase
    ≡ Phase.complete
unfolding conclude transfergw.Controller.Status.resume transfergw.Controller.Status.approved
    rollout_percentage transfergw.Base.string_eq transfergw.Hooks.run_hook
    transfergw.Hooks.hook_to_ask transfergw.Hooks.hook_for transfergw.Conditions.has_condition
    transfergw.Controller.Status.settle transfergw.Base.Int.i32 transfergw.Conditions.set_condition
    transfergw.Conditions.set_in transfergw.Controller.Reconcile.record_share
    transfergw.Controller.Status.record_counts
completes = refl

conclude_complete_example :
    let st =
      concluded world
        (migration "immediate" false)
        (ingress "web" [] ∷ [])
        (pos 1)
        tally
        fresh_status
        1000 in
    (st.completion_percentage ≡ pos 100) × (pos 1 ≢ pos 0) × (¬ (pos 0 <ℤ pos 0))
conclude_complete_example =
    conclude_complete world (migration "immediate" false) (ingress "web" [] ∷ []) (pos 1) tally
      fresh_status 1000 (omega arith) completes

-- The canary's share is 10 after no step, so the health is compared.
rolls_back :
    (concluded world
      (migration "canary" false)
      (ingress "web" [] ∷ [])
      (pos 1)
      tally
      fresh_status
      1000).phase
    ≡ Phase.rolled_back
unfolding conclude transfergw.Controller.Status.resume transfergw.Controller.Status.approved
    rollout_percentage transfergw.Base.string_eq canary_percentage transfergw.Rollout.advance
    transfergw.Base.Int.i32 transfergw.Base.Int.◌+ℤ◌ pace transfergw.Base.Int.◌*ℤ◌
    transfergw.Base.Int.◌/ℤ◌ transfergw.Rollout.since ◌-ℤ◌ transfergw.Hooks.run_hook
    transfergw.Hooks.hook_to_ask transfergw.Hooks.hook_for
    transfergw.Controller.Check.evaluate_health transfergw.Base.Duration.parse_duration
    transfergw.Base.Text.decimal transfergw.Base.Text.decimal_ℤ
    transfergw.Conditions.condition_status_eq transfergw.Conditions.find_condition
    transfergw.Conditions.find_in transfergw.Conditions.has_condition transfergw.Conditions.has_in
    transfergw.Conditions.set_condition transfergw.Conditions.set_in
    transfergw.Controller.Check.check_setup transfergw.Controller.Check.compare_health
    transfergw.Controller.Check.health_check_interval transfergw.Controller.Check.ingress_namespaces
    transfergw.Controller.Check.metric_comparison transfergw.Controller.Check.to_metrics_status
    transfergw.Controller.Reconcile.after_check transfergw.Controller.Reconcile.check_share
    transfergw.Controller.Reconcile.choose_share transfergw.Controller.Reconcile.gate
    transfergw.Controller.Reconcile.record_share transfergw.Controller.Status.alert_url
    transfergw.Controller.Status.mark transfergw.Controller.Status.outcome
    transfergw.Controller.Status.ready transfergw.Controller.Status.record_counts
    transfergw.Controller.Status.roll_back transfergw.Controller.Status.send_rollback_alert
    transfergw.Controller.Status.settle transfergw.Health.check_over
    transfergw.Health.check_throughput transfergw.Health.configured transfergw.Health.evaluate
    transfergw.Health.first_breach transfergw.Health.worse_than transfergw.Hooks.ask_hook
    transfergw.Hooks.hook_condition_type transfergw.Hooks.is_approved transfergw.Hooks.record_answer
    transfergw.Hooks.stage_name transfergw.Hooks.stamp_condition transfergw.Hooks.stamp_in
    transfergw.Rollout.duration_or transfergw.Validator.gateway_name
    transfergw.Validator.target_namespace
rolls_back = refl

conclude_rolled_back_example :
    let st =
      concluded world
        (migration "canary" false)
        (ingress "web" [] ∷ [])
        (pos 1)
        tally
        fresh_status
        1000 in
    (st.completion_percentage ≡ pos 0)
    × (st.traffic_routing_status ≡ some (record { gateway = pos 0; ingress = pos 100 }))
    × (is_held (record (migration "canary" false) { status = st }) ≡ true)
conclude_rolled_back_example =
    conclude_rolled_back world (migration "canary" false) (ingress "web" [] ∷ []) (pos 1) tally
      fresh_status 1000 rolls_back

rollout_percentage_bounds_example :
    IsPercentage (rollout_percentage (migration "canary" false) (pos 5000) (pos 1) (pos 0))
rollout_percentage_bounds_example =
    rollout_percentage_bounds (migration "canary" false) (pos 5000) (pos 1) (pos 0)

-- The defaults of a missing canary section, as numbers.
paced : pace none ≡ pace_at 25 25 3600000000000
unfolding pace
paced = refl

canary_percentage_schedule_example :
    canary_percentage (migration "canary" false) (pos (1000 + 7200000000000)) ≡ pos 75
canary_percentage_schedule_example =
    canary_percentage_schedule (migration "canary" false) 1000 25 25 3600000000000 refl paced
      7200000000000 (omega arith) (omega arith) (omega arith)

-- The greatest percentages that the API server accepts, with a step of a second.
abbrev hasty : TransferGw ℕ
hasty = record {
  namespace = "shop";
  name = "hasty";
  generation = pos 1;
  creation_timestamp = pos 1000;
  spec = record ((migration "canary" false).spec) {
    rollout = record ((migration "canary" false).spec.rollout) {
      canary = some (record {
        initial_percentage = pos 100;
        increment = pos 100;
        step_duration = "1s";
        max_duration = "";
      });
    };
  };
  status = fresh_status;
}

hasty_paced : pace hasty.spec.rollout.canary ≡ pace_at 100 100 1000000000
unfolding pace transfergw.Base.string_eq transfergw.Rollout.duration_or
    transfergw.Base.Duration.parse_duration
hasty_paced = refl

-- After 21474836 seconds, which are 249 days.
canary_percentage_wraps_example : canary_percentage hasty (pos (1000 + 21474836000000000)) ≡ pos 0
canary_percentage_wraps_example =
    canary_percentage_wraps hasty 1000 100 100 1000000000 refl hasty_paced 21474836000000000
      (omega arith) (omega arith) (omega arith) (omega arith)
