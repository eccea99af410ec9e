-- ===== src/Controller/Traffic.antt =====
-- The end of Reconcile: the split of the traffic and the phase that it records.
use transfergw.Base.{
  ◌≡◌, refl, sym, ◌∙◌, ◌≢◌, Bool, true, Option, none, some, List, [], string_eq, arith,
  if◌then◌else◌, length,
}
use transfergw.Base.Int.{ℤ, pos, ◌-ℤ◌, ◌≤ℤ◌, ◌<ℤ◌, i32, eqb_ℤ_refl}
use transfergw.Kube.{Ingress}
use transfergw.Api.{TransferGw, TransferGwStatus, Phase}
use transfergw.Env.{Env}
use transfergw.Conditions.{set_condition}
use transfergw.Hooks.{Stage, run_hook, ask_hook, record_answer, stamp_condition}
use transfergw.Health.{Breach}
use transfergw.Rollout.{rollout_percentage}
use transfergw.Rollout.Bounds.{
  i32_of_rest, IsPercentage, rollout_percentage_bounds, rollout_percentage_held,
}
use transfergw.Controller.Convert.{Tally}
use transfergw.Controller.Status.{
  Findings, outcome, phase_of, approved, mark, ready, roll_back, settle, resume,
}
use transfergw.Controller.Reconcile.{
  Share, record_share, after_check, choose_share, conclude, is_held,
}

i32_of_whole : i32 (pos 100 -ℤ pos 0) ≡ pos 100
unfolding i32 ◌-ℤ◌
i32_of_whole = refl

-- A status without its conditions.
unfoldable pub kept : TransferGwStatus → TransferGwStatus
kept st = record st { conditions = [] }

module _ (E : Env) (m : TransferGw E.Float) where
  pub run_hook-kept :
      (st : TransferGwStatus) (stage : Stage) (blocking : Bool) (s : E.State)
      → kept (run_hook E m st stage blocking s).0.0 ≡ kept st
  unfolding kept run_hook ask_hook record_answer set_condition stamp_condition
  run_hook-kept st stage blocking s = ground arith

  -- What the switch and the end of the rollback do to the status: the phase of the outcome, and of
  -- the share nothing.
  pub settled :
      (f : Findings E.Float) (st : TransferGwStatus) (s s' : E.State)
      → let end = (resume E f.breach (settle E m f st s).0 s').0 in
        (end.completion_percentage ≡ st.completion_percentage)
        × (end.traffic_routing_status ≡ st.traffic_routing_status)
        × (end.pending_plan ≡ st.pending_plan)
        × (end.phase ≡ phase_of (outcome f))
  unfolding settle resume outcome ready mark roll_back set_condition phase_of run_hook ask_hook
      record_answer stamp_condition
  settled f st s s' = ground arith

  -- A breach records the generation it was found at.
  settled_generation :
      (f : Findings E.Float) (st : TransferGwStatus) (s s' : E.State)
      → phase_of (outcome f) ≡ Phase.rolled_back
      → ((resume E f.breach (settle E m f st s).0 s').0.rollback_generation ≡ m.generation)
        × (f.breach ≢ none)
  unfolding settle resume outcome ready mark roll_back set_condition phase_of run_hook ask_hook
      record_answer stamp_condition
  settled_generation f st s s' h = ground arith

  module _ (ingresses : List Ingress) (gateways : ℤ) (t : Tally) (st : TransferGwStatus)
      (s : E.State) where
    -- The status that is written.
    abbrev pub concluded : TransferGwStatus
    concluded = (conclude E m ingresses gateways t st s).0

    -- What a reconcile finds before the switch.
    findings_of : Share → Option (Breach E.Float) → Findings E.Float
    findings_of share breach = record {
      breach = breach;
      awaiting_pre_rollout = share.awaiting;
      total = i32 (pos (length ingresses));
      converted = t.converted;
      failed = t.failed;
      percentage = after_check breach share.percentage;
    }

    -- The share that is recorded is the schedule's, 0 while its hook holds it, no more than was
    -- approved, and 0 after a breach.
    conclude-cases :
        (time : ℤ) × (share : Share) × (breach : Option (Breach E.Float)) × (let percentage =
            after_check breach share.percentage in
          let f = findings_of share breach in
          ((share.percentage ≡ approved m share.scheduled)
            × (share.scheduled ≡ (
                if share.awaiting then pos 0 else rollout_percentage m time t.converted t.failed))
            × (concluded.completion_percentage ≡ percentage)
            × (concluded.traffic_routing_status
                ≡ some (record { gateway = percentage; ingress = i32 (pos 100 -ℤ percentage) }))
            × (concluded.phase ≡ phase_of (outcome f))
            × (phase_of (outcome f) ≡ Phase.rolled_back
                → (concluded.rollback_generation ≡ m.generation) × (breach ≢ none))))
    unfolding conclude choose_share findings_of record_share
    conclude-cases =
        let (a, b, c, d) = settled _ _ _ _ in
        (_, _, _, (refl, refl, a, b, d, settled_generation _ _ _ _))

    -- With an approved percentage from 0 to 100, the shares of the two paths that a reconcile
    -- records are percentages that make 100 together, and that of the Gateway is the completion.
    pub conclude_traffic :
        IsPercentage m.spec.rollout.approved_percentage
        → IsPercentage concluded.completion_percentage
          × (concluded.traffic_routing_status
              ≡ some (record {
                gateway = concluded.completion_percentage;
                ingress = pos 100 -ℤ concluded.completion_percentage;
              }))
    unfolding record_share after_check approved
    conclude_traffic h =
        let (time, share, breach, (p, q, e, e', _, _)) = conclude-cases in
        ground (
          arith,
          rollout_percentage_bounds m time t.converted t.failed,
          i32_of_rest (after_check breach share.percentage),
        )

    -- Where approval is required, and the approved percentage is not negative, the share of the
    -- Gateway never passes the one that was approved.
    pub conclude_approved :
        m.spec.rollout.require_approval ≡ true
        → pos 0 ≤ℤ m.spec.rollout.approved_percentage
        → concluded.completion_percentage ≤ℤ m.spec.rollout.approved_percentage
    unfolding after_check approved
    conclude_approved r h =
        let (time, share, breach, (p, q, e, _, _, _)) = conclude-cases in ground arith

    -- With an approved percentage of at most 100, a reconcile ends in the phase Complete only with
    -- all the traffic on the Gateway, something converted and nothing failed.
    pub conclude_complete :
        m.spec.rollout.approved_percentage ≤ℤ pos 100
        → concluded.phase ≡ Phase.complete
        → (concluded.completion_percentage ≡ pos 100)
          × (t.converted ≢ pos 0)
          × (¬ (pos 0 <ℤ t.failed))
    unfolding after_check approved outcome phase_of findings_of
    conclude_complete h c =
        let (time, share, breach, (p, q, e, e', d, _)) = conclude-cases in
        ground (
          arith,
          rollout_percentage_bounds m time t.converted t.failed,
          rollout_percentage_held m time t.converted t.failed,
        )

    -- A reconcile that ends rolled back has moved the whole traffic back to the Ingress, and
    -- records the generation of the spec; at that generation the migration is held.
    pub conclude_rolled_back :
        concluded.phase ≡ Phase.rolled_back
        → (concluded.completion_percentage ≡ pos 0)
          × (concluded.traffic_routing_status
              ≡ some (record { gateway = pos 0; ingress = pos 100 }))
          × (is_held (record m { status = concluded }) ≡ true)
    unfolding after_check is_held
    conclude_rolled_back h =
        let (time, share, breach, (p, q, e, e', d, g)) = conclude-cases in
        let (g, b) = g (sym d ∙ h) in ground (arith, eqb_ℤ_refl m.generation, i32_of_whole)
