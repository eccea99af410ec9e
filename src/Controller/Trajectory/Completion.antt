-- ===== src/Controller/Trajectory/Completion.antt =====
-- That the schedule of internal/controller/transfergw_controller.go completes.
use transfergw.Base.{
  ℕ, ◌+◌, ◌*◌, ◌/◌, ◌≤◌, ◌<◌, ◌≡◌, ◌≢◌, refl, ap, ◌∙◌, Bool, none, List, true, false, string_eq,
  arith, length,
}
use transfergw.Base.Int.{ℤ, pos, i32}
use transfergw.Kube.{Ingress}
use transfergw.Api.{TransferGw, TransferGwStatus, Phase}
use transfergw.Env.{Env}
use transfergw.Hooks.{pre_rollout, post_conversion, run_hook}
use transfergw.Rollout.{pace, rollout_percentage}
use transfergw.Rollout.Schedule.{pace_at, canary_percentage_full}
use transfergw.Controller.Convert.{Tally}
use transfergw.Controller.Status.{
  Findings, finished, outcome, phase_of, approved, record_counts, settle, resume,
}
use transfergw.Controller.Reconcile.{
  Share, no_requeue, requeue_of, gate, choose_share, check_share, after_check, record_share,
  conclude,
}
use transfergw.Controller.Traffic.{concluded, settled}

module _ (E : Env) (m : TransferGw E.Float) (ingresses : List Ingress) (gateways : ℤ) (t : Tally)
    (st : TransferGwStatus) (s : E.State) where
  -- Behind the PostConversion hook, where the schedule reads its clock.
  abbrev pub after_conversion : (TransferGwStatus × Bool) × E.State
  after_conversion =
      run_hook E m (record_counts (i32 (pos (length ingresses))) gateways t st) post_conversion
        false s

  -- The PreRollout hook, which a share of more than 0 asks for.
  abbrev pub before_rollout : (TransferGwStatus × Bool) × E.State
  before_rollout = run_hook E m after_conversion.0.0 pre_rollout true (E.now after_conversion.1).1

module _ (E : Env) (m : TransferGw E.Float) (created initial increment step elapsed : ℕ)
    (made : m.creation_timestamp ≡ pos created)
    (paced : pace m.spec.rollout.canary ≡ pace_at initial increment step) where
  rollout_percentage_full :
      (converted failed : ℤ)
      → m.spec.rollout.mode ≡ "canary"
      → elapsed ≤ 9223372036854775807
      → 0 < step
      → 0 < increment
      → 100 * step ≤ elapsed
      → initial + elapsed / step * increment < 2147483648
      → converted ≢ pos 0
      → failed ≡ pos 0
      → rollout_percentage m (pos (created + elapsed)) converted failed ≡ pos 100
  unfolding rollout_percentage
  rollout_percentage_full converted failed mode e hs hi long fits conv none_failed = ground (
    arith,
    canary_percentage_full m created initial increment step made paced elapsed e hs hi long fits,
    mode,
  )

  -- What is found with the whole traffic on the Gateway.
  full_findings : List Ingress → Tally → Findings E.Float
  full_findings ingresses t = record {
    breach = none;
    awaiting_pre_rollout = false;
    total = i32 (pos (length ingresses));
    converted = t.converted;
    failed = t.failed;
    percentage = pos 100;
  }

  full_findings-finished :
      (ingresses : List Ingress) (t : Tally)
      → 0 < length ingresses
      → length ingresses < 2147483648
      → t.failed ≡ pos 0
      → outcome (full_findings ingresses t) ≡ finished
  unfolding outcome full_findings i32
  full_findings-finished ingresses t any few none_failed = ground arith

  conclude_full :
      (ingresses : List Ingress) (gateways : ℤ) (t : Tally) (st : TransferGwStatus) (s : E.State)
      → m.spec.rollout.require_approval ≡ false
      → (before_rollout E m ingresses gateways t st s).0.1 ≡ true
      → rollout_percentage m
          (E.now (after_conversion E m ingresses gateways t st s).1).0
          t.converted
          t.failed
        ≡ pos 100
      → let ((st₁, _), s₁) = before_rollout E m ingresses gateways t st s in
        let share : Share = record {
          scheduled = pos 100;
          percentage = pos 100;
          awaiting = false;
        } in
        let st' = record_share m share (pos 100) t.converted t.route_changes st₁ in
        let (end, s') = settle E m (full_findings ingresses t) st' s₁ in
        conclude E m ingresses gateways t st s ≡ resume E none end s'
  unfolding conclude check_share after_check full_findings approved choose_share gate
  conclude_full ingresses gateways t st s free passed full = rw (full, passed, free, conclude) refl

  -- A canary that needs no approval, with a positive step and increment: a reconcile that reads its
  -- clock between 100 steps after the creation of the migration and the time when the exact sum
  -- passes the range of int32, and that the PreRollout hook, if there is one, lets pass, with at
  -- least one Ingress selected, fewer than 2^31, something converted and nothing failed, ends in
  -- the phase Complete with all the traffic on the Gateway, and no request comes back.
  pub conclude_completes :
      (ingresses : List Ingress) (gateways : ℤ) (t : Tally) (st : TransferGwStatus) (s : E.State)
      → m.spec.rollout.mode ≡ "canary"
      → m.spec.rollout.require_approval ≡ false
      → (before_rollout E m ingresses gateways t st s).0.1 ≡ true
      → (E.now (after_conversion E m ingresses gateways t st s).1).0 ≡ pos (created + elapsed)
      → elapsed ≤ 9223372036854775807
      → 0 < step
      → 0 < increment
      → 100 * step ≤ elapsed
      → initial + elapsed / step * increment < 2147483648
      → 0 < length ingresses
      → length ingresses < 2147483648
      → t.converted ≢ pos 0
      → t.failed ≡ pos 0
      → let end = concluded E m ingresses gateways t st s in
        (end.phase ≡ Phase.complete)
        × (end.completion_percentage ≡ pos 100)
        × (requeue_of end.phase ≡ no_requeue)
  unfolding record_share phase_of requeue_of full_findings
  conclude_completes ingresses gateways t st s mode free passed clock e hs hi long fits any few conv
        none_failed =
      let full =
        rollout_percentage_full t.converted t.failed mode e hs hi long fits conv none_failed in
      let ((st₁, _), s₁) = before_rollout E m ingresses gateways t st s in
      let share : Share = record { scheduled = pos 100; percentage = pos 100; awaiting = false } in
      let st' = record_share m share (pos 100) t.converted t.route_changes st₁ in
      let f = full_findings ingresses t in
      let (completion, _, _, phase) = settled E m f st' s₁ (settle E m f st' s₁).1 in
      let done = phase ∙ ap phase_of (full_findings-finished ingresses t any few none_failed) in
      rw (conclude_full ingresses gateways t st s free passed (rw clock full), concluded)
        (done, completion, ap requeue_of done)
