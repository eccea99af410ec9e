-- ===== src/Controller/Reconcile.antt =====
-- Reconcile and patchStatus of internal/controller/transfergw_controller.go.
use transfergw.Base.{
  String, Bool, true, false, not, ◌&&◌, Option, none, some, List, [], ◌++◌, string_eq,
  if◌then◌else◌, length,
}
use transfergw.Base.Int.{ℤ, pos, ◌-ℤ◌, ltb_ℤ, eqb_ℤ, i32}
use transfergw.Kube.{Ingress, ObjectKey}
use transfergw.Api.{TransferGw, TransferGwStatus, Phase, RouteChange, AnnotationPolicySpec}
use transfergw.Env.{Env, not_found, conflict, ok, err}
use transfergw.Action.{Action, ◌>>=◌, ◌>>◌, return, always, wrap}
use transfergw.Hooks.{pre_conversion, post_conversion, pre_rollout, run_hook}
use transfergw.Health.{Breach}
use transfergw.Rollout.{rollout_percentage}
use transfergw.Validator.{target_namespace, gateway_name}
use transfergw.Selector.{select_ingresses}
use transfergw.Conversion.{Options}
use transfergw.Canary.{pair}
use transfergw.Overlap.{check}
use transfergw.Controller.{Runtime}
use transfergw.Controller.Apply.{resolve_service_port, ensure_gateway, prune_orphaned_routes}
use transfergw.Controller.Convert.{Tally, convert_all}
use transfergw.Controller.Check.{ingress_namespaces, evaluate_health}
use transfergw.Controller.Status.{record_counts, approved, settle, resume}

-- ctrl.Result: when the request comes back, in nanoseconds.
pub data Requeue : Type 0 where
  no_requeue : Requeue
  requeue_after : ℤ → Requeue

-- 30 * time.Second
abbrev pub requeue_interval : ℤ
requeue_interval = pos 30000000000

unfoldable pub annotation_policy : Option AnnotationPolicySpec → Option (List String)
annotation_policy none = none
annotation_policy (some p) = some p.drop

-- Held after a rollback, until the spec is edited.
is_rolled_back : Phase → Bool
is_rolled_back Phase.rolled_back = true
is_rolled_back _ = false

unfoldable pub is_held : {Float : Type 0} → TransferGw Float → Bool
unfolding is_rolled_back
is_held m = is_rolled_back m.status.phase && eqb_ℤ m.status.rollback_generation m.generation

-- The last phases, of which no request comes back.
unfoldable pub requeue_of : Phase → Requeue
requeue_of Phase.complete = no_requeue
requeue_of Phase.failed = no_requeue
requeue_of Phase.rolled_back = no_requeue
requeue_of _ = requeue_after requeue_interval

-- The share of the Gateway before the health check, and what it was found with.
pub record Share : Type 0 where
  pub scheduled : ℤ
  pub percentage : ℤ
  pub awaiting : Bool

-- Lines that record the share: the Ingress keeps the rest.
unfoldable pub record_share :
    {Float : Type 0}
    → TransferGw Float
    → Share
    → ℤ
    → ℤ
    → List RouteChange
    → TransferGwStatus
    → TransferGwStatus
record_share m share percentage converted changes st = record st {
  completion_percentage = percentage;
  traffic_routing_status =
      some (record { gateway = percentage; ingress = i32 (pos 100 -ℤ percentage) });
  rollback_ready = ltb_ℤ (pos 0) converted;
  pending_plan =
      if m.spec.rollout.require_approval
      then some (record {
        next_percentage = share.scheduled;
        current_percentage = percentage;
        route_changes = changes;
      })
      else none;
}

-- A breach parks the share at rollbackPercentage.
unfoldable pub after_check : {Float : Type 0} → Option (Breach Float) → ℤ → ℤ
after_check none percentage = percentage
after_check (some b) percentage = pos 0

module _ (E : Env) where
  open E use {State, Float, now, get_migration}

  patch_again : ObjectKey → TransferGwStatus → Action State (Unit {0})
  patch_again k st = do fresh ← get_migration k; E.patch_status k st

  -- Written again once, on the fresh object, after a conflict.
  unfoldable pub patch_status : TransferGw Float → TransferGwStatus → Action State (Unit {0})
  unfolding patch_again
  patch_status m st s =
      let k : ObjectKey = record { namespace = m.namespace; name = m.name } in
      let (r, s') = E.patch_status k st s in
      elim r [
        | ok _ ↦ (ok tt, s')
        | err e ↦ elim e.kind [ conflict ↦ patch_again k st s' | _ ↦ (err e, s') ]
      ]

  -- `now := metav1.Now(); status.LastTransitionTime = &now`, and the write.
  unfoldable pub finish : TransferGw Float → TransferGwStatus → Action State Requeue
  unfolding patch_status
  finish m st = do
    t ← always now
    wrap "updating status" (patch_status m (record st { last_transition_time = some t }))
    return (requeue_of st.phase)

  -- The PreRollout hook gates the first move away from 0.
  unfoldable pub gate :
      TransferGw Float → TransferGwStatus → ℤ → State → (TransferGwStatus × Bool) × State
  gate m st percentage s =
      let ((st', proceed), s') = run_hook E m st pre_rollout true s in
      if ltb_ℤ (pos 0) percentage then ((st', not proceed), s') else ((st, false), s)

  -- The percentage of the schedule, the hook's gate and the approval. The clock is read whether or
  -- not the mode asks for it.
  unfoldable pub choose_share :
      TransferGw Float → Tally → TransferGwStatus → State → (TransferGwStatus × Share) × State
  unfolding gate
  choose_share m t st s =
      let (time, s₁) = now s in
      let percentage = rollout_percentage m time t.converted t.failed in
      let ((st', awaiting), s₂) = gate m st percentage s₁ in
      let scheduled = if awaiting then pos 0 else percentage in
      (
        (
          st',
          record { scheduled = scheduled; percentage = approved m scheduled; awaiting = awaiting },
        ),
        s₂,
      )

  -- Health is compared only while traffic is split.
  unfoldable pub check_share :
      TransferGw Float
      → List Ingress
      → ℤ
      → TransferGwStatus
      → State
      → (TransferGwStatus × Option (Breach Float)) × State
  check_share m ingresses percentage st s =
      let checked =
        evaluate_health E m
          (record {
            gateway_name = gateway_name m;
            gateway_namespace = target_namespace m;
            namespaces = ingress_namespaces ingresses;
          })
          st s in
      if ltb_ℤ (pos 0) percentage && ltb_ℤ percentage (pos 100) then checked else ((st, none), s)

  -- The part behind the routes: the status that is written.
  unfoldable pub conclude :
      TransferGw Float
      → List Ingress
      → ℤ
      → Tally
      → TransferGwStatus
      → State
      → TransferGwStatus × State
  unfolding choose_share check_share after_check
  conclude m ingresses gateways t st s =
      let total = i32 (pos (length ingresses)) in
      let ((st₁, _), s₁) =
        run_hook E m (record_counts total gateways t st) post_conversion false s in
      let ((st₂, share), s₂) = choose_share m t st₁ s₁ in
      let ((st₃, breach), s₃) = check_share m ingresses share.percentage st₂ s₂ in
      let percentage = after_check breach share.percentage in
      let st₄ = record_share m share percentage t.converted t.route_changes st₃ in
      let (st₅, s₅) =
        settle E m
          (record {
            breach = breach;
            awaiting_pre_rollout = share.awaiting;
            total = total;
            converted = t.converted;
            failed = t.failed;
            percentage = percentage;
          })
          st₄ s₃ in
      resume E breach st₅ s₅

  -- convertOpts
  unfoldable pub convert_options : TransferGw Float → Options State
  unfolding annotation_policy
  convert_options m = record {
    gateway_name = gateway_name m;
    gateway_namespace = target_namespace m;
    annotation_policy = annotation_policy m.spec.conversion.annotation_policy;
    port_resolver = some (resolve_service_port E);
  }

  module _ (rt : Runtime) where
    -- The Gateway, where the migration generates one, and how many that makes.
    unfoldable pub prepare_gateway : TransferGw Float → List Ingress → Action State ℤ
    prepare_gateway m ingresses =
        if m.spec.conversion.generate_gateway
        then (do
          op ←
              wrap "ensuring gateway"
                (ensure_gateway E m (gateway_name m) (target_namespace m) ingresses)
          return (pos 1))
        else return (pos 0)

    -- The loop over the Ingresses, and the routes that are pruned behind it.
    unfoldable pub deploy : TransferGw Float → List Ingress → State → Tally × State
    unfolding convert_options
    deploy m ingresses s =
        let pairs = pair rt.canary_order ingresses in
        let (t, s₁) =
          convert_all E rt m (convert_options m) pairs ingresses
            (record {
              issues = check rt.overlap_order ingresses pairs.names;
              converted = pos 0;
              failed = pos 0;
              desired = [];
              route_changes = [];
            })
            s in
        let (pruned, s₂) = prune_orphaned_routes E m t.desired s₁ in
        (record t { route_changes = t.route_changes ++ pruned.changes }, s₂)

    -- The part behind the PreConversion hook, with what is done with the status at its end.
    unfoldable pub migrate :
        {A : Type 0}
        → (TransferGwStatus → Action State A)
        → TransferGw Float
        → TransferGwStatus
        → Action State A
    unfolding prepare_gateway
    migrate write m st = do
      ingresses ← wrap "selecting ingresses" (select_ingresses E m.spec.selector)
      gateways ← prepare_gateway m ingresses
      t ← always (deploy m ingresses)
      st' ← always (conclude m ingresses gateways t (record st { phase = Phase.converting }))
      write st'

    -- The PreConversion hook gates everything behind it.
    unfoldable pub start :
        {A : Type 0} → (TransferGwStatus → Action State A) → TransferGw Float → Action State A
    start write m s =
        let ((st, proceed), s') = run_hook E m m.status pre_conversion true s in
        if proceed then migrate write m st s' else write (record st { phase = Phase.pending }) s'

    -- A migration that was read.
    unfoldable pub reconcile_migration : TransferGw Float → Action State Requeue
    reconcile_migration m =
        if m.spec.rollout.paused
        then return no_requeue
        else if is_held m
        then return no_requeue
        else start (finish m) m

    unfoldable pub reconcile : ObjectKey → Action State Requeue
    reconcile k s =
        let (r, s') = get_migration k s in
        elim r [
          | ok m ↦ reconcile_migration m s'
          | err e ↦ elim e.kind [ not_found ↦ (ok no_requeue, s') | _ ↦ (err e, s') ]
        ]
