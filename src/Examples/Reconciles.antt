-- ===== src/Examples/Reconciles.antt =====
-- The theorems on sequences of reconciles and on a whole reconcile, applied.
use transfergw.Base.{
  ℕ, ◌+◌, ◌*◌, ◌/◌, ◌≤◌, ◌<◌, ◌≡◌, ◌≢◌, refl, true, false, none, some, [], ◌∷◌, arith, Option,
}
use transfergw.Base.Int.{pos}
use transfergw.Api.{TransferGw, TransferGwStatus, Phase}
use transfergw.Env.{Env, ok}
use transfergw.Kube.{cond_false, ObjectKey}
use transfergw.Action.{Refuses}
use transfergw.Rollout.{pace}
use transfergw.Rollout.Schedule.{pace_at}
use transfergw.Controller.Reconcile.{
  reconcile_migration, reconcile, requeue_of, no_requeue, requeue_after, is_held,
}
use transfergw.Controller.Traffic.{concluded}
use transfergw.Controller.Trajectory.{IsFresh, next_status, Reach, created, later, write, edit}
use transfergw.Controller.Trajectory.Safety.{IsRecorded, Reach-IsRecorded}
use transfergw.Controller.Trajectory.Progress.{Failure, reconcile_migration-Failure}
use transfergw.Controller.Trajectory.Requests.{Answers, reconcile-Answers}
use transfergw.Controller.Trajectory.Completion.{
  after_conversion, before_rollout, conclude_completes,
}
use transfergw.Examples.World.{world, runtime, migration, ingress, hooked, fresh_status, tally}

fresh : IsFresh fresh_status
fresh = record { unset = refl; untouched = refl; unrouted = refl; unconditioned = refl }

-- The world with a hook that holds everything.
abbrev strict : Env
strict = record world { hook_caller = some (λ url event s. ((false, none), s)) }

-- What the first reconcile writes: the hook blocks.
abbrev blocked : TransferGwStatus
blocked = record fresh_status {
  phase = Phase.pending;
  conditions =
      record {
        type = "HookPreConversion";
        status = cond_false;
        observed_generation = pos 3;
        last_transition_time = pos 1000;
        reason = "Blocked";
        message = "PreConversion hook has not approved yet";
      }
      ∷ [];
}

first_write : next_status strict runtime (migration "canary" false) 1000 ≡ (ok blocked, 1000)
unfolding next_status transfergw.Hooks.run_hook transfergw.Hooks.hook_to_ask
    transfergw.Hooks.hook_for transfergw.Base.string_eq transfergw.Hooks.is_approved
    transfergw.Conditions.find_condition transfergw.Hooks.ask_hook transfergw.Hooks.record_answer
    transfergw.Hooks.stamp_condition transfergw.Conditions.set_condition
    transfergw.Conditions.set_in transfergw.Hooks.hook_condition_type
    transfergw.Controller.Reconcile.start
first_write = refl

-- Created, reconciled, and edited to take the whole traffic at once.
abbrev edited : TransferGw ℕ
edited = record (migration "immediate" false) {
  generation = pos 4;
  status = record blocked { last_transition_time = some (pos 1000) };
}

reached : Reach strict runtime edited
unfolding is_held
reached =
    later
      (later (created (migration "canary" false) fresh (omega arith))
        (write 1000 1000 blocked (pos 1000) refl refl first_write))
      (edit (migration "immediate" false).spec (pos 4) (omega arith))

Reach-IsRecorded_example : IsRecorded edited.status
Reach-IsRecorded_example = Reach-IsRecorded strict runtime reached

-- The migration, read by that world.
abbrev waiting : Env
waiting = record strict { get_migration = λ k s. (ok (migration "canary" false), s) }

abbrev web : ObjectKey
web = record { namespace = "shop"; name = "web" }

comes_back : (reconcile waiting runtime web 1000).0 ≡ ok (requeue_after (pos 30000000000))
unfolding reconcile transfergw.Hooks.run_hook transfergw.Hooks.hook_to_ask transfergw.Hooks.hook_for
    transfergw.Base.string_eq transfergw.Hooks.is_approved transfergw.Conditions.find_condition
    transfergw.Hooks.ask_hook transfergw.Hooks.record_answer transfergw.Hooks.stamp_condition
    transfergw.Conditions.set_condition transfergw.Conditions.set_in
    transfergw.Hooks.hook_condition_type transfergw.Controller.Reconcile.start reconcile_migration
    is_held transfergw.Controller.Reconcile.finish requeue_of transfergw.Action.wrap_result
comes_back = refl

reconcile-Answers_example :
    Answers waiting runtime (migration "canary" false) 1000 (requeue_after (pos 30000000000))
reconcile-Answers_example =
    reconcile-Answers waiting runtime web 1000 (migration "canary" false)
      (requeue_after (pos 30000000000)) refl comes_back

reconcile_migration-Failure_example :
    Refuses
      (Failure world runtime (migration "canary" false))
      (reconcile_migration world runtime (migration "canary" false) 1000).0
reconcile_migration-Failure_example =
    reconcile_migration-Failure world runtime (migration "canary" false) 1000

-- A canary with a hook behind the conversion and one before the rollout.
abbrev watched : TransferGw ℕ
watched = record (migration "canary" false) {
  spec = record ((migration "canary" false).spec) {
    lifecycle = some (record hooked {
      hooks = some (record {
        pre_conversion = none;
        post_conversion = some (record { url = "http://converted" });
        pre_rollout = some (record { url = "http://gate" });
        post_rollout = none;
      });
    });
  };
}

watched_paced : pace watched.spec.rollout.canary ≡ pace_at 25 25 3600000000000
unfolding pace
watched_paced = refl

lets_pass :
    (before_rollout world watched
      (ingress "web" [] ∷ [])
      (pos 1)
      tally
      fresh_status
      360000000001000).0.1
    ≡ true
unfolding transfergw.Hooks.run_hook transfergw.Hooks.hook_to_ask transfergw.Hooks.hook_for
    transfergw.Base.string_eq transfergw.Hooks.is_approved transfergw.Conditions.find_condition
    transfergw.Hooks.ask_hook transfergw.Hooks.record_answer transfergw.Hooks.stamp_condition
    transfergw.Conditions.set_condition transfergw.Conditions.set_in transfergw.Hooks.stamp_in
    transfergw.Hooks.hook_condition_type transfergw.Conditions.find_in
    transfergw.Controller.Status.record_counts
lets_pass = refl

reads_clock :
    (world.now
      (after_conversion world watched
        (ingress "web" [] ∷ [])
        (pos 1)
        tally
        fresh_status
        360000000001000).1).0
    ≡ pos (1000 + 360000000000000)
unfolding transfergw.Hooks.run_hook transfergw.Hooks.hook_to_ask transfergw.Hooks.hook_for
    transfergw.Base.string_eq transfergw.Hooks.is_approved transfergw.Conditions.find_condition
    transfergw.Hooks.ask_hook transfergw.Controller.Status.record_counts
reads_clock = refl

-- After 100 hours.
conclude_completes_example :
    let end =
      concluded world watched (ingress "web" [] ∷ []) (pos 1) tally fresh_status 360000000001000 in
    (end.phase ≡ Phase.complete)
    × (end.completion_percentage ≡ pos 100)
    × (requeue_of end.phase ≡ no_requeue)
conclude_completes_example =
    conclude_completes world watched 1000 25 25 3600000000000 360000000000000 refl watched_paced
      (ingress "web" [] ∷ []) (pos 1) tally fresh_status 360000000001000 refl refl lets_pass
      reads_clock (omega arith) (omega arith) (omega arith) (omega arith) (omega arith)
      (omega arith) (omega arith) (λ h. ground arith) refl
