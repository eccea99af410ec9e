-- ===== src/Hooks.antt =====
-- Lifecycle hooks: hookFor, hookConditionType and runHook of
-- internal/controller/transfergw_controller.go, with the stages of internal/lifecycle/hook.go.
-- The log lines of runHook are left out.
pub mod Laws
use transfergw.Base.{
  ◌≡◌, String, ◌<>◌, Bool, true, false, ◌&&◌, not, Option, none, some, List, [], ◌∷◌, ◌==◌,
  string_eq, if◌then◌else◌,
}
use transfergw.Base.Int.{ℤ, eqb_ℤ}
use transfergw.Kube.{Condition, ConditionStatus, cond_true, cond_false}
use transfergw.Api.{TransferGw, TransferGwStatus, HooksSpec, LifecycleSpec, WebhookSpec}
use transfergw.Env.{Env, HookEvent, Error}
use transfergw.Conditions.{condition_status_eq, set_condition, find_condition}

pub data Stage : Type 0 where
  pre_conversion post_conversion pre_rollout post_rollout : Stage

unfoldable pub stage_name : Stage → String
stage_name pre_conversion = "PreConversion"
stage_name post_conversion = "PostConversion"
stage_name pre_rollout = "PreRollout"
stage_name post_rollout = "PostRollout"

unfoldable pub hook_condition_type : Stage → String
unfolding stage_name
hook_condition_type stage = "Hook" <> stage_name stage

hook_of : HooksSpec → Stage → Option WebhookSpec
hook_of h pre_conversion = h.pre_conversion
hook_of h post_conversion = h.post_conversion
hook_of h pre_rollout = h.pre_rollout
hook_of h post_rollout = h.post_rollout

hooks_of : Option LifecycleSpec → Option HooksSpec
hooks_of none = none
hooks_of (some l) = l.hooks

unfoldable pub hook_for : {Float : Type 0} → TransferGw Float → Stage → Option WebhookSpec
unfolding hook_of hooks_of
hook_for m stage = elim (hooks_of m.spec.lifecycle) [ none ↦ none | some h ↦ hook_of h stage ]

-- `c.ObservedGeneration = g`, through the pointer that findCondition returns.
unfoldable pub stamp_in : List Condition → String → ℤ → List Condition
stamp_in [] type g = []
stamp_in (c ∷ cs) type g =
    let rest = stamp_in cs type g in
    if c.type == type then record c { observed_generation = g } ∷ cs else c ∷ rest

unfoldable pub stamp_condition : TransferGwStatus → String → ℤ → TransferGwStatus
unfolding stamp_in
stamp_condition st type g = record st { conditions = stamp_in st.conditions type g }

is_true : ConditionStatus → Bool
is_true cond_true = true
is_true _ = false

-- A recorded approval of this generation of the spec.
unfoldable pub is_approved : Option Condition → ℤ → Bool
unfolding is_true
is_approved none g = false
is_approved (some c) g = eqb_ℤ c.observed_generation g && is_true c.status

-- The URL of the stage's hook, unless there is none or its approval is on record: the first part
-- of runHook, up to its two early returns.
unfoldable pub hook_to_ask :
    {Float : Type 0} → TransferGw Float → TransferGwStatus → Stage → Option String
hook_to_ask m st stage = elim (hook_for m stage) [
  | none ↦ none
  | some hook ↦
      if hook.url == ""
      then none
      else if is_approved (find_condition st (hook_condition_type stage)) m.generation
      then none
      else some hook.url
]

-- How the answer of a hook is recorded.
unfoldable pub record_answer :
    {Float : Type 0} → TransferGw Float → TransferGwStatus → Stage → Bool → ℤ → TransferGwStatus
record_answer m st stage proceed now =
    let type = hook_condition_type stage in
    let name = stage_name stage in
    stamp_condition
      (if proceed
        then set_condition st type cond_true "Approved" (name <> " hook approved") now
        else set_condition st type cond_false "Blocked" (name <> " hook has not approved yet") now)
      type m.generation

module _ (E : Env) where
  open E use {State, Float, now, rfc3339, hook_caller}

  -- The call itself, and the answer's record: the part of runHook that is reached without a
  -- recorded approval.
  unfoldable pub ask_hook :
      TransferGw Float
      → TransferGwStatus
      → Stage
      → String
      → (String → HookEvent → State → (Bool × Option Error) × State)
      → State
      → (TransferGwStatus × Bool) × State
  ask_hook m st stage url call s =
      let (t, s₁) = now s in
      let ((proceed, _), s₂) =
        call url
          (record {
            migration = m.namespace <> ("/" <> m.name);
            stage = stage_name stage;
            time = rfc3339 t;
          })
          s₁ in
      let (t', s₃) = now s₂ in ((record_answer m st stage proceed t', proceed), s₃)

  -- The rest of runHook calls the hook, if there is one and a caller for it.
  unfoldable pub run_hook :
      TransferGw Float → TransferGwStatus → Stage → Bool → State → (TransferGwStatus × Bool) × State
  run_hook m st stage blocking s = elim (hook_to_ask m st stage) [
    | none ↦ ((st, true), s)
    | some url ↦ elim hook_caller [
      | none ↦ ((st, true), s)
      | some call ↦
          let ((st', proceed), s') = ask_hook m st stage url call s in
          ((st', if blocking then proceed else true), s')
    ]
  ]
