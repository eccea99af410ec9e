-- ===== src/Hooks/Laws.antt =====
-- What runHook does to the status, and when it asks.
use transfergw.Base.{
  ◌≡◌, ◌≢◌, ◌⊎◌, inl, inr, String, Bool, true, false, Option, none, some, Option-cases, List, [],
  ◌∷◌, ◌==◌, string_eq, arith, if◌then◌else◌,
}
use transfergw.Base.Int.{ℤ, eqb_ℤ_refl}
use transfergw.Kube.{Condition}
use transfergw.Api.{TransferGw, TransferGwStatus}
use transfergw.Env.{Env, HookEvent, Error}
use transfergw.Conditions.{condition_status_eq, set_condition, find_in, find_condition}
use transfergw.Conditions.Laws.{find_in-set_in}
use transfergw.Hooks.{
  Stage, hook_condition_type, hook_to_ask, stamp_in, stamp_condition, is_approved, record_answer,
  ask_hook, run_hook,
}

stamped : Option Condition → ℤ → Option Condition
stamped none g = none
stamped (some c) g = some (record c { observed_generation = g })

find_in-stamp_in :
    (cs : List Condition) (type other : String) (g : ℤ)
    → find_in (stamp_in cs type g) other
      ≡ (if type == other then stamped (find_in cs other) g else find_in cs other)
unfolding find_in stamp_in stamped
find_in-stamp_in [] type other g = ground arith
find_in-stamp_in (c ∷ cs) type other g = ground (arith, find_in-stamp_in cs type other g)

module _ {Float : Type 0} (m : TransferGw Float) (st : TransferGwStatus) (stage : Stage) where
  record_answer-is_approved :
      (now : ℤ)
      → is_approved
          (find_condition (record_answer m st stage true now) (hook_condition_type stage))
          m.generation
        ≡ true
  unfolding record_answer stamp_condition is_approved find_condition set_condition stamped
  record_answer-is_approved now =
      rw (find_in-stamp_in, find_in-set_in) (ground (arith, eqb_ℤ_refl m.generation))

  find_condition-record_answer :
      (proceed : Bool) (now : ℤ) (other : String)
      → other ≢ hook_condition_type stage
      → find_condition (record_answer m st stage proceed now) other ≡ find_condition st other
  unfolding record_answer stamp_condition find_condition set_condition
  find_condition-record_answer true now other h =
      rw (find_in-stamp_in, find_in-set_in) (ground arith)
  find_condition-record_answer false now other h =
      rw (find_in-stamp_in, find_in-set_in) (ground arith)

module _ (E : Env) (m : TransferGw E.Float) (st : TransferGwStatus) (stage : Stage) where
  -- The two ways through `run_hook`: it lets the migration pass and does nothing, in any state of
  -- the world, or it asks.
  pub run_hook-cases :
      (blocking : Bool) (s : E.State)
      → ((b : Bool) (t : E.State) → run_hook E m st stage b t ≡ ((st, true), t))
        ⊎ ((url : String) × (call : String → HookEvent → E.State → (Bool × Option Error) × E.State)
            × (let ((st', proceed), s') = ask_hook E m st stage url call s in
                run_hook E m st stage blocking s ≡ ((st', if blocking then proceed else true), s')))
  unfolding run_hook ask_hook
  run_hook-cases blocking s = elim (Option-cases (hook_to_ask m st stage)) [
    | inl e ↦ inl (λ b t. rw (e, run_hook))
    | inr (url, e) ↦ elim (Option-cases E.hook_caller) [
      | inl e' ↦ inl (λ b t. rw (e, e', run_hook))
      | inr (call, e') ↦ inr (url, call, rw (e, e', run_hook))
    ]
  ]

  ask_hook-is_approved :
      (url : String) (call : String → HookEvent → E.State → (Bool × Option Error) × E.State)
      (s : E.State)
      → (ask_hook E m st stage url call s).0.1 ≡ true
      → is_approved
          (find_condition (ask_hook E m st stage url call s).0.0 (hook_condition_type stage))
          m.generation
        ≡ true
  unfolding ask_hook
  ask_hook-is_approved url call s h = rw h (record_answer-is_approved m st stage _)

  -- A stage that does not block always lets the migration go on, whatever its hook answers.
  run_hook_nonblocking : (s : E.State) → (run_hook E m st stage false s).0.1 ≡ true
  unfolding run_hook
  run_hook_nonblocking s = ground arith

  -- Running a hook leaves the conditions of every other type, so those of the other stages too, as
  -- they were.
  find_condition-run_hook :
      (blocking : Bool) (s : E.State) (other : String)
      → other ≢ hook_condition_type stage
      → find_condition (run_hook E m st stage blocking s).0.0 other ≡ find_condition st other
  unfolding ask_hook
  find_condition-run_hook blocking s other h = elim (run_hook-cases blocking s) [
    | inl e ↦ rw (e blocking s)
    | inr (url, call, e) ↦ rw e (find_condition-record_answer m st stage _ _ other h)
  ]

  hook_to_ask_of_approved :
      (st' : TransferGwStatus)
      → is_approved (find_condition st' (hook_condition_type stage)) m.generation ≡ true
      → hook_to_ask m st' stage ≡ none
  unfolding hook_to_ask
  hook_to_ask_of_approved st' h = ground arith

  run_hook_of_none :
      (st' : TransferGwStatus) (again : Bool) (later : E.State)
      → hook_to_ask m st' stage ≡ none
      → run_hook E m st' stage again later ≡ ((st', true), later)
  unfolding run_hook
  run_hook_of_none st' again later e = rw (e, run_hook)

  -- Once a hook that blocks has let a migration pass, running it again at the same generation of
  -- the spec, in any later state of the world, calls nothing, changes nothing and lets it pass.
  pub run_hook_once :
      (again : Bool) (s later : E.State)
      → (run_hook E m st stage true s).0.1 ≡ true
      → run_hook E m (run_hook E m st stage true s).0.0 stage again later
        ≡ (((run_hook E m st stage true s).0.0, true), later)
  run_hook_once again s later h = elim (run_hook-cases true s) [
    | inl e ↦ rw (e true s) (e again later)
    | inr (url, call, e) ↦ rw e (
        run_hook_of_none _ again later
          (hook_to_ask_of_approved _ (ask_hook-is_approved url call s (rw e at h))))
  ]
