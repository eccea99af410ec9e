-- ===== src/Controller/Trajectory.antt =====
-- A migration over any sequence of edits of its spec and of reconciles of
-- internal/controller/transfergw_controller.go: the status that a reconcile comes to, the steps of
-- the object, and the statuses that are reached.
pub mod Keeps
pub mod Safety
pub mod Progress
pub mod Requests
pub mod Completion
use transfergw.Base.{◌≡◌, false, none, some, []}
use transfergw.Base.Int.{ℤ, pos}
use transfergw.Api.{TransferGw, TransferGwSpec, TransferGwStatus, Phase}
use transfergw.Env.{Env, ok}
use transfergw.Action.{Action, return}
use transfergw.Rollout.Bounds.{IsPercentage}
use transfergw.Controller.{Runtime}
use transfergw.Controller.Reconcile.{start, is_held}

-- A new object has no status yet.
pub record IsFresh (st : TransferGwStatus) : Type 0 where
  pub unset : st.phase ≡ Phase.unset
  pub untouched : st.completion_percentage ≡ pos 0
  pub unrouted : st.traffic_routing_status ≡ none
  pub unconditioned : st.conditions ≡ []

module _ (E : Env) (rt : Runtime) where
  open E use {State, Float}

  -- The status that a reconcile comes to: the reconcile itself, with the status for its result in
  -- place of the write.
  unfoldable pub next_status : TransferGw Float → Action State TransferGwStatus
  next_status = start E rt return

  -- One step of the object: its spec is edited, with an approved percentage that the API server
  -- accepts, or a reconcile that is neither paused nor held writes its status, in any state of the
  -- world.
  pub data Step (m : TransferGw Float) : TransferGw Float → Type 0 where
    edit :
        (spec : TransferGwSpec Float) (generation : ℤ)
        → IsPercentage spec.rollout.approved_percentage
        → Step m (record m { spec = spec; generation = generation })
    write :
        (s s' : State) (st : TransferGwStatus) (time : ℤ)
        → m.spec.rollout.paused ≡ false
        → is_held m ≡ false
        → next_status m s ≡ (ok st, s')
        → Step m (record m { status = record st { last_transition_time = some time } })

  -- The objects that a new one can become.
  pub data Reach : TransferGw Float → Type 0 where
    created :
        (m : TransferGw Float)
        → IsFresh m.status
        → IsPercentage m.spec.rollout.approved_percentage
        → Reach m
    later : {m m' : TransferGw Float} → Reach m → Step m m' → Reach m'
