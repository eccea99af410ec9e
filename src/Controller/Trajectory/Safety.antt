-- ===== src/Controller/Trajectory/Safety.antt =====
-- What every status that is reached says of the traffic, whatever the edits, the hooks, the health
-- checks and the API server have been.
use transfergw.Base.{◌≡◌, Bool, ap, ◌⊎◌, inl, inr, none, some, List, true, false, arith, Bool-cases}
use transfergw.Base.Int.{ℤ, pos, ◌-ℤ◌}
use transfergw.Kube.{Ingress}
use transfergw.Api.{TransferGw, TransferGwStatus, Phase}
use transfergw.Env.{Env}
use transfergw.Action.{Action, ◌>>=◌, return, always, wrap, Post, Ensures, Ensures-bind}
use transfergw.Hooks.{pre_conversion, run_hook}
use transfergw.Rollout.Bounds.{IsPercentage}
use transfergw.Selector.{select_ingresses}
use transfergw.Controller.{Runtime}
use transfergw.Controller.Convert.{Tally}
use transfergw.Controller.Reconcile.{prepare_gateway, deploy, conclude, migrate, start}
use transfergw.Controller.Traffic.{
  run_hook-kept, kept, conclude_traffic, conclude_complete, conclude_rolled_back,
}
use transfergw.Controller.Trajectory.{
  IsFresh, next_status, Step, edit, write, Reach, created, later,
}
use transfergw.Controller.Trajectory.Keeps.{IsDistinct, run_hook-IsDistinct, conclude-IsDistinct}

-- Nothing is recorded and nothing moved, or the two shares are percentages that make 100, and the
-- completion is the Gateway's.
abbrev pub IsSplit : TransferGwStatus → Type 0
IsSplit st =
    ((st.traffic_routing_status ≡ none) × (st.completion_percentage ≡ pos 0))
    ⊎ (IsPercentage st.completion_percentage
        × (st.traffic_routing_status
            ≡ some (record {
              gateway = st.completion_percentage;
              ingress = pos 100 -ℤ st.completion_percentage;
            })))

-- A phase that speaks of the traffic agrees with the share.
pub record IsRecorded (st : TransferGwStatus) : Type 0 where
  pub split : IsSplit st
  pub moved_back : st.phase ≡ Phase.rolled_back → st.completion_percentage ≡ pos 0
  pub moved : st.phase ≡ Phase.complete → st.completion_percentage ≡ pos 100
  pub distinct : IsDistinct st

IsFresh-IsRecorded : (st : TransferGwStatus) → IsFresh st → IsRecorded st
unfolding IsDistinct
IsFresh-IsRecorded st f = record {
  split = inl (f.unrouted, f.untouched);
  moved_back = λ h. f.untouched;
  moved = λ h. absurd (ground (arith, f.unset, h));
  distinct = rw f.unconditioned tt;
}

-- A held migration keeps its share and says that it is pending.
IsRecorded-pending :
    (st st' : TransferGwStatus)
    → kept st' ≡ kept st
    → IsDistinct st'
    → IsRecorded st
    → IsRecorded (record st' { phase = Phase.pending })
unfolding kept IsDistinct
IsRecorded-pending st st' k d r =
    let c = ap (λ (x : TransferGwStatus). x.completion_percentage) k in
    let t = ap (λ (x : TransferGwStatus). x.traffic_routing_status) k in
    record {
      split = rw (c, t) r.split;
      moved_back = λ h. absurd (ground (arith, h));
      moved = λ h. absurd (ground (arith, h));
      distinct = d;
    }

IsRecorded-timed :
    (st : TransferGwStatus) (time : ℤ)
    → IsRecorded st
    → IsRecorded (record st { last_transition_time = some time })
unfolding IsDistinct
IsRecorded-timed st time r = record {
  split = r.split;
  moved_back = r.moved_back;
  moved = r.moved;
  distinct = r.distinct;
}

converting-IsDistinct :
    (st : TransferGwStatus) → IsDistinct st → IsDistinct (record st { phase = Phase.converting })
unfolding IsDistinct
converting-IsDistinct st d = d

module _ (E : Env) (rt : Runtime) (m : TransferGw E.Float) where
  concluded-IsRecorded :
      (ingresses : List Ingress) (gateways : ℤ) (t : Tally) (st : TransferGwStatus) (s : E.State)
      → IsPercentage m.spec.rollout.approved_percentage
      → IsDistinct st
      → IsRecorded (conclude E m ingresses gateways t st s).0
  concluded-IsRecorded ingresses gateways t st s h d = record {
    split = inr (conclude_traffic E m ingresses gateways t st s h);
    moved_back = λ c. (conclude_rolled_back E m ingresses gateways t st s c).0;
    moved = λ c. (conclude_complete E m ingresses gateways t st s h.1 c).0;
    distinct = conclude-IsDistinct E m ingresses gateways t st s d;
  }

  migrate-IsRecorded :
      (st : TransferGwStatus)
      → IsPercentage m.spec.rollout.approved_percentage
      → IsDistinct st
      → Ensures IsRecorded (migrate E rt return m st)
  unfolding migrate
  migrate-IsRecorded st h d =
      Ensures-bind IsRecorded (wrap "selecting ingresses" (select_ingresses E m.spec.selector))
        (λ ingresses. prepare_gateway E rt m ingresses >>= rest ingresses)
        λ ingresses.
          Ensures-bind IsRecorded (prepare_gateway E rt m ingresses) (rest ingresses) λ gateways s.
            concluded-IsRecorded ingresses gateways _ _ _ h (converting-IsDistinct st d)
    where
      rest : List Ingress → ℤ → Action E.State TransferGwStatus
      rest ingresses gateways = do
        t ← always (deploy E rt m ingresses)
        always (conclude E m ingresses gateways t (record st { phase = Phase.converting }))

  -- From a status that is recorded a reconcile comes to one.
  next_status-IsRecorded :
      IsPercentage m.spec.rollout.approved_percentage
      → IsRecorded m.status
      → Ensures IsRecorded (next_status E rt m)
  unfolding next_status start
  next_status-IsRecorded h r s = go (Bool-cases (run_hook E m m.status pre_conversion true s).0.1)
    where
      open E use {State}

      asked : (TransferGwStatus × Bool) × State
      asked = run_hook E m m.status pre_conversion true s

      distinct : IsDistinct asked.0.0
      distinct = run_hook-IsDistinct E m m.status pre_conversion true s r.distinct

      go : (asked.0.1 ≡ true) ⊎ (asked.0.1 ≡ false) → Post IsRecorded (next_status E rt m s).0
      go (inl e) = rw (e, next_status, start) (migrate-IsRecorded asked.0.0 h distinct asked.1)
      go (inr e) =
          rw (e, next_status, start)
            (IsRecorded-pending m.status asked.0.0
              (run_hook-kept E m m.status pre_conversion true s) distinct r)

-- The invariant, with what an edit may set.
IsSafe : {Float : Type 0} → TransferGw Float → Type 0
IsSafe m = IsRecorded m.status × IsPercentage m.spec.rollout.approved_percentage

module _ (E : Env) (rt : Runtime) where
  Step-IsSafe : {m m' : TransferGw E.Float} → Step E rt m m' → IsSafe m → IsSafe m'
  unfolding IsSafe
  Step-IsSafe {m} (edit spec generation h) (r, _) = (r, h)
  Step-IsSafe {m} (write s s' st time _ _ e) (r, h) =
      (IsRecorded-timed st time (rw e at (next_status-IsRecorded E rt m h r s)), h)

  Reach-IsSafe : {m : TransferGw E.Float} → Reach E rt m → IsSafe m
  unfolding IsSafe
  Reach-IsSafe (created m f h) = (IsFresh-IsRecorded m.status f, h)
  Reach-IsSafe (later r st) = Step-IsSafe st (Reach-IsSafe r)

  -- Whatever sequence of edits and of reconciles a new object goes through, with every approved
  -- percentage from 0 to 100 and in any state of the world: the status records no shares and the
  -- completion 0, or shares of the Gateway and the Ingress that are percentages and make 100
  -- together, the Gateway's being the completion; the phase RolledBack comes with the completion
  -- 0 and Complete with 100; and no condition type is listed twice.
  pub Reach-IsRecorded : {m : TransferGw E.Float} → Reach E rt m → IsRecorded m.status
  unfolding IsSafe
  Reach-IsRecorded r = (Reach-IsSafe r).0
