-- ===== src/Controller/Trajectory/Progress.antt =====
-- What a reconcile writes and which errors it can return.
use transfergw.Base.{◌≡◌, refl, some, List, true, false, string_eq, arith, if◌then◌else◌}
use transfergw.Base.Int.{ℤ, pos}
use transfergw.Kube.{Ingress}
use transfergw.Api.{TransferGw, TransferGwStatus, Phase}
use transfergw.Env.{Env, Error, OperationResult, ok, err}
use transfergw.Action.{
  Refuses, Action, ◌>>=◌, return, always, wrap, FailsOnly, FailsOnly-bind, FailsOnly-wrap,
  FailsOnly-if,
}
use transfergw.Hooks.{pre_conversion, run_hook}
use transfergw.Validator.{target_namespace, gateway_name}
use transfergw.Selector.{select_ingresses}
use transfergw.Controller.{Runtime}
use transfergw.Controller.Apply.{ensure_gateway}
use transfergw.Controller.Reconcile.{
  deploy, conclude, Requeue, requeue_of, is_held, prepare_gateway, finish, migrate, start,
  patch_status, reconcile_migration,
}
use transfergw.Controller.Trajectory.{next_status}

module _ (E : Env) (rt : Runtime) (m : TransferGw E.Float) where
  migrate-return :
      (st : TransferGwStatus) (s : E.State)
      → migrate E rt (finish E m) m st s ≡ (migrate E rt return m st >>= finish E m) s
  unfolding migrate
  migrate-return st s = ground arith

  -- A reconcile that proceeds writes the status that it comes to.
  pub start-next_status :
      (s : E.State) → start E rt (finish E m) m s ≡ (next_status E rt m >>= finish E m) s
  unfolding start next_status
  start-next_status s =
      let ((st, proceed), s') = run_hook E m m.status pre_conversion true s in
      let pending = record st { phase = Phase.pending } in
      elim proceed
        as (λ p.
          (if p then migrate E rt (finish E m) m st s' else finish E m pending s')
          ≡ ((λ _. if p then migrate E rt return m st s' else (ok pending, s')) >>= finish E m) s) [
            | true ↦ migrate-return st s'
            | false ↦ refl
          ]

  -- Why a reconcile returns an error.
  pub data Failure (e : Error) : Type 0 where
    selecting :
        (s : E.State) (e' : Error)
        → (select_ingresses E m.spec.selector s).0 ≡ err e'
        → e.kind ≡ e'.kind
        → Failure e
    gateway :
        (ingresses : List Ingress) (s : E.State) (e' : Error)
        → (ensure_gateway E m (gateway_name m) (target_namespace m) ingresses s).0 ≡ err e'
        → e.kind ≡ e'.kind
        → Failure e
    writing :
        (st : TransferGwStatus) (s : E.State) (e' : Error)
        → (patch_status E m st s).0 ≡ err e'
        → e.kind ≡ e'.kind
        → Failure e

  prepare_gateway-Failure :
      (ingresses : List Ingress) → FailsOnly Failure (prepare_gateway E rt m ingresses)
  unfolding prepare_gateway
  prepare_gateway-Failure ingresses =
      FailsOnly-if Failure m.spec.conversion.generate_gateway
        (wrap "ensuring gateway" apply >>= λ _. return (pos 1)) (return (pos 0))
        (FailsOnly-bind Failure (wrap "ensuring gateway" apply) (λ _. return (pos 1))
          (FailsOnly-wrap Failure "ensuring gateway" apply λ s e e' q k. gateway ingresses s e' q k)
          (λ _ _. tt))
        (λ _. tt)
    where
      apply : Action E.State OperationResult
      apply = ensure_gateway E m (gateway_name m) (target_namespace m) ingresses

  finish-Failure : (st : TransferGwStatus) → FailsOnly Failure (finish E m st)
  unfolding finish
  finish-Failure st s =
      FailsOnly-bind Failure (wrap "updating status" (patch_status E m stamped))
        (λ _. return (requeue_of st.phase))
        (FailsOnly-wrap Failure "updating status" (patch_status E m stamped)
          λ s e e' q k. writing stamped s e' q k)
        (λ _ _. tt) (E.now s).1
    where
      stamped : TransferGwStatus
      stamped = record st { last_transition_time = some (E.now s).0 }

  migrate-Failure : (st : TransferGwStatus) → FailsOnly Failure (migrate E rt (finish E m) m st)
  unfolding migrate
  migrate-Failure st =
      FailsOnly-bind Failure (wrap "selecting ingresses" select)
        (λ ingresses. prepare_gateway E rt m ingresses >>= rest ingresses)
        (FailsOnly-wrap Failure "selecting ingresses" select λ s e e' q k. selecting s e' q k)
        λ ingresses.
          FailsOnly-bind Failure (prepare_gateway E rt m ingresses) (rest ingresses)
            (prepare_gateway-Failure ingresses) (λ gateways s. finish-Failure _ _)
    where
      select : Action E.State (List Ingress)
      select = select_ingresses E m.spec.selector

      rest : List Ingress → ℤ → Action E.State Requeue
      rest ingresses gateways = do
        t ← always (deploy E rt m ingresses)
        st' ← always (conclude E m ingresses gateways t (record st { phase = Phase.converting }))
        finish E m st'

  start-Failure : FailsOnly Failure (start E rt (finish E m) m)
  unfolding start
  start-Failure s =
      let ((st, proceed), s') = run_hook E m m.status pre_conversion true s in
      let pending = record st { phase = Phase.pending } in
      elim proceed
        as (λ p.
          Refuses Failure
            (if p then migrate E rt (finish E m) m st s' else finish E m pending s').0) [
              | true ↦ migrate-Failure st s'
              | false ↦ finish-Failure pending s'
            ]

  -- Whatever the world answers, a reconcile of a migration that was read returns an error only if
  -- the Ingresses could not be selected, the Gateway not applied or the status not written, and
  -- the error is of the same kind. No Ingress that fails to convert, no route, hook, health
  -- check, alert or removal makes it fail.
  pub reconcile_migration-Failure : FailsOnly Failure (reconcile_migration E rt m)
  unfolding reconcile_migration
  reconcile_migration-Failure =
      FailsOnly-if Failure m.spec.rollout.paused _ _ (λ _. tt)
        (FailsOnly-if Failure (is_held m) _ _ (λ _. tt) start-Failure)
