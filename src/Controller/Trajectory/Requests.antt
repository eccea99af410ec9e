-- ===== src/Controller/Trajectory/Requests.antt =====
-- Which requests come back after a reconcile of internal/controller/transfergw_controller.go.
use transfergw.Base.{◌≡◌, ◌⊎◌, ◌↔◌, refl, ap, true, false, arith, inl, inr, Bool-cases}
use transfergw.Base.Int.{pos}
use transfergw.Kube.{ObjectKey}
use transfergw.Api.{TransferGw, TransferGwStatus, Phase}
use transfergw.Env.{Env, ok}
use transfergw.Action.{Result-cases, wrap_result}
use transfergw.Controller.{Runtime}
use transfergw.Controller.Reconcile.{
  Requeue, no_requeue, requeue_after, requeue_of, is_held, finish, reconcile_migration, reconcile,
}
use transfergw.Controller.Trajectory.{next_status}
use transfergw.Controller.Trajectory.Progress.{start-next_status}

requeue_cases : (r : Requeue) → (r ≡ no_requeue) ⊎ ¬ (r ≡ no_requeue)
requeue_cases no_requeue = inl refl
requeue_cases (requeue_after t) = inr (λ h. cc)

abbrev pub IsTerminal : Phase → Type 0
IsTerminal p = (p ≡ Phase.complete) ⊎ ((p ≡ Phase.failed) ⊎ (p ≡ Phase.rolled_back))

requeue_of-IsTerminal : (p : Phase) → requeue_of p ≡ no_requeue ↔ IsTerminal p
unfolding requeue_of
requeue_of-IsTerminal p = (λ h. ground arith, λ h. ground arith)

requeue_of_going : (p : Phase) → ¬ (IsTerminal p) → requeue_of p ≡ requeue_after (pos 30000000000)
unfolding requeue_of
requeue_of_going p h = ground arith

IsTerminal-cases : (p : Phase) → IsTerminal p ⊎ ¬ (IsTerminal p)
IsTerminal-cases p = elim (requeue_cases (requeue_of p)) [
  | inl e ↦ inl ((requeue_of-IsTerminal p).0 e)
  | inr d ↦ inr (λ h. d ((requeue_of-IsTerminal p).1 h))
]

module _ (E : Env) where
  -- When the status is written, no request comes back exactly if the phase is complete, failed or
  -- rolled back; in any other phase one comes back after 30 seconds.
  finish-IsTerminal :
      (m : TransferGw E.Float) (st : TransferGwStatus) (s : E.State) (r : Requeue)
      → (finish E m st s).0 ≡ ok r
      → (r ≡ no_requeue ↔ IsTerminal st.phase)
        × (¬ (IsTerminal st.phase) → r ≡ requeue_after (pos 30000000000))
  unfolding finish wrap_result
  finish-IsTerminal m st s r h =
      ground (arith, requeue_of-IsTerminal st.phase, requeue_of_going st.phase)

module _ (E : Env) (rt : Runtime) (m : TransferGw E.Float) where
  -- A migration that is left alone, from a state where it was read: it is paused, held after a
  -- rollback, or comes to one of the last phases.
  abbrev pub IsOver : E.State → Type 0
  IsOver s =
      (m.spec.rollout.paused ≡ true)
      ⊎ ((is_held m ≡ true)
          ⊎ ((st : TransferGwStatus) × ((next_status E rt m s).0 ≡ ok st) × IsTerminal st.phase))

  -- What comes back of a reconcile that is over, and of one that is not.
  abbrev pub Answers : E.State → Requeue → Type 0
  Answers s r =
      ((r ≡ no_requeue) × IsOver s) ⊎ ((r ≡ requeue_after (pos 30000000000)) × ¬ (IsOver s))

  IsOver-IsTerminal :
      (s : E.State) (st : TransferGwStatus)
      → m.spec.rollout.paused ≡ false
      → is_held m ≡ false
      → (next_status E rt m s).0 ≡ ok st
      → IsOver s
      → IsTerminal st.phase
  IsOver-IsTerminal s st p h e (inl paused) = absurd (cc)
  IsOver-IsTerminal s st p h e (inr (inl held)) = absurd (cc)
  IsOver-IsTerminal s st p h e (inr (inr (st', e', over))) =
      let q : st' ≡ st = cc in rw (ap (λ (x : TransferGwStatus). x.phase) q) at over

  finish-Answers :
      (s : E.State) (st : TransferGwStatus) (s' : E.State) (r : Requeue)
      → m.spec.rollout.paused ≡ false
      → is_held m ≡ false
      → (next_status E rt m s).0 ≡ ok st
      → (finish E m st s').0 ≡ ok r
      → Answers s r
  finish-Answers s st s' r p h e f =
      let (stops, goes_on) = finish-IsTerminal E m st s' r f in
      elim (IsTerminal-cases st.phase) [
        | inl over ↦ inl (stops.1 over, inr (inr (st, e, over)))
        | inr going ↦ inr (goes_on going, λ over. going (IsOver-IsTerminal s st p h e over))
      ]

  reconcile_migration-Answers :
      (s : E.State) (r : Requeue) → (reconcile_migration E rt m s).0 ≡ ok r → Answers s r
  unfolding reconcile_migration
  reconcile_migration-Answers s r h = elim (Bool-cases m.spec.rollout.paused) [
    | inl p ↦ inl (ground arith, inl p)
    | inr p ↦ elim (Bool-cases (is_held m)) [
      | inl held ↦ inl (ground arith, inr (inl held))
      | inr free ↦ elim (Result-cases (next_status E rt m s).0) [
        | inr (x, e) ↦ absurd (ground (arith, start-next_status E rt m s))
        | inl (st, e) ↦
            finish-Answers s st (next_status E rt m s).1 r p free e
              (ground (arith, start-next_status E rt m s))
      ]
    ]
  ]

module _ (E : Env) (rt : Runtime) where
  -- Where a migration was read and its reconcile returns no error: no request comes back exactly if
  -- it is paused, held after a rollback, or comes to a status in the phase Complete, Failed or
  -- RolledBack; otherwise one comes back after 30 seconds.
  pub reconcile-Answers :
      (k : ObjectKey) (s : E.State) (m : TransferGw E.Float) (r : Requeue)
      → (E.get_migration k s).0 ≡ ok m
      → (reconcile E rt k s).0 ≡ ok r
      → Answers E rt m (E.get_migration k s).1 r
  unfolding reconcile
  reconcile-Answers k s m r e h =
      reconcile_migration-Answers E rt m (E.get_migration k s).1 r (rw (e, reconcile) at h)
