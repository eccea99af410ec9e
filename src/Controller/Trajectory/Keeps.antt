-- ===== src/Controller/Trajectory/Keeps.antt =====
-- A reconcile lists no condition type twice, whatever stage of it sets the conditions.
use transfergw.Base.{
  ◌≡◌, refl, length, Bool, String, Bool, true, false, none, some, Option, List, [], ◌∷◌, string_eq,
  arith, length, inl, inr,
}
use transfergw.Base.Int.{ℤ, pos, i32}
use transfergw.Kube.{Ingress, Condition}
use transfergw.Api.{Phase, RouteChange, TransferGw, TransferGwStatus}
use transfergw.Env.{Env, Target}
use transfergw.Conditions.{has_in}
use transfergw.Conditions.Laws.{Distinct, set_condition-Distinct}
use transfergw.Hooks.{
  Stage, pre_rollout, post_conversion, stamp_in, stamp_condition, record_answer, run_hook, ask_hook,
}
use transfergw.Hooks.Laws.{run_hook-cases}
use transfergw.Health.{Breach}
use transfergw.Controller.Convert.{Tally}
use transfergw.Controller.Check.{ingress_namespaces, evaluate_health, compare_health}
use transfergw.Validator.{target_namespace, gateway_name}
use transfergw.Controller.Status.{
  Findings, mark, ready, outcome, Outcome, condition_rolled_back, breached, awaiting,
  nothing_selected, all_failed, finished, in_progress, roll_back, settle, resume, record_counts,
}
use transfergw.Controller.Reconcile.{Share, gate, choose_share, check_share, record_share, conclude}

has_in-stamp_in :
    (cs : List Condition) (type other : String) (g : ℤ)
    → has_in (stamp_in cs type g) other ≡ has_in cs other
unfolding has_in stamp_in
has_in-stamp_in [] type other g = ground arith
has_in-stamp_in (c ∷ cs) type other g = ground (arith, has_in-stamp_in cs type other g)

stamp_in-Distinct :
    (cs : List Condition) (type : String) (g : ℤ) → Distinct cs → Distinct (stamp_in cs type g)
unfolding stamp_in
stamp_in-Distinct [] type g d = tt
stamp_in-Distinct (c ∷ cs) type g d =
    ground (arith, stamp_in-Distinct cs type g d.1, has_in-stamp_in cs type c.type g)

-- No condition type is listed twice.
unfoldable pub IsDistinct : TransferGwStatus → Type 0
IsDistinct st = Distinct st.conditions

record_answer-IsDistinct :
    {Float : Type 0} (m : TransferGw Float) (st : TransferGwStatus) (stage : Stage) (p : Bool)
    (now : ℤ)
    → IsDistinct st
    → IsDistinct (record_answer m st stage p now)
unfolding record_answer stamp_condition IsDistinct
record_answer-IsDistinct m st stage true now d =
    stamp_in-Distinct _ _ _ (set_condition-Distinct st _ _ _ _ now d).0
record_answer-IsDistinct m st stage false now d =
    stamp_in-Distinct _ _ _ (set_condition-Distinct st _ _ _ _ now d).0

module _ (E : Env) (m : TransferGw E.Float) where
  pub run_hook-IsDistinct :
      (st : TransferGwStatus) (stage : Stage) (blocking : Bool) (s : E.State)
      → IsDistinct st
      → IsDistinct (run_hook E m st stage blocking s).0.0
  unfolding ask_hook
  run_hook-IsDistinct st stage blocking s d = elim (run_hook-cases E m st stage blocking s) [
    | inl e ↦ rw (e blocking s) d
    | inr (url, call, e) ↦ rw e (record_answer-IsDistinct m st stage _ _ d)
  ]

  mark-IsDistinct :
      (st : TransferGwStatus) (type : String) (holds : Bool) (reason msg : String) (s : E.State)
      → IsDistinct st
      → IsDistinct (mark E st type holds reason msg s).0
  unfolding mark IsDistinct
  mark-IsDistinct st type holds reason msg s d = (set_condition-Distinct st type _ _ _ _ d).0

  ready-IsDistinct :
      (phase : Phase) (st : TransferGwStatus) (holds : Bool) (reason msg : String) (s : E.State)
      → IsDistinct st
      → IsDistinct (ready E phase st holds reason msg s).0
  unfolding ready IsDistinct
  ready-IsDistinct phase st holds reason msg s d =
      mark-IsDistinct (record st { phase = phase }) _ holds reason msg s d

  generation-IsDistinct :
      (st : TransferGwStatus) (g : ℤ)
      → IsDistinct st
      → IsDistinct (record st { rollback_generation = g })
  unfolding IsDistinct
  generation-IsDistinct st g d = d

  roll_back-IsDistinct :
      (b : Breach E.Float) (st : TransferGwStatus) (s : E.State)
      → IsDistinct st
      → IsDistinct (roll_back E m b st s).0
  unfolding roll_back
  roll_back-IsDistinct b st s d =
      mark-IsDistinct _ _ true _ _ _
        (ready-IsDistinct _ _ false _ _ _ (generation-IsDistinct st m.generation d))

  settle-IsDistinct :
      (f : Findings E.Float) (st : TransferGwStatus) (s : E.State)
      → IsDistinct st
      → IsDistinct (settle E m f st s).0
  unfolding settle
  settle-IsDistinct f st s d = go (outcome f) refl
    where
      go : (o : Outcome E.Float) → outcome f ≡ o → IsDistinct (settle E m f st s).0
      go (breached b) e = rw (e, settle) (roll_back-IsDistinct b st s d)
      go awaiting e = rw (e, settle) (ready-IsDistinct _ st false _ _ s d)
      go nothing_selected e = rw (e, settle) (ready-IsDistinct _ st false _ _ s d)
      go all_failed e = rw (e, settle) (ready-IsDistinct _ st false _ _ s d)
      go finished e =
          rw (e, settle) (run_hook-IsDistinct _ _ _ _ (ready-IsDistinct _ st true _ _ s d))
      go in_progress e = rw (e, settle) (ready-IsDistinct _ st false _ _ s d)

  resume-IsDistinct :
      (breach : Option (Breach E.Float)) (st : TransferGwStatus) (s : E.State)
      → IsDistinct st
      → IsDistinct (resume E breach st s).0
  unfolding resume
  resume-IsDistinct (some b) st s d = d
  resume-IsDistinct none st s d = ground (
    arith,
    mark-IsDistinct _ condition_rolled_back false "Resumed"
        "Rollout resumed after the spec was edited" s (generation-IsDistinct st (pos 0) d),
  )

  choose_share-IsDistinct :
      (t : Tally) (st : TransferGwStatus) (s : E.State)
      → IsDistinct st
      → IsDistinct (choose_share E m t st s).0.0
  unfolding choose_share gate
  choose_share-IsDistinct t st s d =
      ground (arith, run_hook-IsDistinct st pre_rollout true (E.now s).1 d)

  evaluate_health-IsDistinct :
      (target : Target) (st : TransferGwStatus) (s : E.State)
      → IsDistinct st
      → IsDistinct (evaluate_health E m target st s).0.0
  unfolding evaluate_health compare_health IsDistinct
  evaluate_health-IsDistinct target st s d = ground arith

  check_share-IsDistinct :
      (ingresses : List Ingress) (percentage : ℤ) (st : TransferGwStatus) (s : E.State)
      → IsDistinct st
      → IsDistinct (check_share E m ingresses percentage st s).0.0
  unfolding check_share
  check_share-IsDistinct ingresses percentage st s d = ground (
    arith,
    evaluate_health-IsDistinct
        (record {
          gateway_name = gateway_name m;
          gateway_namespace = target_namespace m;
          namespaces = ingress_namespaces ingresses;
        })
        st s d,
  )

  record_share-IsDistinct :
      (share : Share) (percentage converted : ℤ) (changes : List RouteChange)
      (st : TransferGwStatus)
      → IsDistinct st
      → IsDistinct (record_share m share percentage converted changes st)
  unfolding record_share IsDistinct
  record_share-IsDistinct share percentage converted changes st d = d

  record_counts-IsDistinct :
      (total gateways : ℤ) (t : Tally) (st : TransferGwStatus)
      → IsDistinct st
      → IsDistinct (record_counts total gateways t st)
  unfolding record_counts IsDistinct
  record_counts-IsDistinct total gateways t st d = d

  -- Behind the routes no condition type comes to be listed twice.
  pub conclude-IsDistinct :
      (ingresses : List Ingress) (gateways : ℤ) (t : Tally) (st : TransferGwStatus) (s : E.State)
      → IsDistinct st
      → IsDistinct (conclude E m ingresses gateways t st s).0
  unfolding conclude
  conclude-IsDistinct ingresses gateways t st s d = resume-IsDistinct _ _ _ (
      settle-IsDistinct _ _ _ (
        record_share-IsDistinct _ _ _ _ _ (
          check_share-IsDistinct ingresses (choose_share E m t after.0.0 after.1).0.1.percentage _
            (choose_share E m t after.0.0 after.1).1
            (choose_share-IsDistinct t after.0.0 after.1 (
              run_hook-IsDistinct counted post_conversion false s
                (record_counts-IsDistinct _ gateways t st d))))))
    where
      counted : TransferGwStatus
      counted = record_counts (i32 (pos (length ingresses))) gateways t st

      after : (TransferGwStatus × Bool) × E.State
      after = run_hook E m counted post_conversion false s
