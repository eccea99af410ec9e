-- ===== src/Controller/Storing/Loop.antt =====
-- What pruneOrphanedRoutes does to the stored routes of one kind.
use transfergw.Base.{
  Bool-cases, inl, inr, ◌⊎◌, ◌≡◌, ◌≢◌, refl, sym, ap, ◌∙◌, String, false, none, List, [], ◌∷◌,
  string_eq, arith,
}
use transfergw.Kube.{ObjectKey}
use transfergw.Env.{Env, Error, Result, ok, err}
use transfergw.Action.{Action}
use transfergw.Controller.Apply.{Pruned, prune_each, prune_listed, is_not_found}
use transfergw.Controller.Storing.{
  keep, Covered, kept, HasFailed, Deletes, Lists, Leaves, kept-without, Covered-keep, Covered-self,
  Covered-without, Covered-kept,
}

module _ (E : Env) (desired : List String) (delete : ObjectKey → Action E.State (Unit {0}))
    (routes : E.State → List ObjectKey) (deletes : Deletes E routes delete) where
  prune_each-kept :
      (ks : List ObjectKey) (s : E.State)
      → kept desired (routes (prune_each E delete desired ks s).1) ≡ kept desired (routes s)
  unfolding prune_each
  prune_each-kept [] s = refl
  prune_each-kept (k ∷ ks) s = ground (
    arith,
    prune_each-kept ks s,
    prune_each-kept ks (delete k s).1,
    deletes k s,
    kept-without desired k (routes s),
  )

  -- A deletion that fails ends the loop with its error.
  prune_each_fails :
      (k : ObjectKey) (ks : List ObjectKey) (s : E.State)
      → keep desired k ≡ false
      → HasFailed (delete k s).0
      → (prune_each E delete desired (k ∷ ks) s).0.error ≢ none
  unfolding prune_each is_not_found
  prune_each_fails k ks s h (e, r, other) q = ground (arith, r, other, q)

  prune_each_goes_on :
      (k : ObjectKey) (ks : List ObjectKey) (s : E.State)
      → (prune_each E delete desired (k ∷ ks) s).0.error ≡ none
      → keep desired k ≡ false
      → (prune_each E delete desired ks (delete k s).1).0.error ≡ none
        × ((prune_each E delete desired (k ∷ ks) s).1
            ≡ (prune_each E delete desired ks (delete k s).1).1)
  unfolding prune_each
  prune_each_goes_on k ks s h o = ground arith

  prune_each_clears :
      (ks : List ObjectKey) (s : E.State)
      → Covered desired ks (routes s)
      → (prune_each E delete desired ks s).0.error ≡ none
      → kept desired (routes (prune_each E delete desired ks s).1)
        ≡ routes (prune_each E delete desired ks s).1
  unfolding prune_each
  prune_each_clears [] s c h = Covered-kept desired (routes s) c
  prune_each_clears (k ∷ ks) s c h = elim (Bool-cases (keep desired k)) [
    | inl kk ↦
        rw (kk, prune_each)
          (prune_each_clears ks s (Covered-keep desired k ks _ kk c) (rw (prune_each, kk) at h))
    | inr o ↦ elim (deletes k s) [
      | inr (_, failed) ↦ elim (prune_each_fails k ks s o failed h) [ ]
      | inl gone ↦
          let (none_left, same_end) = prune_each_goes_on k ks s h o in
          rw same_end (
            prune_each_clears ks (delete k s).1 (rw gone (Covered-without desired k ks _ c))
              none_left)
    ]
  ]

  prune_listed-kept :
      (list : Result (List ObjectKey)) (s : E.State)
      → kept desired (routes (prune_listed E list delete desired s).1) ≡ kept desired (routes s)
  unfolding prune_listed
  prune_listed-kept (ok ks) s = prune_each-kept ks s
  prune_listed-kept (err e) s = refl

  prune_listed_clears :
      (list : Result (List ObjectKey)) (s : E.State)
      → (list ≡ ok (routes s)) ⊎ ((e : Error) × (list ≡ err e))
      → (prune_listed E list delete desired s).0.error ≡ none
      → routes (prune_listed E list delete desired s).1 ≡ kept desired (routes s)
  unfolding prune_listed
  prune_listed_clears list s answer h = elim answer [
    | inr (e, q) ↦ cc (rw (prune_listed, q) at h)
    | inl q ↦
        rw (q, prune_listed)
          (sym (prune_each_clears (routes s) s (Covered-self desired _) (rw (prune_listed, q) at h))
            ∙ prune_each-kept (routes s) s)
  ]

  abbrev pub prune_kind : Action E.State (List ObjectKey) → E.State → Pruned × E.State
  prune_kind list s = let (listed, s') = list s in prune_listed E listed delete desired s'

  pub prune_kind-kept :
      (list : Action E.State (List ObjectKey))
      → Leaves E routes list
      → (s : E.State) → kept desired (routes (prune_kind list s).1) ≡ kept desired (routes s)
  prune_kind-kept list leaves s =
      prune_listed-kept (list s).0 (list s).1 ∙ ap (kept desired) (leaves s)

  pub prune_kind_clears :
      (list : Action E.State (List ObjectKey))
      → Leaves E routes list
      → Lists E routes list
      → (s : E.State) → (prune_kind list s).0.error ≡ none
      → routes (prune_kind list s).1 ≡ kept desired (routes s)
  prune_kind_clears list leaves lists s h =
      prune_listed_clears (list s).0 (list s).1 (lists s) h ∙ ap (kept desired) (leaves s)

  -- Pruning one kind of routes leaves those of the other kind alone.
  prune_each-Leaves :
      (other : E.State → List ObjectKey)
      → ((k : ObjectKey) → Leaves E other (delete k))
      → (ks : List ObjectKey) (s : E.State) → other (prune_each E delete desired ks s).1 ≡ other s
  unfolding prune_each
  prune_each-Leaves other leaves [] s = refl
  prune_each-Leaves other leaves (k ∷ ks) s = ground (
    arith,
    prune_each-Leaves other leaves ks s,
    prune_each-Leaves other leaves ks (delete k s).1,
    leaves k s,
  )

  prune_listed-Leaves :
      (other : E.State → List ObjectKey)
      → ((k : ObjectKey) → Leaves E other (delete k))
      → (list : Result (List ObjectKey)) (s : E.State)
      → other (prune_listed E list delete desired s).1 ≡ other s
  unfolding prune_listed
  prune_listed-Leaves other leaves (ok ks) s = prune_each-Leaves other leaves ks s
  prune_listed-Leaves other leaves (err e) s = refl

  pub prune_kind-Leaves :
      (other : E.State → List ObjectKey) (list : Action E.State (List ObjectKey))
      → ((k : ObjectKey) → Leaves E other (delete k))
      → Leaves E other list
      → (s : E.State) → other (prune_kind list s).1 ≡ other s
  prune_kind-Leaves other list leaves leaves' s =
      prune_listed-Leaves other leaves (list s).0 (list s).1 ∙ leaves' s
