-- ===== src/Validator/Ownership.antt =====
-- The check of the validating webhook that a Gateway has one owner.
use transfergw.Base.{
  ◌∙◌, sym, ◌≡◌, refl, ◌⊎◌, inl, inr, ◌↔◌, String, true, false, none, List, [], ◌∷◌, All, string_eq,
  arith, Option-cases,
}
use transfergw.Api.{TransferGw}
use transfergw.Kube.{Ingress}
use transfergw.Selector.{select_ingresses}
use transfergw.Env.{Env, ok}
use transfergw.Action.{wrap_result, Result-cases}
use transfergw.Validator.{
  warnings, desired_gateway, same_gateway, is_self, find_owner, verdict, check_owners,
  check_gateway_class_exists, check_gateway_not_already_owned, check_listed, class_verdict,
  validate,
}

-- A migration that is the same object, generates no Gateway, or generates another one.
abbrev pub IsFree : {Float : Type 0} → TransferGw Float → TransferGw Float → Type 0
IsFree m n =
    ((n.namespace ≡ m.namespace) × (n.name ≡ m.name))
    ⊎ ((n.spec.conversion.generate_gateway ≡ false)
        ⊎ (((desired_gateway m).0 ≡ (desired_gateway n).0)
              × ((desired_gateway m).1 ≡ (desired_gateway n).1)
            → ⊥))

-- One warning, that none is there yet, where no Ingress is selected, and none otherwise.
abbrev pub IsWarned : List Ingress → List String → Type 0
IsWarned [] w = w ≡ "spec.selector matches no Ingress resources yet" ∷ []
IsWarned (i ∷ is) w = w ≡ []

warnings-IsWarned : (ings : List Ingress) (w : List String) → warnings ings ≡ w ↔ IsWarned ings w
unfolding warnings
warnings-IsWarned [] w = (sym, sym)
warnings-IsWarned (i ∷ is) w = (sym, sym)

module _ {Float : Type 0} (m : TransferGw Float) where
  find_owner-IsFree :
      (list : List (TransferGw Float)) → find_owner m list ≡ none → All (IsFree m) list
  unfolding find_owner is_self same_gateway
  find_owner-IsFree [] h = tt
  find_owner-IsFree (n ∷ rest) h = ground (arith, find_owner-IsFree rest)

  find_owner_of_free :
      (list : List (TransferGw Float)) → All (IsFree m) list → find_owner m list ≡ none
  unfolding find_owner is_self same_gateway
  find_owner_of_free [] a = refl
  find_owner_of_free (n ∷ rest) a = ground (arith, find_owner_of_free rest)

  -- The check passes exactly if no other migration of the list generates the same Gateway.
  check_owners-IsFree :
      (list : List (TransferGw Float)) → check_owners m list ≡ ok tt ↔ All (IsFree m) list
  unfolding check_owners verdict
  check_owners-IsFree list = elim (Option-cases (find_owner m list)) [
    | inl e ↦ rw (check_owners, e) ((λ _. find_owner-IsFree list e), (λ _. refl))
    | inr (n, e) ↦ rw (check_owners, e) ((λ h. cc), (λ a. cc (sym e ∙ find_owner_of_free list a)))
  ]

module _ (E : Env) (m : TransferGw E.Float) where
  -- From a state, the API server knows the class of the Gateway, then lists migrations none of
  -- which generates the same one, and then the Ingresses can be selected, whose warnings are these.
  abbrev pub IsAcceptable : E.State → List String → Type 0
  IsAcceptable s w =
      let (found, s₁) = E.get_gateway_class m.spec.conversion.gateway_class s in
      let (listed, s₂) = E.list_migrations s₁ in
      (found ≡ ok tt)
      × ((list : List (TransferGw E.Float)) × (listed ≡ ok list) × All (IsFree m) list)
      × ((ings : List Ingress) × ((select_ingresses E m.spec.selector s₂).0 ≡ ok ings)
          × IsWarned ings w)

  -- A migration that generates a Gateway passes the validation with some warnings exactly if the
  -- API server knows its class, then lists the migrations, none of which generates the same
  -- Gateway, and then the Ingresses can be selected; and there is one warning if none is selected,
  -- which rejects nothing, and no warning otherwise.
  pub validate-IsFree :
      (s : E.State) (w : List String)
      → m.spec.conversion.generate_gateway ≡ true
      → (validate E m s).0 ≡ ok w ↔ IsAcceptable s w
  unfolding validate check_gateway_class_exists class_verdict check_gateway_not_already_owned
      check_listed wrap_result
  validate-IsFree s w g =
      let (found, s₁) = E.get_gateway_class m.spec.conversion.gateway_class s in
      let (listed, s₂) = E.list_migrations s₁ in
      let selected = (select_ingresses E m.spec.selector s₂).0 in
      (
        (λ h. elim (Result-cases found) [
          | inr (x, e) ↦ absurd (ground arith)
          | inl (u, e) ↦ elim (Result-cases listed) [
            | inr (x, e') ↦ absurd (ground arith)
            | inl (list, e') ↦ elim (Result-cases (check_owners m list)) [
              | inr (x, f) ↦ absurd (ground arith)
              | inl (u, f) ↦ elim (Result-cases selected) [
                | inr (x, e'') ↦ absurd (ground arith)
                | inl (ings, e'') ↦ (
                  e,
                  (list, e', (check_owners-IsFree m list).0 f),
                  (ings, e'', (warnings-IsWarned ings w).0 (cc)),
                )
              ]
            ]
          ]
        ]),
        (λ (e, (list, e', free), (ings, e'', warned)).
            let f = (check_owners-IsFree m list).1 free in
            let f' = (warnings-IsWarned ings w).1 warned in cc),
      )
