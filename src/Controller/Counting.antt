-- ===== src/Controller/Counting.antt =====
-- What the loop of Reconcile counts.
use transfergw.Base.{
  ap, Option-cases, ℕ, suc, ◌+◌, ◌<◌, ◌≡◌, refl, ◌∙◌, ◌⊎◌, inl, inr, not, false, List, [], ◌∷◌,
  filter, contains, string_eq, length, arith, Bool-cases,
}
use transfergw.Base.Int.{pos, ◌+ℤ◌, i32_of_fits}
use transfergw.Base.Dict.{lookup}
use transfergw.Kube.{Ingress}
use transfergw.Gateway.{HttpRoute, GrpcRoute}
use transfergw.Api.{TransferGw}
use transfergw.Env.{Env}
use transfergw.Conversion.{Options, ConversionResult, has_failed, key}
use transfergw.Canary.{Pairing, Pairs}
use transfergw.Controller.{Runtime}
use transfergw.Controller.Convert.{
  Tally, increment, add_issues, count_failed, count_converted, applied, merge_canary,
  apply_grpc_step, apply_http_step, to_status_issues, convert, http_step, route_step, convert_one,
  convert_all,
}

-- One more Ingress has failed, or one more route is to be kept.
abbrev pub Counted : Tally → Tally → Type 0
Counted t t' =
    ((t'.failed ≡ increment t.failed) × (t'.desired ≡ t.desired))
    ⊎ ((t'.failed ≡ t.failed) × (length t'.desired ≡ suc (length t.desired)))

increment_fits : (n : ℕ) → suc n < 2147483648 → increment (pos n) ≡ pos (suc n)
unfolding increment ◌+ℤ◌
increment_fits n h = i32_of_fits (pos n +ℤ pos 1) (ground arith) (ground arith) ∙ ground arith

pub merge_canary-kept :
    (ing : Ingress) (p : Pairing) (route : HttpRoute) (result : ConversionResult) (t : Tally)
    → ((merge_canary ing p route result t).1.failed ≡ t.failed)
      × ((merge_canary ing p route result t).1.desired ≡ t.desired)
unfolding merge_canary add_issues count_converted
merge_canary-kept ing p route result t = ground arith

Counted-kept :
    (t t' u : Tally) → t'.failed ≡ t.failed → t'.desired ≡ t.desired → Counted t' u → Counted t u
Counted-kept t t' u e e' c = ground arith

-- The Ingresses that are converted on their own.
abbrev pub unpaired : Pairs → List Ingress → List Ingress
unpaired pairs = filter (λ ing. not (contains pairs.names (key ing)))

module _ (E : Env) (rt : Runtime) (m : TransferGw E.Float) (opts : Options E.State) where
  apply_grpc_step-Counted :
      (ing : Ingress) (route : GrpcRoute) (t : Tally) (s : E.State)
      → Counted t (apply_grpc_step E rt m opts ing route t s).0
  unfolding apply_grpc_step add_issues count_failed applied
  apply_grpc_step-Counted ing route t s = ground arith

  apply_http_step-Counted :
      (ing : Ingress) (route : HttpRoute) (t : Tally) (s : E.State)
      → Counted t (apply_http_step E rt m opts ing route t s).0
  unfolding apply_http_step add_issues count_failed applied
  apply_http_step-Counted ing route t s = ground arith

  http_step-Counted :
      (pairs : Pairs) (ing : Ingress) (route : HttpRoute) (t : Tally) (s : E.State)
      → Counted t (http_step E rt m opts pairs ing route t s).0
  unfolding http_step
  http_step-Counted pairs ing route t s = elim (Option-cases (lookup (key ing) pairs.for_primary)) [
    | inl h ↦ rw (h, http_step) (apply_http_step-Counted ing route t s)
    | inr (p, h) ↦
        let (result, s') = convert E rt m opts p.ingress s in
        let (route', t') = merge_canary ing p route result t in
        let (e, e') = merge_canary-kept ing p route result t in
        rw (h, http_step)
          (Counted-kept t t' (apply_http_step E rt m opts ing route' t' s').0 e e'
            (apply_http_step-Counted ing route' t' s'))
  ]

  route_step-Counted :
      (pairs : Pairs) (ing : Ingress) (result : ConversionResult) (t : Tally) (s : E.State)
      → Counted t (route_step E rt m opts pairs ing result t s).0
  unfolding route_step count_failed
  route_step-Counted pairs ing result t s = elim (Bool-cases (has_failed result)) [
    | inl h ↦ rw (route_step, h) (inl (refl, refl))
    | inr h ↦ elim (Option-cases result.grpc_route) [
      | inr (g, h') ↦ rw (route_step, h, h') (apply_grpc_step-Counted ing g t s)
      | inl h' ↦ elim (Option-cases result.route) [
        | inl h'' ↦ rw (route_step, h, h', h'') (inl (refl, refl))
        | inr (r, h'') ↦ rw (route_step, h, h', h'') (http_step-Counted pairs ing r t s)
      ]
    ]
  ]

  convert_one-Counted :
      (pairs : Pairs) (ing : Ingress) (t : Tally) (s : E.State)
      → contains pairs.names (key ing) ≡ false
      → Counted t (convert_one E rt m opts pairs ing t s).0
  unfolding convert_one add_issues
  convert_one-Counted pairs ing t s h =
      let (result, s') = convert E rt m opts ing s in
      rw (convert_one, h)
        (Counted-kept t (add_issues (to_status_issues result.issues) t)
          (route_step E rt m opts pairs ing result (add_issues (to_status_issues result.issues) t)
            s').0
          refl refl
          (route_step-Counted pairs ing result (add_issues (to_status_issues result.issues) t) s'))

  -- While the failures so far and the Ingresses make less than 2^31, the loop accounts for every
  -- Ingress but the canaries of the pairs: together they add as many failures and routes to keep
  -- as there are of them.
  pub convert_all_accounts :
      (pairs : Pairs) (ings : List Ingress) (t : Tally) (s : E.State) (f : ℕ)
      → t.failed ≡ pos f
      → f + length ings < 2147483648
      → (f' : ℕ) × ((convert_all E rt m opts pairs ings t s).0.failed ≡ pos f')
        × (length (convert_all E rt m opts pairs ings t s).0.desired + f'
            ≡ length t.desired + f + length (unpaired pairs ings))
  unfolding convert_all
  convert_all_accounts pairs [] t s f h b = (f, h, omega arith)
  convert_all_accounts pairs (ing ∷ rest) t s f h b =
      let (t', s') = convert_one E rt m opts pairs ing t s in
      elim (Bool-cases (contains pairs.names (key ing))) [
        | inl c ↦ rw (c, convert_all) (convert_all_accounts pairs rest t s f h (omega arith))
        | inr c ↦ elim (convert_one-Counted pairs ing t s c) [
          | inl (e, e') ↦
              let (f', k, l) =
                convert_all_accounts pairs rest t' s' (suc f)
                  (e ∙ ap increment h ∙ increment_fits f (omega arith)) (omega arith) in
              (f', k, rw c (ground arith))
          | inr (e, e') ↦
              let (f', k, l) = convert_all_accounts pairs rest t' s' f (e ∙ h) (omega arith) in
              (f', k, rw c (ground arith))
        ]
      ]
