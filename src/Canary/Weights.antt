-- ===== src/Canary/Weights.antt =====
-- Pair and MergeBackend of internal/controller/canary: the weights.
use transfergw.Base.{
  ◌≡◌, refl, String, true, false, some, List, [], ◌∷◌, map, All, contains, string_eq, arith,
  Bool-cases, ◌<>◌, ◌==◌, ◌||◌, Option-cases, inl, inr,
}
use transfergw.Base.Int.{ℤ, pos, ltb_ℤ, ◌-ℤ◌, i32, i32_of_fits}
use transfergw.Base.Text.{atoi}
use transfergw.Base.Dict.{Dict, insert, lookup}
use transfergw.Kube.{Ingress}
use transfergw.Gateway.{HttpRoute, HttpRouteRule, BackendRef}
use transfergw.Translator.{nginx_prefix}
use transfergw.Rollout.Bounds.{IsPercentage, i32_of_rest}
use transfergw.Conversion.{key}
use transfergw.Conversion.Completeness.{EachFor}
use transfergw.Canary.{
  Pairing, Pairs, Order, is_canary, canary_weight, weighted, group_by_signature, split_pair,
  add_pair, add_pairs, pair, canary_backend, merge_rule, merge_backend,
}

i32_of_percentage : (n : ℤ) → (ltb_ℤ n (pos 0) || ltb_ℤ (pos 100) n) ≡ false → i32 n ≡ n
i32_of_percentage n h = i32_of_fits n (ground arith) (ground arith)

pub canary_weight_bounds : (ing : Ingress) (w : ℤ) → canary_weight ing ≡ some w → IsPercentage w
unfolding canary_weight
canary_weight_bounds ing w h =
    elim (Option-cases (lookup (nginx_prefix <> "canary-weight") ing.annotations)) [
      | inl e ↦ cc (rw (canary_weight, e) at h)
      | inr (v, e) ↦ elim (Option-cases (atoi v)) [
        | inl e' ↦ cc (rw (canary_weight, e, e') at h)
        | inr (n, e') ↦ ground (arith, i32_of_percentage n, rw (canary_weight, e, e') at h)
      ]
    ]

-- A pairing has a percentage for its weight, and an Ingress that is a canary and is among the
-- names.
abbrev pub IsPaired : List String → String × Pairing → Type 0
IsPaired names (k, p) =
    IsPercentage p.weight × (is_canary p.ingress ≡ true) × (contains names (key p.ingress) ≡ true)

All-insert :
    {A : Type 0} (P : String × A → Type 0) (k : String) (v : A) (d : Dict A)
    → P (k, v)
    → All P d
    → All P (insert k v d)
unfolding insert
All-insert P k v [] h a = ground arith
All-insert P k v ((k', v') ∷ d) h a = elim (Bool-cases (k' == k)) [
  | inl e ↦ rw e (h, a.1)
  | inr e ↦ rw e (a.0, All-insert P k v d h a.1)
]

IsPaired-cons :
    (name : String) (names : List String) (d : Dict Pairing)
    → All (IsPaired names) d
    → All (IsPaired (name ∷ names)) d
IsPaired-cons name names [] a = tt
IsPaired-cons name names ((k, p) ∷ d) a = (ground arith, IsPaired-cons name names d a.1)

split_pair-is_canary :
    (group : List Ingress) (primary canary : Ingress)
    → split_pair group ≡ some (primary, canary)
    → (is_canary canary ≡ true) × (is_canary primary ≡ false)
unfolding split_pair
split_pair-is_canary [] primary canary h = cc
split_pair-is_canary (a ∷ []) primary canary h = cc
split_pair-is_canary (a ∷ b ∷ []) primary canary h = elim (Bool-cases (is_canary a)) [
  | inl e ↦ elim (Bool-cases (is_canary b)) [
    | inl e' ↦ cc (rw (e, e') at h)
    | inr e' ↦ let f = rw (e, e') at h in (cc, cc)
  ]
  | inr e ↦ elim (Bool-cases (is_canary b)) [
    | inl e' ↦ let f = rw (e, e') at h in (cc, cc)
    | inr e' ↦ cc (rw (e, e') at h)
  ]
]
split_pair-is_canary (a ∷ b ∷ c ∷ more) primary canary h = cc

-- All the pairings of a result are sound.
abbrev pub ArePaired : Pairs → Type 0
ArePaired p = All (IsPaired p.names) p.for_primary

add_pair-ArePaired : (group : List Ingress) (p : Pairs) → ArePaired p → ArePaired (add_pair group p)
unfolding add_pair
add_pair-ArePaired group p a = elim (Option-cases (split_pair group)) [
  | inl e ↦ rw (add_pair, e) a
  | inr ((primary, canary), e) ↦ elim (Option-cases (canary_weight canary)) [
    | inl e' ↦ rw (add_pair, e, e') a
    | inr (w, e') ↦
        rw (add_pair, e, e')
          (All-insert (IsPaired (key canary ∷ p.names)) (key primary)
            (record { ingress = canary; weight = w }) p.for_primary
            (
              canary_weight_bounds canary w e',
              (split_pair-is_canary group primary canary e).0,
              ground arith,
            )
            (IsPaired-cons (key canary) p.names p.for_primary a))
  ]
]

add_pairs-ArePaired :
    (groups : Dict (List Ingress)) (p : Pairs) → ArePaired p → ArePaired (add_pairs groups p)
unfolding add_pairs
add_pairs-ArePaired [] p a = a
add_pairs-ArePaired ((sig, group) ∷ rest) p a =
    add_pairs-ArePaired rest (add_pair group p) (add_pair-ArePaired group p a)

-- In whatever order the groups are visited, every pairing carries a weight from 0 to 100 and an
-- Ingress that is marked as a canary and whose name is among those of the paired.
pub pair-ArePaired : (order : Order) (ingresses : List Ingress) → ArePaired (pair order ingresses)
unfolding pair
pair-ArePaired order ingresses = add_pairs-ArePaired (order (group_by_signature ingresses [])) _ tt

-- A merged rule matches and filters as before, and where it had one backend it now splits the
-- weight of 100 between that and the canary's.
abbrev pub Splits : BackendRef → ℤ → HttpRouteRule → HttpRouteRule → Type 0
Splits canary w r r' =
    (r'.matches ≡ r.matches)
    × (r'.filters ≡ r.filters)
    × ((ref : BackendRef)
        → r.backend_refs ≡ ref ∷ []
        → r'.backend_refs
          ≡ (record ref { weight = some (pos 100 -ℤ w) })
            ∷ (record canary { weight = some w })
            ∷ [])

merge_rules-Splits :
    (canary : BackendRef) (w : ℤ) (rs : List HttpRouteRule)
    → IsPercentage w
    → EachFor (Splits canary w) rs (map (merge_rule canary w) rs)
unfolding merge_rule weighted
merge_rules-Splits canary w [] h = tt
merge_rules-Splits canary w (r ∷ rs) h =
    ((refl, refl, λ ref e. rw (e, i32_of_rest w h) refl), merge_rules-Splits canary w rs h)

-- Merging a canary that has a first backend, with a percentage for its weight, keeps the rules of
-- the primary's route one for one, with their matches and filters; where a rule has one backend,
-- it splits the weight of 100 between that and the canary's first.
pub merge_backend-Splits :
    (primary canary : HttpRoute) (w : ℤ) (b : BackendRef)
    → IsPercentage w
    → canary_backend canary.spec.rules ≡ some b
    → EachFor (Splits b w) primary.spec.rules (merge_backend primary canary w).spec.rules
unfolding merge_backend
merge_backend-Splits primary canary w b h e =
    rw (merge_backend, e) (merge_rules-Splits b w primary.spec.rules h)
