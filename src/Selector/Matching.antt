-- ===== src/Selector/Matching.antt =====
-- What SelectIngresses selects.
use transfergw.Base.{
  ◌≡◌, inl, inr, String, Bool, true, Option, List, [], ◌∷◌, filter, All, All-append, Bool-cases,
}
use transfergw.Base.Sort.{insert_by, sort_by}
use transfergw.Kube.{Ingress, LabelSelector}
use transfergw.Api.{SelectorSpec}
use transfergw.Env.{Env}
use transfergw.Action.{Post, Ensures, Result-cases, wrap_result}
use transfergw.Selector.{
  matches_ingress_class, sort_ingresses, select_in, select_ingresses, label_selector,
  resolve_namespaces, ingress_lt,
}

All-filter : {A : Type 0} (p : A → Bool) (xs : List A) → All (λ x. p x ≡ true) (filter p xs)
All-filter p [] = tt
All-filter p (x ∷ xs) = elim (Bool-cases (p x)) [
  | inl h ↦ rw h (h, All-filter p xs)
  | inr h ↦ rw h (All-filter p xs)
]

All-insert_by :
    {A : Type 0} (lt : A → A → Bool) (P : A → Type 0) (x : A) (xs : List A)
    → P x
    → All P xs
    → All P (insert_by lt x xs)
unfolding insert_by
All-insert_by lt P x [] h a = (h, tt)
All-insert_by lt P x (y ∷ ys) h a = elim (Bool-cases (lt x y)) [
  | inl e ↦ rw e (h, a)
  | inr e ↦ rw e (a.0, All-insert_by lt P x ys h a.1)
]

All-sort_by :
    {A : Type 0} (lt : A → A → Bool) (P : A → Type 0) (xs : List A)
    → All P xs
    → All P (sort_by lt xs)
unfolding sort_by
All-sort_by lt P [] a = tt
All-sort_by lt P (x ∷ xs) a = All-insert_by lt P x (sort_by lt xs) a.0 (All-sort_by lt P xs a.1)

-- The Ingresses of one of the classes.
abbrev AreOfClass : List String → List Ingress → Type 0
AreOfClass classes = All (λ ing. matches_ingress_class ing classes ≡ true)

module _ (E : Env) where
  select_in-AreOfClass :
      (namespaces : List String) (labels : Option LabelSelector) (classes : List String)
      → Ensures (AreOfClass classes) (select_in E namespaces labels classes)
  unfolding select_in wrap_result
  select_in-AreOfClass [] labels classes s = tt
  select_in-AreOfClass (ns ∷ rest) labels classes s =
      let (r, s') = E.list_ingresses ns labels s in
      elim (Result-cases r) [
        | inr (x, e) ↦ rw (Post, e) tt
        | inl (list, e) ↦ elim (Result-cases (select_in E rest labels classes s').0) [
          | inr (x, e') ↦ rw (Post, e, e') tt
          | inl (more, e') ↦
              rw (Post, e, e')
                (All-append _ _ more (All-filter (λ ing. matches_ingress_class ing classes) list)
                  (rw e' at (select_in-AreOfClass rest labels classes s')))
        ]
      ]

  -- Whatever the API server answers, every Ingress that is selected is of one of the selector's
  -- classes, by its field or by the legacy annotation, unless the selector names none.
  select_ingresses-AreOfClass :
      (sel : SelectorSpec) → Ensures (AreOfClass sel.ingress_classes) (select_ingresses E sel)
  unfolding select_ingresses sort_ingresses
  select_ingresses-AreOfClass sel s =
      let (r, s₁) = label_selector E sel.ingress_selector s in
      let (r', s₂) = resolve_namespaces E sel.namespaces s₁ in
      elim (Result-cases r) [
        | inr (x, e) ↦ rw (Post, select_ingresses, e) tt
        | inl (u, e) ↦ elim (Result-cases r') [
          | inr (x, e') ↦ rw (Post, select_ingresses, e, e') tt
          | inl (names, e') ↦
              let (r'', _) = select_in E names sel.ingress_selector sel.ingress_classes s₂ in
              elim (Result-cases r'') [
                | inr (x, e'') ↦ rw (Post, select_ingresses, e, e', e'') tt
                | inl (out, e'') ↦
                    rw (Post, select_ingresses, e, e', e'')
                      (All-sort_by ingress_lt _ out (
                        rw e'' at
                          (select_in-AreOfClass names sel.ingress_selector sel.ingress_classes s₂)))
              ]
        ]
      ]
